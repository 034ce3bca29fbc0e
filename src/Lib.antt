-- ===== src/Lib.antt =====
-- RingOS: the disk driver, the file system, the shell, the program loader, the string routines, the
-- heap, the screen, the keyboard, the editor and the descriptor tables of the kernel, and the host
-- program that makes its disk image, as functions on explicit state.
--
-- The shell (kernel/shell.c) reads characters from the keyboard driver, writes to the screen, and
-- calls the FAT32 driver, which reads and writes sectors through the ATA driver. All of them use
-- the string routines. The descriptor tables are set up once, before the rest.
--
-- Prelude: names of the libraries, lists and Boolean tests on native numbers, loops over a range.
-- CString: lib/string.c and lib/stdint.c. An object in memory is the list of its bytes from the
--   pointer on; a result `none` is an access behind its end. `digits_loop` has fuel 11: a
--   `uint32_t` has at most ten digits.
-- Ata: drivers/ata.c over the ports of include/io.h, which are a parameter. Ata/Drive states what
--   the ATA standard says of a drive behind them that is read, as a view of its state that only a
--   status which the program has seen tells it about, and Ata/Tests has a drive that satisfies it.
--   Nothing is stated of `ata_write_sectors`, which flushes without the wait that the standard asks
--   for. The waits have 99999 rounds, as in the source.
-- Block: `ata_read_sectors` and `ata_write_sectors` (include/ata.h) as a record that the file system
--   takes as a parameter. `IsReliable` states that reads and writes below the capacity succeed and
--   do what they say. Block/Ram is a device in memory that satisfies it.
-- Fat: drivers/fat32.c. `Fs` is the static state. Fat/Mount has `fat32_init`,
--   without the 422 bytes that it stores behind `boot_sector`; Fat/Table has
--   `fat32_get_next_cluster` and `fat32_write_fat_entry`, with the view of the table as a function
--   from clusters to entries;
--   Fat/Clusters has `fat32_free_clusters` and `fat32_allocate_cluster`; Fat/Names has
--   `fat32_convert_to_fat_name`, `compare_filename`, `compare_names` and the conversions of
--   `cmd_cat`, `cmd_ed` and `cmd_exec` (kernel/shell.c); Fat/Dir has `fat32_create_file`,
--   `fat32_create_directory`, `fat32_delete_file`, `fat32_list_directory` and `fat32_find_file`;
--   Fat/Entry has the fields of a directory entry; Fat/Search has the search through the sectors of
--   the current directory that `fat32_change_directory`, `fat32_read_file` and `fat32_write_file`
--   share; Fat/Path has `fat32_change_directory` and `update_path`, and Fat/Files
--   `fat32_read_file` and `fat32_write_file`.
--   Loops along a chain of clusters take fuel, since a table may link a cycle; one round more than
--   the chain has clusters is enough, and the data loop of `fat32_write_file` needs at most one
--   more than there are bytes. Fat/Files/Layout states where the clusters of a volume lie;
--   Fat/Files/Writing has the steps of that loop, and Fat/Files/Reading those of the other one.
-- Memory: drivers/memory.c. Sizes and the position are 32-bit numbers.
-- Vga: drivers/vga.c and `println` of drivers/stdterm.c. Memory behind the 2000 cells is part of the
--   state; writes to ports are recorded.
-- Keyboard: drivers/keyboard.c on the lists of scancodes and of statuses that the controller
--   delivers.
-- Descriptors: kernel/gdt.c and kernel/idt.c.
-- Editor: `editor_handle_key` and `editor_execute_command` of kernel/editor.c, with what a command
--   calls as a value, and the size that `editor_save_file` computes.
-- Shell: kernel/shell.c. Shell has the command line and the choice of a command, Shell/Hex the
--   arguments of `writeb` and the output of `readb`, Shell/Sizes the line that `ls` prints.
-- Stdio: `print_number` and `print_hex` of include/libc/stdio.h. The overflow of `-num` is the result
--   `none`.
-- Loader: `load_program` of drivers/loader.c, which calls `fat32_read_file`.
-- FileIo: lib/fileio.c, without the messages that it prints.
-- Isr: `isr_handler` of kernel/isr.c, and `shell_init`, `print_prompt` and
--   `shell_return_from_program` of kernel/shell.c, on the screen and the file system.
-- Start: `kernel_main` of kernel/main.c, up to `shell_run`. `ata_init` is a function on the device of
--   the file system there, and what `fat32_init` stores behind `boot_sector` a function on the kernel.
-- Mkfs: tools/mkfs.c, the host program that makes the disk's image. Mkfs has the image, the boot
--   sector, the two tables and `allocate_clusters`; Mkfs/Entries `create_directory_entry`;
--   Mkfs/Tree `process_file`, `process_directory` and `create_filesystem_image` over a value that
--   stands for the host's directories, one entry and what `readdir` gives behind it. Mkfs/Frame and
--   Mkfs/Stored state what an image holds and what keeps it; Mkfs/Room, Mkfs/Accept and
--   Mkfs/Complete when there is room; Mkfs/Reading and Mkfs/Booting join the image with the driver.
--
-- Not modelled: the drawing of the editor, and what each command of the shell prints and calls;
-- include/libc/math.h, which computes with floating point; the messages, the arguments and the
-- output file of tools/mkfs.c; assembly and the loading of the descriptor tables,
-- which have no model of the processor to stand on.
pub mod Ata
pub mod Prelude
pub mod CString
pub mod Block
pub mod Fat
pub mod Memory
pub mod Vga
pub mod FileIo
pub mod Isr
pub mod Keyboard
pub mod Descriptors
pub mod Editor
pub mod Shell
pub mod Start
pub mod Stdio
pub mod Loader
pub mod Mkfs
pub mod Tests
