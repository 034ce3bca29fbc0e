-- ===== src/Isr.antt =====
-- kernel/isr.c: the handler of interrupts, with the calls of programs, and the start of the shell
-- (kernel/shell.c), to which a program returns. What the file system and lib/fileio.c print on the
-- way is not on the screen of the model.
pub mod Calls
mod Tests
use package.ring_os.Prelude.{
  ℕ, ◌+◌, ◌%◌, Option, none, some, List, [], ◌∷◌, ◌++◌, u32_mod, ◌==◌, if◌then◌else◌,
}
use package.ring_os.Block.{BlockDevice}
use package.ring_os.Fat.Dir.{Memory}
use package.ring_os.FileIo.{FileIo, fs_open, fs_read, fs_write, fs_close}
use package.ring_os.Vga.{Vga, putchar, writestr, clear, set_color}

-- The fields of `struct registers_t` that the handler looks at.
pub record Registers : Type 0 where
  pub int_no : ℕ
  pub eax : ℕ
  pub ebx : ℕ
  pub ecx : ℕ
  pub edx : ℕ

pub record Kernel (S : Type 0) : Type 0 where
  pub io : FileIo S
  pub vga : Vga
  pub cmd_index : ℕ

-- The C string at an address, without its terminator, the bytes from an address on, the address
-- of the empty string literal, and what stands behind the current path in its array.
pub record Space : Type 0 where
  pub text_at : ℕ → List ℕ
  pub bytes_from : ℕ → Memory
  pub empty_literal : ℕ
  pub tail : List ℕ

-- `print_prompt`
unfoldable pub print_prompt : List ℕ → Vga → Vga
print_prompt path s =
    let s1 = writestr (b'u' ∷ b's' ∷ b'e' ∷ b'r' ∷ []) (set_color 3 0 s) in
    let s2 = writestr (b'@' ∷ []) (set_color 5 0 s1) in
    let s3 = writestr path (set_color 3 0 s2) in writestr (b'>' ∷ b' ' ∷ []) (set_color 15 0 s3)

abbrev pub welcome : List ℕ
welcome =
    b'W' ∷ b'e' ∷ b'l' ∷ b'c' ∷ b'o' ∷ b'm' ∷ b'e' ∷ b' ' ∷ b't' ∷ b'o' ∷ b' ' ∷ b'R' ∷ b'i' ∷ b'n'
    ∷ b'g' ∷ b'O' ∷ b'S' ∷ b'!' ∷ 10 ∷ []

abbrev pub hint : List ℕ
hint =
    b'T' ∷ b'y' ∷ b'p' ∷ b'e' ∷ b' ' ∷ 39 ∷ b'h' ∷ b'e' ∷ b'l' ∷ b'p' ∷ 39 ∷ b' ' ∷ b'f' ∷ b'o'
    ∷ b'r' ∷ b' ' ∷ b'a' ∷ b'v' ∷ b'a' ∷ b'i' ∷ b'l' ∷ b'a' ∷ b'b' ∷ b'l' ∷ b'e' ∷ b' ' ∷ b'c'
    ∷ b'o' ∷ b'm' ∷ b'm' ∷ b'a' ∷ b'n' ∷ b'd' ∷ b's' ∷ b'.' ∷ 10 ∷ []

unfoldable pub shell_init : {S : Type 0} → Kernel S → Kernel S
shell_init k =
    let s1 = writestr welcome (set_color 1 15 (clear k.vga)) in
    let s2 = writestr hint (set_color 15 0 s1) in
    record k { vga = print_prompt k.io.fs.current.path s2; cmd_index = 0 }

abbrev pub program_exited : List ℕ
program_exited =
    b'P' ∷ b'r' ∷ b'o' ∷ b'g' ∷ b'r' ∷ b'a' ∷ b'm' ∷ b' ' ∷ b'e' ∷ b'x' ∷ b'i' ∷ b't' ∷ b'e' ∷ b'd'
    ∷ 10 ∷ []

abbrev pub on_screen : {S : Type 0} → Kernel S → List ℕ → Kernel S
on_screen k text = record k { vga = writestr text k.vga }

unfoldable pub shell_return_from_program : {S : Type 0} → Kernel S → Kernel S
shell_return_from_program k =
    on_screen (shell_init (record k { vga = clear k.vga })) (10 ∷ program_exited)

-- `printChar((char) arg1)`
abbrev pub print_char : {S : Type 0} → Kernel S → ℕ → Kernel S
print_char k arg = record k { vga = putchar (arg % 256) k.vga }

abbrev pub unhandled_syscall : List ℕ
unhandled_syscall =
    b'U' ∷ b'n' ∷ b'h' ∷ b'a' ∷ b'n' ∷ b'd' ∷ b'l' ∷ b'e' ∷ b'd' ∷ b' ' ∷ b's' ∷ b'y' ∷ b's' ∷ b'c'
    ∷ b'a' ∷ b'l' ∷ b'l' ∷ b':' ∷ b' ' ∷ []

abbrev pub unhandled_interrupt : List ℕ
unhandled_interrupt =
    b'U' ∷ b'n' ∷ b'h' ∷ b'a' ∷ b'n' ∷ b'd' ∷ b'l' ∷ b'e' ∷ b'd' ∷ b' ' ∷ b'i' ∷ b'n' ∷ b't' ∷ b'e'
    ∷ b'r' ∷ b'r' ∷ b'u' ∷ b'p' ∷ b't' ∷ b':' ∷ b' ' ∷ []

module _ (dev : BlockDevice) (space : Space) where
  -- `number + ""` is the address `number` bytes behind the literal.
  unfoldable pub report : Kernel dev.State → List ℕ → ℕ → Kernel dev.State
  report k message number =
      on_screen
        (on_screen (on_screen k message) (space.text_at ((space.empty_literal + number) % u32_mod)))
        (10 ∷ [])

  -- Cases 3 to 6: the result of the call is stored in `eax`.
  abbrev pub with_result :
      Registers
      → Kernel dev.State
      → Option (FileIo dev.State × ℕ)
      → Option (Registers × Kernel dev.State)
  with_result regs k none = none
  with_result regs k (some (io, n)) = some (record regs { eax = n }, record k { io = io })

  -- What `fs_read` stores at the buffer is left out of the state.
  abbrev pub read_result : Option (FileIo dev.State × ℕ × List ℕ) → Option (FileIo dev.State × ℕ)
  read_result none = none
  read_result (some (io, n, bytes)) = some (io, n)

  -- `isr_handler`. There is no `break` behind case 0.
  unfoldable pub isr_handler :
      ℕ → Registers → Kernel dev.State → Option (Registers × Kernel dev.State)
  isr_handler fuel regs k =
      let n = regs.eax in
      if regs.int_no == 0x80
      then (if n == 0
          then some
              (regs, print_char (shell_return_from_program (on_screen k program_exited)) regs.ebx)
          else if n == 1
          then some (regs, print_char k regs.ebx)
          else if n == 2
          then some (regs, on_screen k (space.text_at regs.ebx))
          else if n == 3
          then with_result regs k (fs_open dev fuel k.io (space.bytes_from regs.ebx) regs.ecx)
          else if n == 4
          then with_result regs k (read_result (fs_read dev fuel k.io space.tail regs.ebx regs.edx))
          else if n == 5
          then with_result regs k
              (fs_write dev fuel k.io space.tail regs.ebx (space.bytes_from regs.ecx) regs.edx)
          else if n == 6
          then with_result regs k (some (fs_close dev k.io regs.ebx))
          else some (regs, report k unhandled_syscall n))
      else some (regs, report k unhandled_interrupt regs.int_no)
