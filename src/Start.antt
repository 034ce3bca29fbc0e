-- ===== src/Start.antt =====
-- kernel/main.c: the start of the kernel. The set-up of the descriptor tables leaves the state of
-- the model alone. `ata_init` is a parameter, a function on the device, and so is what the 422 bytes
-- do that `fat32_init` stores behind `boot_sector`.
pub mod Boot
mod Tests
use package.ring_os.Prelude.{
  ℕ, zero, suc, Bool, true, false, Option, none, some, List, [], ◌∷◌, if◌then◌else◌,
}
use package.ring_os.Block.{BlockDevice}
use package.ring_os.FileIo.{fs_init}
use package.ring_os.Isr.{Kernel, on_screen, shell_init}
use package.ring_os.Keyboard
use package.ring_os.Keyboard.{Keyboard}
use package.ring_os.Vga.{init}

-- Where `kernel_main` ends: in one of the two empty loops, or in `shell_run`.
pub data Outcome : Type 0 where
  no_drive : Outcome
  no_file_system : Outcome
  shell_runs : Outcome

abbrev pub gdt_starting : List ℕ
gdt_starting =
    b'G' ∷ b'D' ∷ b'T' ∷ b' ' ∷ b'i' ∷ b'n' ∷ b'i' ∷ b't' ∷ b' ' ∷ b's' ∷ b't' ∷ b'a' ∷ b'r' ∷ b't'
    ∷ b'i' ∷ b'n' ∷ b'g' ∷ b'.' ∷ b'.' ∷ b'.' ∷ 10 ∷ []

abbrev pub gdt_done : List ℕ
gdt_done =
    b'G' ∷ b'D' ∷ b'T' ∷ b' ' ∷ b'i' ∷ b'n' ∷ b'i' ∷ b't' ∷ b' ' ∷ b'd' ∷ b'o' ∷ b'n' ∷ b'e' ∷ b'.'
    ∷ 10 ∷ []

abbrev pub idt_starting : List ℕ
idt_starting =
    b'I' ∷ b'D' ∷ b'T' ∷ b' ' ∷ b'i' ∷ b'n' ∷ b'i' ∷ b't' ∷ b' ' ∷ b's' ∷ b't' ∷ b'a' ∷ b'r' ∷ b't'
    ∷ b'i' ∷ b'n' ∷ b'g' ∷ b'.' ∷ b'.' ∷ b'.' ∷ 10 ∷ []

abbrev pub idt_done : List ℕ
idt_done =
    b'I' ∷ b'D' ∷ b'T' ∷ b' ' ∷ b'i' ∷ b'n' ∷ b'i' ∷ b't' ∷ b' ' ∷ b'd' ∷ b'o' ∷ b'n' ∷ b'e' ∷ b'.'
    ∷ 10 ∷ []

abbrev pub hardware : List ℕ
hardware =
    b'I' ∷ b'n' ∷ b'i' ∷ b't' ∷ b'i' ∷ b'a' ∷ b'l' ∷ b'i' ∷ b'z' ∷ b'i' ∷ b'n' ∷ b'g' ∷ b' ' ∷ b'h'
    ∷ b'a' ∷ b'r' ∷ b'd' ∷ b'w' ∷ b'a' ∷ b'r' ∷ b'e' ∷ b'.' ∷ b'.' ∷ b'.' ∷ 10 ∷ []

abbrev pub drive : List ℕ
drive =
    b'I' ∷ b'n' ∷ b'i' ∷ b't' ∷ b'i' ∷ b'a' ∷ b'l' ∷ b'i' ∷ b'z' ∷ b'i' ∷ b'n' ∷ b'g' ∷ b' ' ∷ b'A'
    ∷ b'T' ∷ b'A' ∷ b' ' ∷ b'd' ∷ b'r' ∷ b'i' ∷ b'v' ∷ b'e' ∷ b'.' ∷ b'.' ∷ b'.' ∷ b' ' ∷ []

abbrev pub retrying : List ℕ
retrying =
    b'F' ∷ b'a' ∷ b'i' ∷ b'l' ∷ b'e' ∷ b'd' ∷ b',' ∷ b' ' ∷ b'r' ∷ b'e' ∷ b't' ∷ b'r' ∷ b'y' ∷ b'i'
    ∷ b'n' ∷ b'g' ∷ b'.' ∷ b'.' ∷ b'.' ∷ 10 ∷ []

abbrev pub fatal : List ℕ
fatal =
    10 ∷ b'F' ∷ b'A' ∷ b'T' ∷ b'A' ∷ b'L' ∷ b':' ∷ b' ' ∷ b'C' ∷ b'o' ∷ b'u' ∷ b'l' ∷ b'd' ∷ b' '
    ∷ b'n' ∷ b'o' ∷ b't' ∷ b' ' ∷ b'i' ∷ b'n' ∷ b'i' ∷ b't' ∷ b'i' ∷ b'a' ∷ b'l' ∷ b'i' ∷ b'z'
    ∷ b'e' ∷ b' ' ∷ b'A' ∷ b'T' ∷ b'A' ∷ b' ' ∷ b'd' ∷ b'r' ∷ b'i' ∷ b'v' ∷ b'e' ∷ b'!' ∷ 10 ∷ []

abbrev pub halted : List ℕ
halted =
    b'S' ∷ b'y' ∷ b's' ∷ b't' ∷ b'e' ∷ b'm' ∷ b' ' ∷ b'h' ∷ b'a' ∷ b'l' ∷ b't' ∷ b'e' ∷ b'd' ∷ b'.'
    ∷ 10 ∷ []

abbrev pub ok_text : List ℕ
ok_text = b'O' ∷ b'K' ∷ 10 ∷ []

abbrev pub file_system : List ℕ
file_system =
    b'I' ∷ b'n' ∷ b'i' ∷ b't' ∷ b'i' ∷ b'a' ∷ b'l' ∷ b'i' ∷ b'z' ∷ b'i' ∷ b'n' ∷ b'g' ∷ b' ' ∷ b'f'
    ∷ b'i' ∷ b'l' ∷ b'e' ∷ b's' ∷ b'y' ∷ b's' ∷ b't' ∷ b'e' ∷ b'm' ∷ b'.' ∷ b'.' ∷ b'.' ∷ b' ' ∷ []

abbrev pub failed_text : List ℕ
failed_text = b'F' ∷ b'a' ∷ b'i' ∷ b'l' ∷ b'e' ∷ b'd' ∷ b'.' ∷ 10 ∷ []

module _ (dev : BlockDevice) (ata_init : dev.State → dev.State × Bool) where
  abbrev pub with_disk : Kernel dev.State → dev.State → Kernel dev.State
  with_disk k d = record k { io = record k.io { fs = record k.io.fs { disk = d } } }

  -- The loop over the tries, with `retries` to go.
  unfoldable pub try_drive : ℕ → Kernel dev.State → Kernel dev.State × Bool
  try_drive zero k = (k, false)
  try_drive (suc retries) k =
      let (d, ata_ok) = ata_init k.io.fs.disk in
      let tried = with_disk (on_screen k drive) d in
      let again = try_drive retries (on_screen tried retrying) in
      if ata_ok then (tried, true) else again

  abbrev pub screen_set_up : Kernel dev.State → Kernel dev.State
  screen_set_up k =
      let k1 = on_screen (record k { vga = init k.vga }) gdt_starting in
      on_screen (on_screen (on_screen (on_screen k1 gdt_done) idt_starting) idt_done) hardware

  -- `overrun` is the change to the variables of the kernel by the read of 512 bytes into the 90 of
  -- `boot_sector`, in the call of `fs_init`. Which variables lie there is up to the linker.
  module _ (overrun : Kernel dev.State → Kernel dev.State) where
    -- Behind the loop.
    unfoldable pub start_shell : Kernel dev.State × Bool → Kernel dev.State × Outcome
    start_shell (k, false) = (on_screen (on_screen k fatal) halted, no_drive)
    start_shell (k, true) =
        let k1 = overrun (on_screen (on_screen k ok_text) file_system) in
        let (io, mounted) = fs_init dev k1.io in
        let k2 = record k1 { io = io } in
        if mounted
        then (shell_init k2, shell_runs)
        else (on_screen (on_screen k2 failed_text) halted, no_file_system)

    -- On the statuses that the keyboard controller delivers: `none` means that `keyboard_init` still
    -- waits behind them. What comes before it on the screen does not touch the keyboard.
    unfoldable pub kernel_main :
        List ℕ → Keyboard → Kernel dev.State → Option (Keyboard × Kernel dev.State × Outcome)
    kernel_main statuses keys k = elim (Keyboard.init statuses keys) [
      | none ↦ none
      | some ready ↦ let r = start_shell (try_drive 3 (screen_set_up k)) in some (ready, r.0, r.1)
    ]
