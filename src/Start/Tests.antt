-- ===== src/Start/Tests.antt =====
-- The kernel on the disk that tools/mkfs.c makes of a directory, with a drive that answers at once.
use ring_os.Prelude.{ℕ, ◌≡◌, refl, true, false, some, List, [], ◌∷◌, arith}
use ring_os.Block.Ram.{ram, ram_reliable}
use ring_os.Isr.{Kernel}
use ring_os.Mkfs.Tests.{drive_of, drive_of-IsHeld, host_image}
use ring_os.Keyboard.{Keyboard}
use ring_os.Start.{Outcome, kernel_main}
use ring_os.Start.Boot.{Started, kernel_main_lem}

abbrev off : Kernel (ℕ → List ℕ)
off = record {
  io = record { fs = drive_of host_image.0; current_path = [] };
  vga = record { buffer = λ p. 0; color = 0; cursor_pos = 0; ports = [] };
  cmd_index = 0;
}

-- The controller is busy when its status is read for the first time.
abbrev keys : Keyboard
keys = record { shift_pressed = true; caps_lock = false; extended_code = false }

kernel_main_lem_example :
    (r : Kernel (ℕ → List ℕ) × Outcome) × (kernel_main ram
        (λ d. (d, true))
        (λ k. k)
        (2 ∷ 0 ∷ [])
        keys
        off
      ≡ some (record keys { shift_pressed = false; caps_lock = false }, r.0, r.1))
    × Started ram ram_reliable (λ d. (d, true)) (λ d. refl) (λ k. k) (λ k. refl) off r
kernel_main_lem_example =
    kernel_main_lem ram ram_reliable (λ d. (d, true)) (λ d. refl) (λ k. k) (λ k. refl) host_image.0
      host_image.3 (2 ∷ 0 ∷ []) keys off 1 0 (drive_of-IsHeld host_image.0) (omega arith) refl
      (omega arith) refl
