-- ===== src/Start/Boot.antt =====
-- kernel/main.c on a disk that tools/mkfs.c made.
use ring_os.Keyboard
use ring_os.Keyboard.{Keyboard}
use ring_os.Keyboard.Keys.{wait_ready_lem}
use ring_os.Prelude.{
  length, get_or, ◌/◌, ◌%◌, false, some, ℕ, zero, suc, ◌<◌, ◌≡◌, refl, ap, ◌∙◌, fun_ext, Bool, true,
  List, [], ◌∷◌, arith, Bool-cases, inl, inr,
}
use ring_os.Block.{BlockDevice, IsReliable}
use ring_os.Fat.Mount.{root_directory}
use ring_os.FileIo.{fs_init}
use ring_os.Isr.{Kernel, on_screen, shell_init}
use ring_os.Isr.Calls.{written, started}
use ring_os.Mkfs.{Image}
use ring_os.Mkfs.Alloc.{IsBuilt}
use ring_os.Mkfs.Booting.{IsHeld, image_mounts}
use ring_os.Mkfs.Reading.{image_volume}
use ring_os.Start.{
  Outcome, shell_runs, with_disk, drive, retrying, ok_text, file_system, try_drive, start_shell,
  screen_set_up, kernel_main, hardware, idt_done, idt_starting, gdt_done, gdt_starting,
}
use ring_os.Vga.{Vga, init, set_cursor_pos, outb}

module _ (dev : BlockDevice) (rel : IsReliable dev) (ata_init : dev.State → dev.State × Bool)
    (keeps : (d : dev.State) → rel.contents (ata_init d).0 ≡ rel.contents d)
    (overrun : Kernel dev.State → Kernel dev.State)
    (spares : (k : Kernel dev.State) → overrun k ≡ k) where
  open rel use {contents}

  -- The device behind a number of tries.
  abbrev pub after : ℕ → dev.State → dev.State
  after zero d = d
  after (suc n) d = after n (ata_init d).0

  -- The loop ends well when one of its tries does.
  record Found (k : Kernel dev.State) (r : Kernel dev.State × Bool) : Type 0 where
    disk : dev.State
    vga : Vga
    run : r ≡ (record (with_disk dev ata_init k disk) { vga = vga }, true)
    drawn : vga.cursor_pos < 2000
    same : contents disk ≡ contents k.io.fs.disk

  first_try-Found :
      (k : Kernel dev.State)
      → k.vga.cursor_pos < 2000
      → Found k (with_disk dev ata_init (on_screen k drive) (ata_init k.io.fs.disk).0, true)
  first_try-Found k cursor = record {
    disk = (ata_init k.io.fs.disk).0;
    vga = (on_screen k drive).vga;
    run = refl;
    drawn = (written k drive k.vga (cursor, λ p far. refl)).0;
    same = keeps k.io.fs.disk;
  }

  try_drive_lem :
      (retries n : ℕ) (k : Kernel dev.State)
      → n < retries
      → (ata_init (after n k.io.fs.disk)).1 ≡ true
      → k.vga.cursor_pos < 2000
      → Found k (try_drive dev ata_init retries k)
  unfolding try_drive
  try_drive_lem zero n k lt ready cursor = absurd (omega arith)
  try_drive_lem (suc retries) zero k lt ready cursor = rw ready (first_try-Found k cursor)
  try_drive_lem (suc retries) (suc n) k lt ready cursor =
      elim (Bool-cases (ata_init k.io.fs.disk).1) [
        | inl ok ↦ rw ok (first_try-Found k cursor)
        | inr failed ↦
            let d = (ata_init k.io.fs.disk).0 in
            let tried = with_disk dev ata_init (on_screen k drive) d in
            let c1 = written k drive k.vga (cursor, λ p far. refl) in
            let c2 = written tried retrying k.vga c1 in
            let f = try_drive_lem retries n (on_screen tried retrying) (omega arith) ready c2.0 in
            rw failed (record {
              disk = f.disk;
              vga = f.vga;
              run = f.run;
              drawn = f.drawn;
              same = f.same ∙ keeps k.io.fs.disk;
            })
      ]

  -- The kernel in the shell, on the volume of the image.
  pub record Started (k : Kernel dev.State) (r : Kernel dev.State × Outcome) : Type 0 where
    pub k' : Kernel dev.State
    pub run : r ≡ (k', shell_runs)
    pub mounted : k'.io.fs.is_initialized ≡ true
    pub volume : k'.io.fs.volume ≡ image_volume
    pub current : k'.io.fs.current ≡ root_directory 2
    pub parents : k'.io.fs.parents ≡ []
    pub path : k'.io.current_path ≡ b'/' ∷ []
    pub line : k'.cmd_index ≡ 0
    pub cursor : k'.vga.cursor_pos < 2000
    pub sectors : contents k'.io.fs.disk ≡ contents k.io.fs.disk

  start_shell_lem :
      (image : Image) (ok : IsBuilt image) (k : Kernel dev.State)
      → IsHeld dev rel k.io.fs.disk image
      → k.vga.cursor_pos < 2000
      → Started k (start_shell dev ata_init overrun (k, true))
  unfolding start_shell fs_init shell_init
  start_shell_lem image ok k h cursor =
      let b = image_mounts dev rel image ok k.io.fs h in
      let k1 = on_screen (on_screen k ok_text) file_system in
      let k2 : Kernel dev.State = record k1 {
        io = record {
          fs = record {
            disk = b.disk;
            is_initialized = true;
            volume = image_volume;
            current = root_directory 2;
            parents = [];
          };
          current_path = b'/' ∷ [];
        };
      } in
      let d1 = written k ok_text k.vga (cursor, λ p far. refl) in
      let d2 = written (on_screen k ok_text) file_system k.vga d1 in
      rw (spares k1, b.run)
        (record {
          k' = shell_init k2;
          run = refl;
          mounted = refl;
          volume = refl;
          current = refl;
          parents = refl;
          path = refl;
          line = refl;
          cursor = (started k2 k.vga d2).0;
          sectors = fun_ext b.sectors;
        })

  -- A text on the screen keeps the cursor there.
  shown :
      (k : Kernel dev.State) (text : List ℕ)
      → k.vga.cursor_pos < 2000
      → (on_screen k text).vga.cursor_pos < 2000
  shown k text h = (written k text k.vga (h, λ p far. refl)).0

  cursor_set_up : (k : Kernel dev.State) → (screen_set_up dev ata_init k).vga.cursor_pos < 2000
  unfolding init set_cursor_pos outb
  cursor_set_up k =
      let k1 = record k { vga = init k.vga } in
      let k2 = on_screen k1 gdt_starting in
      let k3 = on_screen k2 gdt_done in
      let k4 = on_screen k3 idt_starting in
      let k5 = on_screen k4 idt_done in
      let h2 = shown k1 gdt_starting (omega arith) in
      let h4 = shown k3 idt_starting (shown k2 gdt_done h2) in
      shown k5 hardware (shown k4 idt_done h4)

  -- Behind the set-up of the keyboard.
  main_lem :
      (image : Image) (ok : IsBuilt image) (k : Kernel dev.State) (n : ℕ)
      → IsHeld dev rel k.io.fs.disk image
      → n < 3
      → (ata_init (after n k.io.fs.disk)).1 ≡ true
      → Started k (
          start_shell dev ata_init overrun
            (try_drive dev ata_init 3 (screen_set_up dev ata_init k)))
  main_lem image ok k n h lt ready =
      let k1 = screen_set_up dev ata_init k in
      let f = try_drive_lem 3 n k1 lt ready (cursor_set_up k) in
      let k2 = record (with_disk dev ata_init k1 f.disk) { vga = f.vga } in
      let same : (l : ℕ) → contents f.disk l ≡ contents k.io.fs.disk l =
        λ l. ap (λ (g : ℕ → List ℕ). g l) f.same in
      let h2 : IsHeld dev rel f.disk image = record {
        held = λ l lt. same l ∙ h.held l lt;
        large = h.large;
        small = h.small;
      } in
      let s = start_shell_lem image ok k2 h2 f.drawn in
      rw f.run (record {
        k' = s.k';
        run = s.run;
        mounted = s.mounted;
        volume = s.volume;
        current = s.current;
        parents = s.parents;
        path = s.path;
        line = s.line;
        cursor = s.cursor;
        sectors = s.sectors ∙ f.same;
      })

  -- On a reliable device of 65536 to 2^32 sectors that begins with a well-formed image of
  -- tools/mkfs.c, when one of the statuses that the keyboard controller delivers shows that it is
  -- free, one of the first three calls of `ata_init` returns true and none changes a sector, and when
  -- the bytes that `fat32_init` stores behind `boot_sector` spare the variables of the kernel: the
  -- kernel gets to the shell. Shift and caps lock are off, the file system is mounted with the
  -- numbers of the image, the current directory is the root, the command line is empty, the cursor
  -- is on the screen, and no sector has changed.
  pub kernel_main_lem :
      (image : Image) (ok : IsBuilt image) (statuses : List ℕ) (keys : Keyboard)
      (k : Kernel dev.State) (i n : ℕ)
      → IsHeld dev rel k.io.fs.disk image
      → i < length statuses
      → get_or statuses i 0 / 2 % 2 ≡ 0
      → n < 3
      → (ata_init (after n k.io.fs.disk)).1 ≡ true
      → (r : Kernel dev.State × Outcome) × (kernel_main dev ata_init overrun statuses keys k
          ≡ some (record keys { shift_pressed = false; caps_lock = false }, r.0, r.1))
        × Started k r
  unfolding kernel_main Keyboard.init
  kernel_main_lem image ok statuses keys k i n h within free lt ready =
      let (more, waited) = wait_ready_lem statuses i within free in
      (
        start_shell dev ata_init overrun (try_drive dev ata_init 3 (screen_set_up dev ata_init k)),
        rw (waited, kernel_main, Keyboard.init) refl,
        main_lem image ok k n h lt ready,
      )
