-- ===== src/Mkfs/Booting.antt =====
-- tools/mkfs.c and drivers/fat32.c together: the driver mounts the image and reads its files.
use ring_os.Prelude.{
  ℕ, suc, ◌+◌, ◌-◌, ◌*◌, ◌/◌, ◌%◌, ◌≤◌, ◌<◌, ◌≡◌, refl, ap, ◌∙◌, List, [], ◌∷◌, ◌++◌, arith, inl,
  inr, Bool-cases, ◌==◌, length, get_or, take, length-take, u32_mod, true, some,
}
use ring_os.Block.{BlockDevice, IsReliable}
use ring_os.Fat.{Fs}
use ring_os.Fat.Entry.{u16, first_cluster, file_size, file_entry}
use ring_os.Fat.Words.{word}
use ring_os.Fat.Table.View.{IsSound, table}
use ring_os.Fat.Mount.{boot_volume, root_directory, mount, mount_run}
use ring_os.Fat.Clusters.Chain.{IsChain}
use ring_os.Fat.Files.{done, read_entry}
use ring_os.Fat.Files.Reading.{IsByteSized, file_bytes, read_entry_lem}
use ring_os.Mkfs.{Image, load32, boot_sector}
use ring_os.Mkfs.Alloc.{IsBuilt, link}
use ring_os.Mkfs.Frame.{place, entry}
use ring_os.Mkfs.Tree.{HostFile, clusters_needed}
use ring_os.Mkfs.Stored.{file_length, HoldsFile}
use ring_os.Mkfs.Reading.{
  sector, get_or-sector, word-sector, range, length-range, range-IsChain, range-AllFit,
  image_volume, file_bytes-held, slice-stored,
}

get_or-append_right : (xs ys : List ℕ) (i : ℕ) → get_or (xs ++ ys) (length xs + i) 0 ≡ get_or ys i 0
get_or-append_right [] ys i = let z : 0 + i ≡ i = omega arith in rw z refl
get_or-append_right (x ∷ xs) ys i =
    let z : suc (length xs) + i ≡ suc (length xs + i) = omega arith in
    rw z (get_or-append_right xs ys i)

-- A field behind the name of an entry.
behind_name :
    (name rest : List ℕ) (i : ℕ)
    → length name ≡ 11
    → get_or (name ++ rest) (11 + i) 0 ≡ get_or rest i 0
behind_name name rest i e = rw e at (get_or-append_right name rest i)

file_entry-fields :
    (name : List ℕ) (c size : ℕ)
    → length name ≡ 11
    → c < u32_mod
    → size < u32_mod
    → (first_cluster (file_entry name c size) ≡ c) × (file_size (file_entry name c size) ≡ size)
unfolding file_entry first_cluster file_size u16 word
file_entry-fields name c size e small_c small_size = (
  omega (
    arith,
    behind_name name _ 9 e,
    behind_name name _ 10 e,
    behind_name name _ 15 e,
    behind_name name _ 16 e,
  ),
  omega (
    arith,
    behind_name name _ 17 e,
    behind_name name _ 18 e,
    behind_name name _ 19 e,
    behind_name name _ 20 e,
  ),
)

clusters_needed_some : (size : ℕ) → 1 ≤ clusters_needed size
clusters_needed_some size = elim (Bool-cases ((size + 4096 - 1) % u32_mod / 4096 == 0)) [
  | inl e ↦ rw e (omega arith)
  | inr e ↦ rw e (ground arith)
]

module _ (dev : BlockDevice) (rel : IsReliable dev) where
  open rel use {capacity, contents}

  -- The first 32 MB of the disk are the image; the disk has at most 2^32 sectors.
  pub record IsHeld (disk : dev.State) (image : Image) : Type 0 where
    pub held : (l : ℕ) → l < 65536 → contents disk l ≡ sector image.buffer l
    pub large : 65536 ≤ capacity
    pub small : capacity ≤ u32_mod

  module _ (image : Image) (ok : IsBuilt image) (fs : Fs dev.State) (h : IsHeld fs.disk image) where
    -- A byte of the boot sector.
    boot_byte : (i : ℕ) → i < 512 → get_or (contents fs.disk 0) i 0 ≡ get_or boot_sector i 0
    boot_byte i lt =
        ap (λ (l : List ℕ). get_or l i 0) (h.held 0 (omega arith))
        ∙ get_or-sector image.buffer 0 i lt
        ∙ ap image.buffer (omega arith)
        ∙ ok.boot i (omega (arith, lt))

    at_word : (i : ℕ) → i < 128 → word (contents fs.disk 0) i ≡ word boot_sector i
    unfolding word
    at_word i lt = omega (
      arith,
      boot_byte (4 * i) (omega arith),
      boot_byte (4 * i + 1) (omega arith),
      boot_byte (4 * i + 2) (omega arith),
      boot_byte (4 * i + 3) (omega arith),
    )

    word9 : word (contents fs.disk 0) 9 ≡ 64
    unfolding word
    word9 = at_word 9 (omega arith) ∙ refl

    word11 : word (contents fs.disk 0) 11 ≡ 2
    unfolding word
    word11 = at_word 11 (omega arith) ∙ refl

    boot_volume-image : boot_volume (contents fs.disk 0) ≡ image_volume
    boot_volume-image =
        rw
          (
            boot_byte 13 (omega arith),
            boot_byte 14 (omega arith),
            boot_byte 15 (omega arith),
            boot_byte 16 (omega arith),
            word9,
            word11,
          )
          refl

    image-IsSound : IsSound image_volume capacity
    image-IsSound = record {
      one_copy = omega arith;
      fits = omega (arith, h.large);
      small = h.small;
      clusters = omega arith;
    }

    -- The disk as the driver sees it behind `fat32_init`.
    pub record Booted : Type 0 where
      pub disk : dev.State
      pub run : mount dev fs ≡ (
        record {
          disk = disk;
          is_initialized = true;
          volume = image_volume;
          current = root_directory 2;
          parents = [];
        },
        true,
      )
      pub sectors : (l : ℕ) → contents disk l ≡ contents fs.disk l
      pub sound : IsSound image_volume capacity
      pub entries : (c : ℕ) → c < 8192 → table dev rel image_volume disk c ≡ entry image c

    -- A disk of 65536 to 2^32 sectors that begins with a well-formed image, on a reliable device:
    -- `fat32_init` returns true, the volume has the numbers that tools/mkfs.c laid it out by, it is
    -- sound, the current directory is the root in cluster 2, and the driver's table is the image's.
    pub image_mounts : Booted
    image_mounts =
        let d = (dev.read_sectors fs.disk 0 1).0 in
        let same : (l : ℕ) → contents d l ≡ contents fs.disk l =
          λ l. rel.read_keeps fs.disk 0 l (omega (arith, h.large)) in
        record {
          disk = d;
          run =
              mount_run dev rel fs (omega (arith, h.large))
                (omega (arith, boot_byte 11 (omega arith), boot_byte 12 (omega arith)))
              ∙ rw (boot_volume-image, word11) refl;
          sectors = same;
          sound = image-IsSound;
          entries = λ c lt.
              ap (λ (s : List ℕ). word s (c % 128))
                (same (32 + c / 128) ∙ h.held (32 + c / 128) (omega arith))
              ∙ word-sector image.buffer (32 + c / 128) (c % 128) (omega arith)
              ∙ ap (load32 image.buffer) (omega arith);
        }

    -- The driver behind `fat32_init`.
    abbrev ready : dev.State → Fs dev.State
    ready d = record {
      disk = d;
      is_initialized = true;
      volume = image_volume;
      current = root_directory 2;
      parents = [];
    }

    byte_sized : IsByteSized image_volume
    byte_sized = record { some_sector = omega arith; byte = omega arith }

    -- An entry for `count` clusters from `c` on, which the table links.
    entry_reads :
        (b : Booted) (fuel limit c count size : ℕ) (stored : List ℕ)
        → (first_cluster stored ≡ c) × (file_size stored ≡ size)
        → 2 ≤ c
        → 1 ≤ count
        → c + count ≤ 8172
        → size + 511 < u32_mod
        → size ≤ limit
        → count < fuel
        → ((k : ℕ) → k < count → entry image (c + k) ≡ link c count k)
        → (d : dev.State) × (read_entry dev fuel limit (ready b.disk) stored
            ≡ some (
              ready d,
              done size (file_bytes (contents b.disk) image_volume size (range c count)),
            ))
    entry_reads b fuel limit c count size stored (e1, e2) two some_cluster room small fits enough
          linked =
        let t = table dev rel image_volume b.disk in
        let z : c + 0 ≡ c = omega arith in
        let chain : IsChain t 8192 c (range c count) = rw z at (
          range-IsChain t c count 0 count (omega arith) some_cluster two room
            (λ k lt. b.entries (c + k) (omega (arith, lt)) ∙ linked k lt)) in
        let (d, run, same) =
          read_entry_lem dev rel fuel limit (ready b.disk) stored (range c count)
            (omega (arith, length-range c count)) b.sound byte_sized (rw e2 fits) (rw e2 small)
            (rw e1 chain) (range-AllFit capacity c count h.large two room) in
        (d, rw e2 at run)

    -- On a reliable device of 65536 to 2^32 sectors that begins with a well-formed image, behind
    -- `fat32_init`: for a file that the image holds, of at most `limit` bytes and less than
    -- 2^32 - 511, in less clusters than the fuel, the part of `fat32_read_file` behind the search,
    -- with the entry that tools/mkfs.c stored for the file, returns the file's size and bytes that
    -- begin with those of the host's file.
    pub image_reads :
        (fuel limit lo dir : ℕ) (name : List ℕ) (f : HostFile)
        → (file : HoldsFile image lo dir name f) → 2 ≤ lo
        → 11 ≤ length name
        → file_length f + 511 < u32_mod
        → file_length f ≤ limit
        → clusters_needed (file_length f) < fuel
        → let size = file_length f in
          let file_bytes_of = file_entry (take 11 name) file.first size in
          (d : dev.State) × (bytes : List ℕ) × (read_entry dev fuel limit
              (mount dev fs).0
              file_bytes_of
            ≡ some (record (mount dev fs).0 { disk = d }, done size bytes))
          × (take size bytes ≡ take size f.content)
    image_reads fuel limit lo dir name f file two long small fits enough =
        let b = image_mounts in
        let size = file_length f in
        let count = clusters_needed size in
        let stored = file_entry (take 11 name) file.first size in
        let first_two : 2 ≤ file.first = omega (arith, file.above) in
        let room : file.first + count ≤ 8172 = omega (arith, file.below, ok.high) in
        let fields =
          file_entry-fields (take 11 name) file.first size (omega (arith, length-take 11 name))
            (omega arith) (omega arith) in
        let (d, run) =
          entry_reads b fuel limit file.first count size stored fields first_two
            (clusters_needed_some size) room small fits enough file.linked in
        let held : (l : ℕ) → l < 65536 → contents b.disk l ≡ sector image.buffer l =
          λ l lt. b.sectors l ∙ h.held l lt in
        (
          d,
          file_bytes (contents b.disk) image_volume size (range file.first count),
          rw b.run run,
          file_bytes-held image.buffer (contents b.disk) held file.first count size first_two room
                file.large small
              ∙ slice-stored (λ k. image.buffer (place file.first + k)) size f.content file.complete
                  file.stored,
        )
