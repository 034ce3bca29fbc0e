-- ===== src/Fat/Dir.antt =====
-- Directories: `fat32_create_file`, `fat32_create_directory` and `fat32_delete_file` of
-- drivers/fat32.c.
-- A directory is a chain of clusters; a sector of it holds sixteen entries of 32 bytes.
-- The loops over a chain take fuel, and `none` means that it ran out.
pub mod Listing
pub mod Slots
pub mod Update
pub mod Create
pub mod Find
use package.ring_os.Prelude.{
  ℕ, zero, suc, ◌+◌, ◌*◌, ◌/◌, ◌%◌, ◌≡◌, u32_mod, Bool, true, false, ◌&&◌, ◌||◌, not, Option, none,
  some, List, [], ◌∷◌, ◌++◌, ltb, leb, ◌==◌, if◌then◌else◌, take, drop, replicate, get_or, set,
  is_zero,
}
use package.ring_os.CString.{memcmp, strcmp}
use package.ring_os.Block.{BlockDevice}
use package.ring_os.Fat.{Volume, Fs, fat32_eoc, cluster_to_lba}
use package.ring_os.Fat.Table.{get_next_cluster}

-- The memory from a pointer on.
abbrev pub Memory : Type 0
Memory = ℕ → ℕ

abbrev pub bytes_at : Memory → ℕ → List ℕ
bytes_at m zero = []
bytes_at m (suc n) = m 0 ∷ bytes_at (λ k. m (suc k)) n

-- A directory entry with its name and attributes, and zeros in the other fields.
unfoldable pub new_entry : Memory → ℕ → List ℕ
new_entry name attributes = bytes_at name 11 ++ attributes ∷ replicate 20 0

-- A first byte of 0 or 0xE5: the entry is not in use.
abbrev pub is_unused : List ℕ → Bool
is_unused entry = get_or entry 0 0 == 0 || get_or entry 0 0 == 0xE5

-- The loop over the entries of a sector, with `left` to go: the first free slot gets `entry`.
unfoldable pub fill_slot : List ℕ → ℕ → List ℕ → Option (List ℕ)
fill_slot entry zero buffer = none
fill_slot entry (suc left) buffer =
    if is_unused buffer
    then some (entry ++ drop 32 buffer)
    else elim (fill_slot entry left (drop 32 buffer)) [
      | none ↦ none
      | some rest ↦ some (take 32 buffer ++ rest)
    ]

-- The loop of `fat32_delete_file` over a sector: the first used entry with that name is marked.
unfoldable pub mark_slot : List ℕ → ℕ → List ℕ → Option (List ℕ)
mark_slot name zero buffer = none
mark_slot name (suc left) buffer =
    let same : Bool = elim (memcmp buffer name 11) [ none ↦ false | some z ↦ is_zero z ] in
    if not (is_unused buffer) && same
    then some (set buffer 0 0xE5)
    else elim (mark_slot name left (drop 32 buffer)) [
      | none ↦ none
      | some rest ↦ some (take 32 buffer ++ rest)
    ]

-- `current_sector + i`
abbrev pub dir_lba : Volume → ℕ → ℕ → ℕ
dir_lba v cluster i = (cluster_to_lba v cluster + i) % u32_mod

module _ (dev : BlockDevice) where
  -- The loop over the sectors of a cluster, from sector `i` on with `left` to go: the first sector
  -- that `pick` changes is written back, and the function returns; `none` goes on.
  unfoldable pub update_sectors :
      (List ℕ → Option (List ℕ)) → Volume → ℕ → ℕ → ℕ → dev.State → dev.State × Option Bool
  update_sectors pick v cluster zero i d = (d, none)
  update_sectors pick v cluster (suc left) i d =
      let (d', r) = dev.read_sectors d (dir_lba v cluster i) 1 in
      elim r [
        | none ↦ (d', some false)
        | some buffer ↦ elim (pick buffer) [
          | none ↦ update_sectors pick v cluster left (i + 1) d'
          | some buffer' ↦
              let (d'', done) = dev.write_sectors d' (dir_lba v cluster i) 1 buffer' in
              (d'', some done)
        ]
      ]

  -- The loop over the clusters.
  unfoldable pub update_clusters :
      (List ℕ → Option (List ℕ)) → ℕ → Fs dev.State → ℕ → Option (Fs dev.State × Bool)
  update_clusters pick zero fs cluster = none
  update_clusters pick (suc fuel) fs cluster =
      let (d, r) = update_sectors pick fs.volume cluster fs.volume.sectors_per_cluster 0 fs.disk in
      let (fs', next) = get_next_cluster dev (record fs { disk = d }) cluster in
      let rest = update_clusters pick fuel fs' next in
      if ltb cluster fat32_eoc
      then elim r [ none ↦ rest | some b ↦ some (record fs { disk = d }, b) ]
      else some (fs, false)

  abbrev pub update_directory :
      (List ℕ → Option (List ℕ)) → ℕ → Fs dev.State → Option (Fs dev.State × Bool)
  update_directory pick fuel fs =
      if fs.is_initialized
      then update_clusters pick fuel fs fs.current.cluster
      else some (fs, false)

  unfoldable pub create_file : ℕ → Fs dev.State → Memory → Option (Fs dev.State × Bool)
  create_file fuel fs name = update_directory (fill_slot (new_entry name 0x20) 16) fuel fs

  unfoldable pub create_directory : ℕ → Fs dev.State → Memory → Option (Fs dev.State × Bool)
  create_directory fuel fs name = update_directory (fill_slot (new_entry name 0x10) 16) fuel fs

  unfoldable pub delete_file : ℕ → Fs dev.State → Memory → Option (Fs dev.State × Bool)
  delete_file fuel fs name = update_directory (mark_slot (bytes_at name 11) 16) fuel fs
