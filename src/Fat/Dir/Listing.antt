-- ===== src/Fat/Dir/Listing.antt =====
-- `fat32_list_directory`, and `fat32_find_file` with its callback.
use ring_os.Prelude.{
  ℕ, zero, suc, ◌+◌, Bool, true, false, ◌||◌, Option, none, some, List, [], ◌∷◌, ◌++◌, ltb, ◌==◌,
  if◌then◌else◌, drop, get_or, is_zero,
}
use ring_os.CString.{strcmp}
use ring_os.Block.{BlockDevice}
use ring_os.Fat.{Volume, Fs, fat32_eoc}
use ring_os.Fat.Words.{word}
use ring_os.Fat.Table.{get_next_cluster}
use ring_os.Fat.Dir.{Memory, bytes_at, dir_lba}

-- Deleted entries, volume labels and names that begin with a dot are not reported.
abbrev pub is_skipped : List ℕ → Bool
is_skipped entry = get_or entry 0 0 == 0xE5 || get_or entry 11 0 == 0x08 || get_or entry 0 0 == b'.'

module _ {A : Type 0} (callback : List ℕ → ℕ → ℕ → A → A) where
  -- The loop over a sector, with `left` entries to go. The callback has the memory from the name
  -- on, the size and the attributes, and changes `a`. The flag tells that the end mark was met.
  unfoldable pub list_entries : ℕ → List ℕ → A → A × Bool
  list_entries zero buffer a = (a, false)
  list_entries (suc left) buffer a =
      let a' = callback buffer (word buffer 7) (get_or buffer 11 0) a in
      let rest = list_entries left (drop 32 buffer) (if is_skipped buffer then a else a') in
      if get_or buffer 0 0 == 0 then (a, true) else rest

  module _ (dev : BlockDevice) where
    unfoldable pub list_sectors : Volume → ℕ → ℕ → ℕ → dev.State → A → dev.State × A × Option Bool
    list_sectors v cluster zero i d a = (d, a, none)
    list_sectors v cluster (suc left) i d a =
        let (d', r) = dev.read_sectors d (dir_lba v cluster i) 1 in
        elim r [
          | none ↦ (d', a, some false)
          | some buffer ↦
              let (a', at_end) = list_entries 16 buffer a in
              let rest = list_sectors v cluster left (i + 1) d' a' in
              if at_end then (d', a', some true) else rest
        ]

    unfoldable pub list_clusters : ℕ → Fs dev.State → ℕ → A → Option (Fs dev.State × A × Bool)
    list_clusters zero fs cluster a = none
    list_clusters (suc fuel) fs cluster a =
        let (d, a', r) = list_sectors fs.volume cluster fs.volume.sectors_per_cluster 0 fs.disk a in
        let (fs', next) = get_next_cluster dev (record fs { disk = d }) cluster in
        let rest = list_clusters fuel fs' next a' in
        if ltb cluster fat32_eoc
        then elim r [
          | some b ↦ some (record fs { disk = d }, a', b)
          | none ↦ if next == 0 then some (fs', a', false) else rest
        ]
        else some (fs, a, true)

    unfoldable pub list_directory : ℕ → Fs dev.State → A → Option (Fs dev.State × A × Bool)
    list_directory fuel fs a =
        if fs.is_initialized
        then list_clusters fuel fs fs.current.cluster a
        else some (fs, a, false)

-- The static variables `found_entry`, of which the code uses these fields, and `file_found`.
pub record Found : Type 0 where
  pub name : List ℕ
  pub attributes : ℕ
  pub file_size : ℕ
  pub file_found : Bool

-- The memory from `found_entry.name` on: the name has no terminator, and the attributes follow.
-- The byte behind them, `nt_reserved`, stays 0, so that a string ends there.
abbrev pub found_memory : Found → List ℕ
found_memory f = f.name ++ f.attributes ∷ 0 ∷ []

-- `file_name` points into the sector, at the name of an entry.
unfoldable pub search_callback : List ℕ → ℕ → ℕ → Found → Found
search_callback file_name size attr f =
    let same : Bool = elim (strcmp file_name (found_memory f)) [
      | none ↦ false
      | some z ↦ is_zero z
    ] in
    if same then record f { file_found = true; file_size = size; attributes = attr } else f

module _ (dev : BlockDevice) where
  -- The result is the entry that is copied to the caller, or `none` for `false`.
  unfoldable pub find_file : ℕ → Fs dev.State → Memory → Option (Fs dev.State × Option Found)
  find_file fuel fs name =
      let start : Found = record {
        name = bytes_at name 11;
        attributes = 0;
        file_size = 0;
        file_found = false;
      } in
      elim (list_directory search_callback dev fuel fs start) [
        | none ↦ none
        | some (fs', f, b) ↦ some (fs', if f.file_found then some f else none)
      ]
