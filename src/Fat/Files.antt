-- ===== src/Fat/Files.antt =====
-- `fat32_write_file` and `fat32_read_file`. What they print is left out.
pub mod Bytes
pub mod Layout
pub mod Reading
pub mod Writing
pub mod Refusal
mod Tests
use package.ring_os.Prelude.{
  ℕ, zero, suc, ◌+◌, ◌-◌, ◌*◌, ◌/◌, ◌%◌, u32_mod, Bool, true, false, ◌&&◌, not, Option, none, some,
  List, [], ◌∷◌, ◌++◌, ltb, ◌==◌, if◌then◌else◌, take, drop, is_zero,
}
use package.ring_os.CString.{memcmp}
use package.ring_os.Block.{BlockDevice}
use package.ring_os.Fat.{Volume, Fs, fat32_eoc, cluster_to_lba}
use package.ring_os.Fat.Table.{get_next_cluster, write_fat_entry}
use package.ring_os.Fat.Clusters.{free_clusters, allocate_cluster}
use package.ring_os.Fat.Names.{convert_to_fat_name, compare_filename}
use package.ring_os.Fat.Dir.{Memory, bytes_at, is_unused}
use package.ring_os.Fat.Entry.{first_cluster, file_size, file_entry}
use package.ring_os.Fat.Search.{search_clusters}

-- The loop of `fat32_read_file` over the entries of a sector, with `left` to go.
unfoldable pub find_name : List ℕ → ℕ → List ℕ → Option (List ℕ)
find_name name zero buffer = none
find_name name (suc left) buffer =
    let rest = find_name name left (drop 32 buffer) in
    let same : Bool = elim (compare_filename name buffer) [ none ↦ false | some b ↦ b ] in
    if not (is_unused buffer) && same then some (take 32 buffer) else rest

-- `sectors_to_read` and `sectors_to_write`, for the bytes that are still to come.
unfoldable pub sectors_for : Volume → ℕ → ℕ
sectors_for v bytes =
    let n = (bytes + 511) % u32_mod / 512 in
    if ltb v.sectors_per_cluster n then v.sectors_per_cluster else n

-- What `fat32_read_file` returns, and what it stores: the size that the file has, or the size and
-- the bytes that were read.
pub data ReadResult : Type 0 where
  not_found : ReadResult
  too_small : ℕ → ReadResult
  failed : ReadResult
  done : ℕ → List ℕ → ReadResult

-- The bytes of the entry, at index `j` of the sector.
abbrev pub put_entry : ℕ → List ℕ → List ℕ → List ℕ
put_entry j entry buffer = take (32 * j) buffer ++ entry ++ drop (32 * j + 32) buffer

-- A place for the file: its index in the sector, and the clusters of an entry of that name.
pub record Slot : Type 0 where
  pub buffer : List ℕ
  pub index : ℕ
  pub existing : Option ℕ

-- The loop of `fat32_write_file` over the entries of a sector, at entry `j` with `left` to go.
unfoldable pub find_slot : List ℕ → List ℕ → ℕ → ℕ → List ℕ → Option Slot
find_slot fat_name buffer zero j here = none
find_slot fat_name buffer (suc left) j here =
    let rest = find_slot fat_name buffer left (j + 1) (drop 32 here) in
    let same : Bool = elim (memcmp here fat_name 11) [ none ↦ false | some z ↦ is_zero z ] in
    if same
    then some (record { buffer = buffer; index = j; existing = some (first_cluster here) })
    else if is_unused here
    then some (record { buffer = buffer; index = j; existing = none })
    else rest

abbrev pub slot_of : List ℕ → List ℕ → Option Slot
slot_of fat_name buffer = find_slot fat_name buffer 16 0 buffer

module _ (dev : BlockDevice) where
  -- The data loop of `fat32_read_file`, with fuel. `read` is `bytes_read`, and `bytes` is what the
  -- buffer holds so far; the inner `none` is a failed read.
  unfoldable pub read_loop :
      ℕ → ℕ → ℕ → ℕ → List ℕ → Fs dev.State → Option (Fs dev.State × Option (List ℕ))
  read_loop zero size read cluster bytes fs = none
  read_loop (suc fuel) size read cluster bytes fs =
      let n = sectors_for fs.volume (size - read) in
      let (d, r) = dev.read_sectors fs.disk (cluster_to_lba fs.volume cluster) n in
      if ltb read size && ltb cluster fat32_eoc
      then elim r [
        | none ↦ some (record fs { disk = d }, none)
        | some part ↦
            let (fs', next) = get_next_cluster dev (record fs { disk = d }) cluster in
            read_loop fuel size ((read + n * 512) % u32_mod) next (bytes ++ part) fs'
      ]
      else some (fs, some bytes)

  -- The part behind the search. `limit` is the size of the buffer.
  unfoldable pub read_entry : ℕ → ℕ → Fs dev.State → List ℕ → Option (Fs dev.State × ReadResult)
  read_entry fuel limit fs entry =
      let loop = read_loop fuel (file_size entry) 0 (first_cluster entry) [] fs in
      if ltb limit (file_size entry) then some (fs, too_small (file_size entry)) else elim loop [
        | none ↦ none
        | some (fs', none) ↦ some (fs', failed)
        | some (fs', some bytes) ↦ some (fs', done (file_size entry) bytes)
      ]

  -- What the function does with the result of the search.
  unfoldable pub read_found :
      ℕ → ℕ → Option (Fs dev.State × Option (ℕ × List ℕ)) → Option (Fs dev.State × ReadResult)
  read_found fuel limit none = none
  read_found fuel limit (some (fs, none)) = some (fs, not_found)
  read_found fuel limit (some (fs, some (lba, entry))) = read_entry fuel limit fs entry

  -- The pointers are not null.
  unfoldable pub read_file : ℕ → ℕ → Fs dev.State → List ℕ → Option (Fs dev.State × ReadResult)
  read_file fuel limit fs name =
      if fs.is_initialized
      then read_found fuel limit
          (search_clusters (find_name name 16) dev false fuel fs fs.current.cluster)
      else some (fs, not_found)

  -- The data loop of `fat32_write_file`, with fuel, and the mark behind it. `memory` is the memory
  -- from `data` on: whole sectors are written, also behind the data.
  unfoldable pub write_loop : ℕ → Memory → ℕ → ℕ → ℕ → Fs dev.State → Option (Fs dev.State × Bool)
  write_loop zero memory size written cluster fs = none
  write_loop (suc fuel) memory size written cluster fs =
      let n = sectors_for fs.volume (size - written) in
      let (d, stored) =
        dev.write_sectors fs.disk (cluster_to_lba fs.volume cluster) n
          (bytes_at (λ k. memory (written + k)) (512 * n)) in
      let fs1 = record fs { disk = d } in
      let (fs2, next) = allocate_cluster dev fs1 in
      let (fs3, linked) = write_fat_entry dev fs2 cluster next in
      let written' = (written + n * 512) % u32_mod in
      let more = write_loop fuel memory size written' next fs3 in
      let last = write_loop fuel memory size written' cluster fs1 in
      if ltb written size
      then if not stored
        then some (fs1, false)
        else if ltb written' size
        then if next == 0 then some (fs2, false) else if linked then more else some (fs3, false)
        else last
      else some (write_fat_entry dev fs cluster 0x0FFFFFFF)

  -- The part behind the search and the release of the old clusters.
  unfoldable pub store_file :
      ℕ → Memory → ℕ → List ℕ → ℕ → Slot → Fs dev.State → Option (Fs dev.State × Bool)
  store_file fuel memory size fat_name lba slot fs =
      let (fs1, first) = allocate_cluster dev fs in
      let (d, stored) =
        dev.write_sectors fs1.disk lba 1
          (put_entry slot.index (file_entry fat_name first size) slot.buffer) in
      let fs2 = record fs1 { disk = d } in
      let loop = write_loop fuel memory size 0 first fs2 in
      if first == 0 then some (fs1, false) else if stored then loop else some (fs2, false)

  unfoldable pub replace_file :
      ℕ → Memory → ℕ → List ℕ → ℕ → Slot → Fs dev.State → Option (Fs dev.State × Bool)
  replace_file fuel memory size fat_name lba slot fs = elim slot.existing [
    | none ↦ store_file fuel memory size fat_name lba slot fs
    | some cluster ↦ elim (free_clusters dev fuel fs cluster) [
      | none ↦ none
      | some (fs', freed) ↦
          let store = store_file fuel memory size fat_name lba slot fs' in
          if freed then store else some (fs', false)
    ]
  ]

  unfoldable pub write_found :
      ℕ
      → Memory
      → ℕ
      → List ℕ
      → Option (Fs dev.State × Option (ℕ × Slot))
      → Option (Fs dev.State × Bool)
  write_found fuel memory size fat_name none = none
  write_found fuel memory size fat_name (some (fs, none)) = some (fs, false)
  write_found fuel memory size fat_name (some (fs, some (lba, slot))) =
      replace_file fuel memory size fat_name lba slot fs

  unfoldable pub locate_and_write :
      ℕ → Fs dev.State → List ℕ → Memory → ℕ → Option (Fs dev.State × Bool)
  locate_and_write fuel fs fat_name memory size =
      write_found fuel memory size fat_name
        (search_clusters (slot_of fat_name) dev false fuel fs fs.current.cluster)

  -- `name` has a terminator.
  unfoldable pub write_file : ℕ → Fs dev.State → List ℕ → Memory → ℕ → Option (Fs dev.State × Bool)
  write_file fuel fs name memory size =
      if fs.is_initialized
      then elim (convert_to_fat_name name) [
        | none ↦ none
        | some fat_name ↦ locate_and_write fuel fs fat_name memory size
      ]
      else some (fs, false)
