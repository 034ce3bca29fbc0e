-- ===== src/Fat/Clusters.antt =====
-- Chains of clusters: `fat32_free_clusters` and `fat32_allocate_cluster`.
pub mod Chain
pub mod Free
pub mod Alloc
use package.ring_os.Prelude.{
  ℕ, zero, suc, ◌+◌, ◌*◌, ◌%◌, u32_mod, Bool, true, false, ◌&&◌, ◌||◌, Option, none, some, List,
  ltb, leb, ◌==◌, if◌then◌else◌,
}
use package.ring_os.Block.{BlockDevice}
use package.ring_os.Fat.{Volume, Fs, fat32_eoc, bad_cluster}
use package.ring_os.Fat.Words.{word}
use package.ring_os.Fat.Table.{get_next_cluster, write_fat_entry}

module _ (dev : BlockDevice) where
  -- The `while` loop of `fat32_free_clusters`, with fuel; `none` means that the fuel ran out.
  unfoldable pub free_loop : ℕ → Fs dev.State → ℕ → Option (Fs dev.State × Bool)
  free_loop zero fs current = none
  free_loop (suc fuel) fs current =
      let (fs1, next) = get_next_cluster dev fs current in
      let (fs2, done) = write_fat_entry dev fs1 current 0 in
      let rest = free_loop fuel fs2 next in
      if ltb current fat32_eoc
      then if next == bad_cluster
        then some (fs1, false)
        else if done
        then rest
        else some (fs2, false)
      else some (fs, true)

  unfoldable pub free_clusters : ℕ → Fs dev.State → ℕ → Option (Fs dev.State × Bool)
  free_clusters fuel fs first_cluster =
      if ltb first_cluster 2 || leb fat32_eoc first_cluster
      then some (fs, false)
      else free_loop fuel fs first_cluster

  -- The inner loop of `fat32_allocate_cluster`, at index `i` of `buffer` with `left` to go. A write
  -- that fails does not end it.
  unfoldable pub scan_entries : ℕ → List ℕ → ℕ → ℕ → Fs dev.State → Fs dev.State × Option ℕ
  scan_entries sector buffer zero i fs = (fs, none)
  scan_entries sector buffer (suc left) i fs =
      let cluster = (sector * 128 + i) % u32_mod in
      let (fs', done) = write_fat_entry dev fs cluster fat32_eoc in
      let failed = scan_entries sector buffer left (i + 1) fs' in
      let skipped = scan_entries sector buffer left (i + 1) fs in
      if word buffer i == 0 && leb 2 cluster
      then if done then (fs', some cluster) else failed
      else skipped

  -- The outer loop, at sector `sector` of the table with `left` to go. The result 0 means that
  -- there is no cluster.
  unfoldable pub scan_sectors : ℕ → ℕ → Fs dev.State → Fs dev.State × ℕ
  scan_sectors zero sector fs = (fs, 0)
  scan_sectors (suc left) sector fs =
      let (d, r) = dev.read_sectors fs.disk ((fs.volume.fat_begin_lba + sector) % u32_mod) 1 in
      elim r [
        | none ↦ (record fs { disk = d }, 0)
        | some buffer ↦
            let (fs', found) = scan_entries sector buffer 128 0 (record fs { disk = d }) in
            elim found [ some cluster ↦ (fs', cluster) | none ↦ scan_sectors left (sector + 1) fs' ]
      ]

  unfoldable pub allocate_cluster : Fs dev.State → Fs dev.State × ℕ
  allocate_cluster fs = scan_sectors fs.volume.fat_size_32 0 fs
