-- ===== src/Fat/Search.antt =====
-- The search of `fat32_change_directory`, `fat32_write_file` and `fat32_read_file` through the
-- sectors of the current directory.
pub mod Hit
use package.ring_os.Prelude.{
  ℕ, zero, suc, ◌+◌, Bool, ◌&&◌, Option, none, some, List, ltb, ◌==◌, if◌then◌else◌,
}
use package.ring_os.Block.{BlockDevice}
use package.ring_os.Fat.{Volume, Fs, fat32_eoc}
use package.ring_os.Fat.Table.{get_next_cluster}
use package.ring_os.Fat.Dir.{dir_lba}

-- What ends the loop over the sectors of a cluster.
pub data Outcome (R : Type 0) : Type 0 where
  read_error : Outcome R
  missing : Outcome R
  -- The sector, and what `pick` made of its bytes.
  hit : ℕ → R → Outcome R

module _ {R : Type 0} (pick : List ℕ → Option R) (dev : BlockDevice) where
  -- The loop over the sectors of a cluster, from sector `i` on with `left` to go.
  unfoldable pub search_sectors : Volume → ℕ → ℕ → ℕ → dev.State → dev.State × Outcome R
  search_sectors v cluster zero i d = (d, missing)
  search_sectors v cluster (suc left) i d =
      let (d', r) = dev.read_sectors d (dir_lba v cluster i) 1 in
      elim r [
        | none ↦ (d', read_error)
        | some buffer ↦ elim (pick buffer) [
          | none ↦ search_sectors v cluster left (i + 1) d'
          | some found ↦ (d', hit (dir_lba v cluster i) found)
        ]
      ]

  -- The loop over the clusters, with fuel. `until_zero` tells whether the code leaves the loop at a
  -- successor 0. The inner `none` is the result `false`.
  unfoldable pub search_clusters :
      Bool → ℕ → Fs dev.State → ℕ → Option (Fs dev.State × Option (ℕ × R))
  search_clusters until_zero zero fs cluster = none
  search_clusters until_zero (suc fuel) fs cluster =
      let (d, r) = search_sectors fs.volume cluster fs.volume.sectors_per_cluster 0 fs.disk in
      let (fs', next) = get_next_cluster dev (record fs { disk = d }) cluster in
      let rest = search_clusters until_zero fuel fs' next in
      if ltb cluster fat32_eoc
      then elim r [
        | read_error ↦ some (record fs { disk = d }, none)
        | hit lba found ↦ some (record fs { disk = d }, some (lba, found))
        | missing ↦ if until_zero && next == 0 then some (fs', none) else rest
      ]
      else some (fs, none)
