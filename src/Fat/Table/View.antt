-- ===== src/Fat/Table/View.antt =====
-- The table on the disk as a function from clusters to entries, and the lookup of a successor.
use ring_os.Prelude.{ℕ, ◌+◌, ◌*◌, ◌/◌, ◌%◌, ◌^◌, ◌≤◌, ◌<◌, ◌≡◌, arith, u32_mod}
use ring_os.Block.{BlockDevice, IsReliable}
use ring_os.Fat.{Volume, Fs, fat_sector, fat_index}
use ring_os.Fat.Words.{word}
use ring_os.Fat.Table.{get_next_cluster}

-- The copies of the table lie on the device, there is at least one, and no number of a cluster
-- that it has an entry for wraps when the driver computes with it.
pub record IsSound (v : Volume) (capacity : ℕ) : Type 0 where
  pub one_copy : 1 ≤ v.num_fats
  pub fits : v.fat_begin_lba + v.num_fats * v.fat_size_32 ≤ capacity
  pub small : capacity ≤ u32_mod
  pub clusters : 128 * v.fat_size_32 ≤ 2 ^ 28

-- The number of entries of a copy of the table.
abbrev pub entries : Volume → ℕ
entries v = 128 * v.fat_size_32

-- Where a cluster's entry stands.
module _ (v : Volume) (capacity c : ℕ) (ok : IsSound v capacity) (h : c < entries v) where
  pub copy_fits :
      (k : ℕ) → k < v.num_fats → k * v.fat_size_32 + v.fat_size_32 ≤ v.num_fats * v.fat_size_32
  copy_fits k hk = grind arith

  pub fat_sector_lem : fat_sector v c ≡ v.fat_begin_lba + c / 128
  fat_sector_lem = omega (arith, copy_fits 0 (omega arith), ok.fits, ok.small, ok.clusters)

  pub fat_index_lem : fat_index c ≡ c % 128
  fat_index_lem = omega (arith, ok.clusters)

  pub copy_sector :
      (k : ℕ)
      → k < v.num_fats
      → (fat_sector v c + k * v.fat_size_32 % u32_mod) % u32_mod
        ≡ v.fat_begin_lba + c / 128 + k * v.fat_size_32
  copy_sector k hk = omega (arith, fat_sector_lem, copy_fits k hk, ok.fits, ok.small)

  pub copy_sector-lt :
      (k : ℕ) → k < v.num_fats → v.fat_begin_lba + c / 128 + k * v.fat_size_32 < capacity
  copy_sector-lt k hk = omega (arith, copy_fits k hk, ok.fits)

module _ (dev : BlockDevice) (rel : IsReliable dev) where
  open rel use {capacity, contents, read_value, read_keeps}

  -- The entry of a cluster in the first copy of the table.
  abbrev pub table : Volume → dev.State → ℕ → ℕ
  table v d c = word (contents d (v.fat_begin_lba + c / 128)) (c % 128)

  -- What `fat32_get_next_cluster` returns, and the device behind it.
  pub record Next (fs : Fs dev.State) (c : ℕ) : Type 0 where
    pub disk : dev.State
    pub run :
        get_next_cluster dev fs c ≡ (record fs { disk = disk }, table fs.volume fs.disk c % 2 ^ 28)
    pub sectors : (l : ℕ) → contents disk l ≡ contents fs.disk l

  -- On a sound volume over a reliable device, for a cluster that has an entry,
  -- `fat32_get_next_cluster` returns the low 28 bits of the cluster's entry, and changes no sector.
  pub get_next_cluster_lem :
      (fs : Fs dev.State) (c : ℕ) → IsSound fs.volume capacity → c < entries fs.volume → Next fs c
  unfolding get_next_cluster
  get_next_cluster_lem fs c ok h =
      let at = fat_sector_lem fs.volume capacity c ok h in
      let lt : fs.volume.fat_begin_lba + c / 128 < capacity =
        omega (arith, copy_sector-lt fs.volume capacity c ok h 0 ok.one_copy) in
      record {
        disk = (dev.read_sectors fs.disk (fs.volume.fat_begin_lba + c / 128) 1).0;
        run = rw (
          get_next_cluster,
          at,
          read_value fs.disk _ lt,
          fat_index_lem fs.volume capacity c ok h,
        );
        sectors = λ l. read_keeps fs.disk _ l lt;
      }
