-- ===== src/Fat.antt =====
-- drivers/fat32.c and include/fat32.h: the state of the file system driver.
-- The modules below model its operations over a block device, and prove what they do.
pub mod Words
pub mod Table
pub mod Clusters
pub mod Names
pub mod Dir
pub mod Mount
pub mod Entry
pub mod Path
pub mod Files
pub mod Search
pub mod Tests
use package.ring_os.Prelude.{ℕ, ◌+◌, ◌-◌, ◌*◌, ◌/◌, ◌%◌, u32_mod, Bool, List}

-- The fields of `fat32_boot_sector_t` that the driver reads after mounting, and the three numbers
-- that `fat32_init` computes from it.
pub record Volume : Type 0 where
  pub fat_begin_lba : ℕ
  pub cluster_begin_lba : ℕ
  pub sectors_per_cluster : ℕ
  pub num_fats : ℕ
  pub fat_size_32 : ℕ
  pub root_cluster : ℕ

-- `directory_entry_t`: `name` is the C string without its terminator, and so is `path`.
pub record Directory : Type 0 where
  pub cluster : ℕ
  pub name : List ℕ
  pub path : List ℕ

-- The static variables of the driver, with the device below it. `parents` is the used part of
-- `parent_directories`, the deepest first; its length is `directory_depth`.
pub record Fs (S : Type 0) : Type 0 where
  pub disk : S
  pub is_initialized : Bool
  pub volume : Volume
  pub current : Directory
  pub parents : List Directory

-- `FAT32_EOC`, and what `fat32_get_next_cluster` returns for a read error.
abbrev pub fat32_eoc : ℕ
fat32_eoc = 0x0FFFFFF8

abbrev pub bad_cluster : ℕ
bad_cluster = 0x0FFFFFF7

-- `fat_begin_lba + ((cluster * 4) / 512)`, in `uint32_t`
abbrev pub fat_sector : Volume → ℕ → ℕ
fat_sector v cluster = (v.fat_begin_lba + cluster * 4 % u32_mod / 512) % u32_mod

-- `((cluster * 4) % 512) / 4`
abbrev pub fat_index : ℕ → ℕ
fat_index cluster = cluster * 4 % u32_mod % 512 / 4

-- `cluster - 2` wraps for the two reserved clusters.
unfoldable pub cluster_to_lba : Volume → ℕ → ℕ
cluster_to_lba v cluster =
    (v.cluster_begin_lba + (cluster + u32_mod - 2) % u32_mod * v.sectors_per_cluster) % u32_mod
