-- ===== src/Fat/Mount.antt =====
-- `fat32_init`: the boot sector, and the state that it sets.
use ring_os.Prelude.{
  ℕ, ◌+◌, ◌*◌, ◌%◌, ◌<◌, ◌≡◌, refl, Bool, true, false, none, some, List, [], ◌∷◌, u32_mod, ◌==◌,
  if◌then◌else◌, get_or, ==_iff,
}
use ring_os.Block.{BlockDevice, IsReliable}
use ring_os.Fat.{Volume, Directory, Fs}
use ring_os.Fat.Words.{word}

-- The fields of `fat32_boot_sector_t`, at their offsets in the packed structure.
abbrev pub bytes_per_sector : List ℕ → ℕ
bytes_per_sector b = get_or b 11 0 + 256 * get_or b 12 0

abbrev pub reserved_sectors : List ℕ → ℕ
reserved_sectors b = get_or b 14 0 + 256 * get_or b 15 0

-- The volume that a boot sector describes. The product and the sum have 32 bits.
abbrev pub boot_volume : List ℕ → Volume
boot_volume b = record {
  fat_begin_lba = reserved_sectors b;
  cluster_begin_lba = (reserved_sectors b + get_or b 16 0 * word b 9 % u32_mod) % u32_mod;
  sectors_per_cluster = get_or b 13 0;
  num_fats = get_or b 16 0;
  fat_size_32 = word b 9;
  root_cluster = word b 11;
}

abbrev pub root_directory : ℕ → Directory
root_directory cluster = record { cluster = cluster; name = b'/' ∷ []; path = b'/' ∷ [] }

module _ (dev : BlockDevice) where
  -- A sector of another size is refused, but `boot_sector` was read over by then. The source reads
  -- 512 bytes into `boot_sector`, which has 90: the 422 bytes that it overwrites behind it are not
  -- part of this state, and Start has their effect on the kernel as a parameter.
  unfoldable pub mount : Fs dev.State → Fs dev.State × Bool
  mount fs =
      let (d, r) = dev.read_sectors fs.disk 0 1 in
      elim r [
        | none ↦ (record fs { disk = d }, false)
        | some b ↦
            if bytes_per_sector b == 512
            then (
              record {
                disk = d;
                is_initialized = true;
                volume = boot_volume b;
                current = root_directory (word b 11);
                parents = [];
              },
              true,
            )
            else (
              record fs {
                disk = d;
                volume = record fs.volume {
                  num_fats = get_or b 16 0;
                  fat_size_32 = word b 9;
                  root_cluster = word b 11;
                };
              },
              false,
            )
      ]

module _ (dev : BlockDevice) (rel : IsReliable dev) where
  open rel use {capacity, contents, read_value}

  -- The state behind a boot sector that is accepted.
  abbrev pub mounted : dev.State → List ℕ → Fs dev.State
  mounted d b = record {
    disk = d;
    is_initialized = true;
    volume = boot_volume b;
    current = root_directory (word b 11);
    parents = [];
  }

  pub mount_run :
      (fs : Fs dev.State)
      → 0 < capacity
      → bytes_per_sector (contents fs.disk 0) ≡ 512
      → mount dev fs ≡ (mounted (dev.read_sectors fs.disk 0 1).0 (contents fs.disk 0), true)
  unfolding mount
  mount_run fs some_sector sectors =
      let size : (bytes_per_sector (contents fs.disk 0) == 512) ≡ true = (==_iff _ _).1 sectors in
      rw (read_value fs.disk 0 some_sector, mount) (rw size refl)
