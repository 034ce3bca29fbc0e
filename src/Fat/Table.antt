-- ===== src/Fat/Table.antt =====
-- The file allocation table: `fat32_get_next_cluster` and `fat32_write_fat_entry`.
pub mod View
pub mod Write
use package.ring_os.Prelude.{
  ℕ, zero, suc, ◌+◌, ◌*◌, ◌%◌, ◌^◌, u32_mod, Bool, true, false, Option, none, some, List,
  if◌then◌else◌,
}
use package.ring_os.Block.{BlockDevice}
use package.ring_os.Fat.{Volume, Fs, bad_cluster, fat_sector, fat_index}
use package.ring_os.Fat.Words.{word, set_word}

module _ (dev : BlockDevice) where
  unfoldable pub get_next_cluster : Fs dev.State → ℕ → Fs dev.State × ℕ
  get_next_cluster fs cluster =
      let (d, r) = dev.read_sectors fs.disk (fat_sector fs.volume cluster) 1 in
      (
        record fs { disk = d },
        elim r [ none ↦ bad_cluster | some buffer ↦ word buffer (fat_index cluster) % 2 ^ 28 ],
      )

  -- The loop over the copies of the table, at copy `fat` with `left` to go.
  unfoldable pub write_copies : Volume → ℕ → List ℕ → ℕ → ℕ → dev.State → dev.State × Bool
  write_copies v sector buffer zero fat d = (d, true)
  write_copies v sector buffer (suc left) fat d =
      let (d', done) =
        dev.write_sectors d ((sector + fat * v.fat_size_32 % u32_mod) % u32_mod) 1 buffer in
      let rest = write_copies v sector buffer left (fat + 1) d' in
      if done then rest else (d', false)

  unfoldable pub write_fat_entry : Fs dev.State → ℕ → ℕ → Fs dev.State × Bool
  write_fat_entry fs cluster value =
      let v = fs.volume in
      let (d, r) = dev.read_sectors fs.disk (fat_sector v cluster) 1 in
      elim r [
        | none ↦ (record fs { disk = d }, false)
        | some buffer ↦
            let (d', done) =
              write_copies v (fat_sector v cluster) (set_word buffer (fat_index cluster) value)
                v.num_fats 0 d in
            (record fs { disk = d' }, done)
      ]
