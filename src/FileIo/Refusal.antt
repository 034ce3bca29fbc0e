-- ===== src/FileIo/Refusal.antt =====
-- lib/fileio.c: `fs_read` and `fs_write` look for the current path among the names of the current
-- directory.
use ring_os.Prelude.{ℕ, ◌<◌, ◌≡◌, refl, false, some, List, [], length, ◌==◌}
use ring_os.Block.{BlockDevice, IsReliable}
use ring_os.Fat.Dir.{Memory}
use ring_os.Fat.Dir.Create.{IsMounted}
use ring_os.Fat.Dir.Find.{AllOrdinary, find_file_misses}
use ring_os.Fat.Dir.Update.{chain_lbas}
use ring_os.FileIo.{
  FileIo, minus_one, path_memory, open_found, fs_open, read_found_entry, fs_read, write_found_entry,
  fs_write,
}

module _ (dev : BlockDevice) (rel : IsReliable dev) where
  open rel use {contents}

  -- On a mounted file system over a reliable device, whose current directory is a chain of fewer
  -- clusters than the fuel in which every entry, up to the end mark of each sector, has attributes
  -- and a name of eleven bytes without a zero byte, whatever the descriptor, the buffer and the size
  -- are: `fs_read` returns -1 and stores nothing, `fs_write` returns -1,
  -- `fs_open` returns -1 unless the mode is 1, and none of them changes a sector.
  pub file_calls_fail :
      (fuel : ℕ) (io : FileIo dev.State) (cs : List ℕ)
      → length cs < fuel
      → IsMounted dev rel io.fs cs
      → AllOrdinary (contents io.fs.disk) (chain_lbas io.fs.volume cs)
      → (tail : List ℕ) (path buffer : Memory) (fd size mode : ℕ) → (mode == 1) ≡ false
      → (d1 d2 : dev.State) × (fs_read dev fuel io tail fd size
          ≡ some (record io { fs = record io.fs { disk = d1 } }, minus_one, []))
        × (fs_write dev fuel io tail fd buffer size
            ≡ some (record io { fs = record io.fs { disk = d1 } }, minus_one))
        × (fs_open dev fuel io path mode
            ≡ some (record io { fs = record io.fs { disk = d2 } }, minus_one))
        × (contents d1 ≡ contents io.fs.disk)
        × (contents d2 ≡ contents io.fs.disk)
  unfolding fs_read fs_write fs_open read_found_entry write_found_entry open_found
  file_calls_fail fuel io cs enough m h tail path buffer fd size mode no_create =
      let (d1, run, same) =
        find_file_misses dev rel fuel io.fs cs (path_memory io tail) enough m h in
      let (d2, run2, same2) = find_file_misses dev rel fuel io.fs cs path enough m h in
      (
        d1,
        d2,
        rw (run, fs_read) refl,
        rw (run, fs_write) refl,
        rw (run2, fs_open) (rw no_create refl),
        same,
        same2,
      )
