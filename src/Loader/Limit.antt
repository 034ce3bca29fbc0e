-- ===== src/Loader/Limit.antt =====
-- The limit that `load_program` gives to `fat32_read_file`.
use ring_os.Prelude.{ℕ, ◌+◌, ◌*◌, ◌≤◌, ◌<◌, ◌≡◌, refl, u32_mod, true, some, List, length, arith}
use ring_os.Block.{BlockDevice, IsReliable}
use ring_os.Fat.{Fs}
use ring_os.Fat.Table.View.{entries, table}
use ring_os.Fat.Clusters.Chain.{IsChain}
use ring_os.Fat.Dir.Update.{chain_lbas}
use ring_os.Fat.Dir.Create.{IsMounted}
use ring_os.Fat.Entry.{first_cluster, file_size}
use ring_os.Fat.Search.Hit.{first_hit}
use ring_os.Fat.Files.{ReadResult, find_name, read_file}
use ring_os.Fat.Files.Reading.{IsByteSized, AllFit, read_file_lem}
use ring_os.Loader.{Loaded, stack_size, size_limit, finish, load_program}

module _ (dev : BlockDevice) (rel : IsReliable dev) where
  open rel use {capacity, contents}

  load_program_step :
      (fuel : ℕ) (fs fs' : Fs dev.State) (name : List ℕ) (r : ReadResult)
      → read_file dev fuel size_limit fs name ≡ some (fs', r)
      → load_program dev fuel fs name ≡ some (fs', finish r)
  unfolding load_program
  load_program_step fuel fs fs' name r run = rw run refl

  -- On a mounted file system with clusters of 1 to 255 sectors, whose current directory is a
  -- chain of fewer clusters than the fuel, over a reliable device, `load_program` of a file that
  -- the search finds, with a size above the 4096 bytes of `temp_buffer` and at most 2 ^ 32 -
  -- 4096, and with clusters that are a chain on the device, long enough for the size and shorter
  -- than the fuel, returns true, sets the entry point and `loaded`, and stores bytes behind the
  -- end of that buffer.
  pub load_program_overruns :
      (fuel : ℕ) (fs : Fs dev.State) (name entry ds cs : List ℕ) (lba : ℕ)
      → length ds < fuel
      → length cs < fuel
      → IsMounted dev rel fs ds
      → IsByteSized fs.volume
      → first_hit (find_name name 16) (contents fs.disk) (chain_lbas fs.volume ds)
        ≡ some (lba, entry)
      → stack_size < file_size entry
      → file_size entry + 0x1000 ≤ u32_mod
      → IsChain (table dev rel fs.volume fs.disk) (entries fs.volume) (first_cluster entry) cs
      → AllFit fs.volume capacity cs
      → file_size entry ≤ 512 * fs.volume.sectors_per_cluster * length cs
      → (fs' : Fs dev.State) × (loaded : Loaded) × (load_program dev fuel fs name
          ≡ some (fs', some loaded))
        × (loaded.info.loaded ≡ true)
        × (loaded.info.entry_point ≡ 0x101000)
        × (stack_size < length loaded.stored)
  unfolding size_limit finish
  load_program_overruns fuel fs name entry ds cs lba enough enough' m b found big small chain fit
        long =
      let (d', run, le, same) =
        read_file_lem dev rel fuel size_limit fs name entry ds cs lba enough enough' m b found
          (omega arith) (omega arith) chain fit long in
      (
        _,
        _,
        load_program_step fuel fs (record fs { disk = d' }) name _ run,
        refl,
        refl,
        omega (arith, le),
      )
