-- ===== src/FileIo.antt =====
-- lib/fileio.c: the calls that programs make, over the file system driver. The messages that it
-- prints are left out, as those of the driver are. A result of type `int` is its 32 bits.
pub mod Refusal
pub mod Tests
use package.ring_os.Prelude.{
  ℕ, ◌+◌, ◌-◌, Bool, true, false, not, ◌&&◌, Option, none, some, List, [], ◌∷◌, ◌++◌, u32_mod, ◌==◌,
  if◌then◌else◌, get_or, ◌/◌, ◌%◌,
}
use package.ring_os.Block.{BlockDevice}
use package.ring_os.Fat.{Fs}
use package.ring_os.Fat.Dir.{Memory, create_file, delete_file, create_directory}
use package.ring_os.Fat.Dir.Listing.{Found, found_memory, find_file}
use package.ring_os.Fat.Files.{
  ReadResult, not_found, too_small, failed, done, read_file, write_file,
}
use package.ring_os.Fat.Mount.{mount}
use package.ring_os.Fat.Path.{change_directory}

-- -1
abbrev pub minus_one : ℕ
minus_one = u32_mod - 1

-- The driver, and the static `current_path`.
pub record FileIo (S : Type 0) : Type 0 where
  pub fs : Fs S
  pub current_path : List ℕ

-- `entry.attributes & ATTR_DIRECTORY`
abbrev pub is_directory_found : Found → Bool
is_directory_found f = f.attributes / 16 % 2 == 1

-- What `fat32_get_current_path` points to: the path, its terminator, and `tail` behind it.
abbrev pub path_memory : {S : Type 0} → FileIo S → List ℕ → Memory
path_memory io tail i = get_or (io.fs.current.path ++ 0 ∷ tail) i 0

module _ (dev : BlockDevice) where
  unfoldable pub fs_init : FileIo dev.State → FileIo dev.State × Bool
  fs_init io =
      let (fs, ok) = mount dev io.fs in
      (record { fs = fs; current_path = if ok then b'/' ∷ [] else io.current_path }, ok)

  -- `entry.first_cluster_low | (entry.first_cluster_high << 16)`: `fat32_find_file` never sets these
  -- fields, so that they are 0.
  abbrev pub descriptor : Found → ℕ
  descriptor f = 0

  -- What `fs_open` does behind the first search.
  unfoldable pub open_found :
      ℕ → FileIo dev.State → Memory → ℕ → Option Found → Option (FileIo dev.State × ℕ)
  open_found fuel io path mode (some f) =
      if is_directory_found f && not (mode == 0)
      then some (io, minus_one)
      else some (io, descriptor f)
  open_found fuel io path mode none =
      let created = create_file dev fuel io.fs path in
      if mode == 1
      then elim created [
        | none ↦ none
        | some (fs1, false) ↦ some (record io { fs = fs1 }, minus_one)
        | some (fs1, true) ↦ elim (find_file dev fuel fs1 path) [
          | none ↦ none
          | some (fs2, none) ↦ some (record io { fs = fs2 }, minus_one)
          | some (fs2, some f) ↦ some (record io { fs = fs2 }, descriptor f)
        ]
      ]
      else some (io, minus_one)

  unfoldable pub fs_open : ℕ → FileIo dev.State → Memory → ℕ → Option (FileIo dev.State × ℕ)
  fs_open fuel io path mode = elim (find_file dev fuel io.fs path) [
    | none ↦ none
    | some (fs1, r) ↦ open_found fuel (record io { fs = fs1 }) path mode r
  ]

  -- What `fs_read` does behind the search. The limit that it hands over is `bytes_read`, 0. The last
  -- part of the result is what is stored at the buffer.
  unfoldable pub read_found_entry :
      ℕ → FileIo dev.State → Option Found → Option (FileIo dev.State × ℕ × List ℕ)
  read_found_entry fuel io none = some (io, minus_one, [])
  read_found_entry fuel io (some f) = elim (read_file dev fuel 0 io.fs (found_memory f)) [
    | none ↦ none
    | some (fs2, not_found) ↦ some (record io { fs = fs2 }, minus_one, [])
    | some (fs2, too_small n) ↦ some (record io { fs = fs2 }, minus_one, [])
    | some (fs2, failed) ↦ some (record io { fs = fs2 }, minus_one, [])
    | some (fs2, done n bytes) ↦ some (record io { fs = fs2 }, n, bytes)
  ]

  -- The descriptor and the size are not used.
  unfoldable pub fs_read :
      ℕ → FileIo dev.State → List ℕ → ℕ → ℕ → Option (FileIo dev.State × ℕ × List ℕ)
  fs_read fuel io tail fd size = elim (find_file dev fuel io.fs (path_memory io tail)) [
    | none ↦ none
    | some (fs1, r) ↦ read_found_entry fuel (record io { fs = fs1 }) r
  ]

  unfoldable pub write_found_entry :
      ℕ → FileIo dev.State → Memory → ℕ → Option Found → Option (FileIo dev.State × ℕ)
  write_found_entry fuel io buffer size none = some (io, minus_one)
  write_found_entry fuel io buffer size (some f) =
      elim (write_file dev fuel io.fs (found_memory f) buffer size) [
        | none ↦ none
        | some (fs2, true) ↦ some (record io { fs = fs2 }, size)
        | some (fs2, false) ↦ some (record io { fs = fs2 }, minus_one)
      ]

  unfoldable pub fs_write :
      ℕ → FileIo dev.State → List ℕ → ℕ → Memory → ℕ → Option (FileIo dev.State × ℕ)
  fs_write fuel io tail fd buffer size = elim (find_file dev fuel io.fs (path_memory io tail)) [
    | none ↦ none
    | some (fs1, r) ↦ write_found_entry fuel (record io { fs = fs1 }) buffer size r
  ]

  unfoldable pub fs_close : FileIo dev.State → ℕ → FileIo dev.State × ℕ
  fs_close io fd = (io, 0)

  unfoldable pub fs_chdir : ℕ → FileIo dev.State → List ℕ → Option (FileIo dev.State × Bool)
  fs_chdir fuel io path = elim (change_directory dev fuel io.fs path) [
    | none ↦ none
    | some (fs1, true) ↦ some (record { fs = fs1; current_path = fs1.current.path }, true)
    | some (fs1, false) ↦ some (record io { fs = fs1 }, false)
  ]

  -- `fs_create`, `fs_delete` and `fs_mkdir` hand the driver's result on.
  abbrev pub handed_on :
      FileIo dev.State → Option (Fs dev.State × Bool) → Option (FileIo dev.State × Bool)
  handed_on io none = none
  handed_on io (some (fs1, b)) = some (record io { fs = fs1 }, b)

  unfoldable pub fs_create : ℕ → FileIo dev.State → Memory → Option (FileIo dev.State × Bool)
  fs_create fuel io path = handed_on io (create_file dev fuel io.fs path)

  unfoldable pub fs_delete : ℕ → FileIo dev.State → Memory → Option (FileIo dev.State × Bool)
  fs_delete fuel io path = handed_on io (delete_file dev fuel io.fs path)

  unfoldable pub fs_mkdir : ℕ → FileIo dev.State → Memory → Option (FileIo dev.State × Bool)
  fs_mkdir fuel io path = handed_on io (create_directory dev fuel io.fs path)
