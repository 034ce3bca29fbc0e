-- ===== src/Loader.antt =====
-- drivers/loader.c: `load_program`. What it prints is left out, and so is the jump, which is
-- assembly.
pub mod Limit
mod Tests
use package.ring_os.Prelude.{
  ℕ, ◌+◌, ◌-◌, ◌*◌, ◌/◌, ◌%◌, u32_mod, Bool, true, false, Option, none, some, List, take,
}
use package.ring_os.CString.{◌>>=◌}
use package.ring_os.Block.{BlockDevice}
use package.ring_os.Fat.{Fs}
use package.ring_os.Fat.Files.{ReadResult, not_found, too_small, failed, done, read_file}

-- `PROGRAM_LOAD_ADDR` and `STACK_SIZE`, which is also the size of `temp_buffer`
abbrev pub program_load_addr : ℕ
program_load_addr = 0x100000

abbrev pub stack_size : ℕ
stack_size = 0x1000

-- `program_info_t`
pub record ProgramInfo : Type 0 where
  pub entry_point : ℕ
  pub stack_pointer : ℕ
  pub loaded : Bool

-- `info`, the bytes that were stored from `temp_buffer` on, and those at the entry point.
pub record Loaded : Type 0 where
  pub info : ProgramInfo
  pub stored : List ℕ
  pub image : List ℕ

-- `uint32_t size = STACK_SIZE - 0x2000`
unfoldable pub size_limit : ℕ
size_limit = (stack_size + u32_mod - 0x2000) % u32_mod

unfoldable pub finish : ReadResult → Option Loaded
finish not_found = none
finish (too_small size) = none
finish failed = none
finish (done size bytes) = some (record {
  info = record {
    entry_point = 0x101000;
    stack_pointer = (program_load_addr + stack_size) / 16 * 16 - 16;
    loaded = true;
  };
  stored = bytes;
  image = take size bytes;
})

-- `info` is not a null pointer. The inner `none` is the result `false`.
unfoldable pub load_program :
    (dev : BlockDevice) → ℕ → Fs dev.State → List ℕ → Option (Fs dev.State × Option Loaded)
load_program dev fuel fs filename = do
  r ← read_file dev fuel size_limit fs filename
  some (r.0, finish r.1)
