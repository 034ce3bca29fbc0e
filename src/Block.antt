-- ===== src/Block.antt =====
-- The disk as drivers/fat32.c sees it: `ata_read_sectors` and `ata_write_sectors` of include/ata.h.
-- The file system takes such a device as a parameter.
pub mod Ram
use package.ring_os.Prelude.{
  ℕ, zero, suc, ◌+◌, ◌*◌, ◌≤◌, ◌<◌, ◌≡◌, ◌≢◌, ◌⊎◌, Bool, true, Option, some, List, [], ◌∷◌, ◌++◌,
  length, take, drop,
}

pub record BlockDevice : Type 1 where
  pub State : Type 0
  -- The sector number and the count of sectors; `none` is the result `false`.
  pub read_sectors : State → ℕ → ℕ → State × Option (List ℕ)
  -- The sector number, the count and the bytes at the buffer.
  pub write_sectors : State → ℕ → ℕ → List ℕ → State × Bool

-- `n` sectors from `lba` on, one behind the other.
abbrev pub gather : (ℕ → List ℕ) → ℕ → ℕ → List ℕ
gather f lba zero = []
gather f lba (suc n) = f lba ++ gather f (lba + 1) n

-- A drive that serves the sectors below its capacity: a read returns what the sectors hold and
-- changes none, a write changes the sectors that it names. The count is a byte.
pub record IsReliable (dev : BlockDevice) : Type 0 where
  pub capacity : ℕ
  pub contents : dev.State → ℕ → List ℕ
  pub size : (s : dev.State) (lba : ℕ) → length (contents s lba) ≡ 512
  pub read_value :
      (s : dev.State) (lba : ℕ)
      → lba < capacity
      → (dev.read_sectors s lba 1).1 ≡ some (contents s lba)
  pub read_keeps :
      (s : dev.State) (lba l : ℕ)
      → lba < capacity
      → contents (dev.read_sectors s lba 1).0 l ≡ contents s l
  pub write_done :
      (s : dev.State) (lba : ℕ) (bytes : List ℕ)
      → lba < capacity
      → length bytes ≡ 512
      → (dev.write_sectors s lba 1 bytes).1 ≡ true
  pub write_self :
      (s : dev.State) (lba : ℕ) (bytes : List ℕ)
      → lba < capacity
      → length bytes ≡ 512
      → contents (dev.write_sectors s lba 1 bytes).0 lba ≡ bytes
  pub write_ne :
      (s : dev.State) (lba l : ℕ) (bytes : List ℕ)
      → lba < capacity
      → length bytes ≡ 512
      → lba ≢ l
      → contents (dev.write_sectors s lba 1 bytes).0 l ≡ contents s l
  pub read_many :
      (s : dev.State) (lba n : ℕ)
      → lba + n ≤ capacity
      → n < 256
      → (dev.read_sectors s lba n).1 ≡ some (gather (contents s) lba n)
  pub read_many_keeps :
      (s : dev.State) (lba n l : ℕ)
      → lba + n ≤ capacity
      → n < 256
      → contents (dev.read_sectors s lba n).0 l ≡ contents s l
  pub write_many :
      (s : dev.State) (lba n : ℕ) (bytes : List ℕ)
      → lba + n ≤ capacity
      → n < 256
      → length bytes ≡ 512 * n
      → (dev.write_sectors s lba n bytes).1 ≡ true
  pub write_many_at :
      (s : dev.State) (lba n k : ℕ) (bytes : List ℕ)
      → lba + n ≤ capacity
      → n < 256
      → length bytes ≡ 512 * n
      → k < n
      → contents (dev.write_sectors s lba n bytes).0 (lba + k) ≡ take 512 (drop (512 * k) bytes)
  pub write_many_ne :
      (s : dev.State) (lba n l : ℕ) (bytes : List ℕ)
      → lba + n ≤ capacity
      → n < 256
      → length bytes ≡ 512 * n
      → (l < lba) ⊎ (lba + n ≤ l)
      → contents (dev.write_sectors s lba n bytes).0 l ≡ contents s l
