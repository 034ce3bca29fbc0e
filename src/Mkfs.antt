-- ===== src/Mkfs.antt =====
-- tools/mkfs.c: the image that the host program builds, its boot sector and its two tables.
-- The buffer is a function from offsets to bytes, so that a store behind its end is a value like
-- any other. The children model the entries, the files and the walk over the host's directories.
pub mod Accept
pub mod Alloc
pub mod Allocated
pub mod Booting
pub mod Buffer
pub mod Directories
pub mod Complete
pub mod Entries
pub mod Files
pub mod Frame
pub mod Fresh
pub mod Reading
pub mod Room
pub mod Root
pub mod Slots
pub mod Stored
pub mod Tests
pub mod Tree
pub mod Walk
use package.ring_os.Prelude.{
  ℕ, ◌+◌, ◌-◌, ◌*◌, ◌/◌, ◌%◌, u32_mod, Bool, Option, none, some, List, [], ◌∷◌, ◌++◌, ◌&&◌, leb,
  ltb, ◌==◌, if◌then◌else◌, length, get_or, replicate, for_range,
}
use package.ring_os.Fat.Dir.{Memory}

abbrev pub sector_size : ℕ
sector_size = 512

abbrev pub filesystem_size : ℕ
filesystem_size = 32 * 1024 * 1024

-- `RESERVED_SECTORS`
abbrev pub reserved_count : ℕ
reserved_count = 32

abbrev pub fat_copies : ℕ
fat_copies = 2

-- `SECTORS_PER_CLUSTER`
abbrev pub cluster_sectors : ℕ
cluster_sectors = 8

-- `SECTORS_PER_CLUSTER * SECTOR_SIZE`
abbrev pub cluster_size : ℕ
cluster_size = 4096

-- `filesystem_image`
pub record Image : Type 0 where
  pub buffer : Memory
  pub size : ℕ
  pub fat_start : ℕ
  pub cluster_start : ℕ
  pub next_free_cluster : ℕ
  pub data_size : ℕ

-- A number of 16 and of 32 bits, little-endian.
abbrev pub le16 : ℕ → List ℕ
le16 v = (v % 256) ∷ (v / 256 % 256) ∷ []

abbrev pub le32 : ℕ → List ℕ
le32 v = (v % 256) ∷ (v / 256 % 256) ∷ (v / 65536 % 256) ∷ (v / 16777216 % 256) ∷ []

-- The bytes stored from an offset on.
unfoldable pub write_at : Memory → ℕ → List ℕ → Memory
write_at b off bytes i =
    if leb off i && ltb i (off + length bytes) then get_or bytes (i - off) 0 else b i

-- `uint32_t` at an offset.
unfoldable pub load32 : Memory → ℕ → ℕ
load32 b off = b off + 256 * b (off + 1) + 65536 * b (off + 2) + 16777216 * b (off + 3)

abbrev pub store32 : Memory → ℕ → ℕ → Memory
store32 b off v = write_at b off (le32 v)

-- The sectors of one table, as `initialize_boot_sector` computes them.
abbrev pub table_sectors : ℕ
table_sectors =
    ((filesystem_size / sector_size - reserved_count) / cluster_sectors * 4 + (sector_size - 1))
    / sector_size

-- The 90 bytes of `fat32_boot_sector_t` that `initialize_boot_sector` fills, in their order.
abbrev pub boot_sector : List ℕ
boot_sector =
    (0xEB ∷ 0x58 ∷ 0x90 ∷ [])
    ++ ((b'M' ∷ b'S' ∷ b'W' ∷ b'I' ∷ b'N' ∷ b'4' ∷ b'.' ∷ b'1' ∷ [])
        ++ (le16 sector_size
            ++ ((cluster_sectors ∷ [])
                ++ (le16 reserved_count
                    ++ ((fat_copies ∷ 0 ∷ 0 ∷ 0 ∷ 0 ∷ 0xF8 ∷ 0 ∷ 0 ∷ [])
                        ++ (le16 32
                            ++ (le16 64
                                ++ (le32 0
                                    ++ (le32 (filesystem_size / sector_size)
                                        ++ (le32 table_sectors
                                            ++ ((0 ∷ 0 ∷ 0 ∷ 0 ∷ [])
                                                ++ (le32 2
                                                    ++ (le16 1
                                                        ++ (le16 6
                                                            ++ (replicate 12 0
                                                            ++ ((0x80 ∷ 0 ∷ 0x29 ∷ [])
                                                            ++ (le32 0x12345678
                                                            ++ ((b'N' ∷ b'O' ∷ b' ' ∷ b'N' ∷ b'A'
                                                            ∷ b'M' ∷ b'E' ∷ b' ' ∷ b' ' ∷ b' '
                                                            ∷ b' ' ∷ [])
                                                            ++ (b'F' ∷ b'A' ∷ b'T' ∷ b'3' ∷ b'2'
                                                            ∷ b' ' ∷ b' ' ∷ b' '
                                                            ∷ [])))))))))))))))))))

-- The first table with its three entries.
abbrev pub first_entries : List ℕ
first_entries = le32 0x0FFFFFF8 ++ (le32 0x0FFFFFFF ++ le32 0x0FFFFFFF)

-- The bytes of `b` from `src` on, `n` of them, copied to `dst`.
abbrev pub copy_at : Memory → ℕ → ℕ → ℕ → Memory
copy_at b dst src n i = if leb dst i && ltb i (dst + n) then b (src + (i - dst)) else b i

-- The image behind the two calls of `malloc` and `calloc`.
abbrev pub new_image : Image
new_image =
    let b1 = write_at (λ i. 0) 0 boot_sector in
    let fat_start = (b1 14 + 256 * b1 15) * sector_size in
    let cluster_start = (b1 14 + 256 * b1 15 + b1 16 * load32 b1 36) * sector_size in
    let b2 = write_at b1 fat_start first_entries in
    record {
      buffer =
          copy_at b2 (fat_start + load32 b2 36 * sector_size) fat_start
            (load32 b2 36 * sector_size);
      size = filesystem_size;
      fat_start = fat_start;
      cluster_start = cluster_start;
      next_free_cluster = 2;
      data_size = filesystem_size - cluster_start;
    }

-- `none` is `NULL`. The arguments say whether the structure and the buffer were allocated.
unfoldable pub create_filesystem : Bool → Bool → Option Image
create_filesystem structure buffer = if structure && buffer then some new_image else none

-- Where a cluster's entry stands in the first table and in the second.
abbrev pub first_at : Image → ℕ → ℕ
first_at fs cluster = fs.fat_start + 4 * cluster

abbrev pub second_at : Image → Memory → ℕ → ℕ
second_at fs b cluster =
    (fs.fat_start + load32 b 36 * sector_size % u32_mod) % u32_mod + 4 * cluster

-- A round of the loop of `allocate_clusters`, on the buffer.
unfoldable pub mark_cluster : Image → ℕ → ℕ → ℕ → Memory → Memory
mark_cluster fs first count i b =
    let current = (first + i) % u32_mod in
    let b1 =
      store32 b (first_at fs current)
        (if i + 1 == count then 0x0FFFFFFF else (current + 1) % u32_mod) in
    store32 b1 (second_at fs b1 current) (load32 b1 (first_at fs current))

-- `(fs->size - fs->cluster_start) / (bs->sectors_per_cluster * SECTOR_SIZE)`
abbrev pub total_clusters : Image → ℕ
total_clusters fs = (fs.size - fs.cluster_start) / (fs.buffer 13 * sector_size)

-- 0 is the failure. The clusters are taken one behind the other from the first that was never
-- taken.
unfoldable pub allocate_clusters : Image → ℕ → Image × ℕ
allocate_clusters fs count =
    let first = fs.next_free_cluster in
    if leb (total_clusters fs) ((first + count) % u32_mod) then (fs, 0) else (
      record fs {
        buffer = for_range count 0 (mark_cluster fs first count) fs.buffer;
        next_free_cluster = (first + count) % u32_mod;
      },
      first,
    )

-- `fs->buffer + fs->cluster_start + ((cluster - 2) * SECTORS_PER_CLUSTER * SECTOR_SIZE)`, the
-- product in `uint32_t`.
abbrev pub cluster_at : Image → ℕ → ℕ
cluster_at fs cluster =
    fs.cluster_start + (cluster + u32_mod - 2) % u32_mod * cluster_size % u32_mod
