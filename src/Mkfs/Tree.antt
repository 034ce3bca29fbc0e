-- ===== src/Mkfs/Tree.antt =====
-- tools/mkfs.c: `process_file`, `process_directory`, `create_filesystem_image` and `main`.
-- The host's directories are an input: what `readdir`, `stat`, `opendir`, `fopen`, `ftell` and
-- `fread` give is a value of the type `Listing`.
use ring_os.Prelude.{
  ℕ, ◌+◌, ◌-◌, ◌*◌, ◌/◌, ◌%◌, u32_mod, Bool, true, false, Option, none, some, List, [], ◌∷◌, ◌++◌,
  leb, ◌==◌, if◌then◌else◌, take, length, get_or,
}
use ring_os.Fat.Entry.{file_entry}
use ring_os.Mkfs.{Image, write_at, cluster_size, cluster_at, allocate_clusters, create_filesystem}
use ring_os.Mkfs.Entries.{LocalTime, text, create_directory_entry, free_entry}

-- A file that was opened: what `ftell` gives at its end, and the bytes that `fread` can give.
pub record HostFile : Type 0 where
  pub tell : ℕ
  pub content : List ℕ

-- The readings of the clock in a call of `process_directory`: for the entry in the parent, for
-- "." and for "..".
pub record Readings : Type 0 where
  pub parent : LocalTime
  pub self : LocalTime
  pub up : LocalTime

-- What `readdir` gives from a point on. Each name is the array `d_name`, with what it holds behind
-- the terminator. `none` is a file or a directory that cannot be opened, `missing` an entry that
-- `stat` fails on, `other` neither a file nor a directory.
pub data Listing : Type 0 where
  end : Listing
  file : (d_name : List ℕ) → Option HostFile → Listing → Listing
  directory : (d_name : List ℕ) → Readings → Listing → Listing → Listing
  closed_directory : (d_name : List ℕ) → Listing → Listing
  other : (d_name : List ℕ) → Listing → Listing
  missing : (d_name : List ℕ) → Listing → Listing

-- The clusters for `size` bytes, the sum in `uint32_t`; at least one.
abbrev pub clusters_needed : ℕ → ℕ
clusters_needed size =
    let n = (size + cluster_size - 1) % u32_mod / cluster_size in if n == 0 then 1 else n

-- `sizeof(fat32_dir_entry_t)` into the bytes of a cluster.
abbrev pub entry_count : ℕ
entry_count = 128

-- An entry stored in the first free place of the directory.
unfoldable pub add_entry : Image → ℕ → List ℕ → Image × Bool
add_entry fs parent entry = elim (free_entry fs.buffer (cluster_at fs parent) entry_count 0) [
  | none ↦ (fs, false)
  | some i ↦ (record fs { buffer = write_at fs.buffer (cluster_at fs parent + 32 * i) entry }, true)
]

-- `process_file` behind `allocate_clusters`: `size` bytes into the clusters from `first` on.
unfoldable pub store_file : Image → HostFile → List ℕ → ℕ → ℕ → ℕ → Image × Bool
store_file fs f name parent size first =
    let bytes = take size f.content in
    let fs1 = record fs { buffer = write_at fs.buffer (cluster_at fs first) bytes } in
    if length bytes == size
    then add_entry fs1 parent (file_entry (take 11 name) first size)
    else (fs1, false)

unfoldable pub process_file : Image → Option HostFile → List ℕ → ℕ → Image × Bool
process_file fs none name parent = (fs, false)
process_file fs (some f) name parent =
    let size = f.tell % u32_mod in
    let (fs1, first) = allocate_clusters fs (clusters_needed size) in
    if first == 0 then (fs1, false) else store_file fs1 f name parent size first

-- The entries "." and ".." of the directory in `cluster`.
unfoldable pub with_dots : Image → Readings → ℕ → ℕ → Image
with_dots fs r cluster parent =
    let at = cluster_at fs cluster in
    record fs {
      buffer =
          write_at
            (write_at fs.buffer at (create_directory_entry r.self (b'.' ∷ []) cluster 0 0x10))
            (at + 32)
            (create_directory_entry r.up (b'.' ∷ b'.' ∷ [])
              (if parent == 0 then cluster else parent) 0 0x10);
    }

-- `process_directory` up to its loop, with the number of the directory's cluster. The parent 0
-- stands for the root directory's.
unfoldable pub add_directory : Image → Readings → List ℕ → ℕ → Image × Option ℕ
add_directory fs r name parent =
    let (fs1, cluster) = allocate_clusters fs 1 in
    let (fs2, entered) =
      if parent == 0
      then (fs1, true)
      else add_entry fs1 parent (create_directory_entry r.parent (text name) cluster 0 0x10) in
    if cluster == 0
    then (fs1, none)
    else if entered
    then (with_dots fs2 r cluster parent, some cluster)
    else (fs2, none)

-- `entry->d_name[0] == '.'`
abbrev pub is_hidden : List ℕ → Bool
is_hidden name = get_or name 0 0 == b'.'

-- The path of an entry, and whether `full_path` is too small for it.
abbrev pub entry_path : List ℕ → List ℕ → List ℕ
entry_path path name = path ++ (b'/' ∷ text name)

abbrev pub is_too_long : List ℕ → Bool
is_too_long path = leb 1024 (length path)

-- A round of the loop over the entries, `step` the part behind the test of the path's length.
abbrev pub round : Image → List ℕ → List ℕ → Image × Bool → Image × Bool
round fs path name step =
    if is_hidden name
    then (fs, true)
    else if is_too_long (entry_path path name)
    then (fs, false)
    else step

-- The loop of `process_directory` over the entries of the directory in `cluster`. It stops at the
-- first that fails.
unfoldable pub process_entries : Image → List ℕ → ℕ → Listing → Image × Bool
process_entries fs path cluster end = (fs, true)
process_entries fs path cluster (file name f rest) =
    let r = round fs path name (process_file fs f name cluster) in
    let behind = process_entries r.0 path cluster rest in if r.1 then behind else r
process_entries fs path cluster (directory name stamps entries rest) =
    let opened = add_directory fs stamps name cluster in
    let inside : Image × Bool = elim opened.1 [
      | none ↦ (opened.0, false)
      | some c ↦ process_entries opened.0 (entry_path path name) c entries
    ] in
    let r = round fs path name inside in
    let behind = process_entries r.0 path cluster rest in if r.1 then behind else r
process_entries fs path cluster (closed_directory name rest) =
    let r = round fs path name (fs, false) in
    let behind = process_entries r.0 path cluster rest in if r.1 then behind else r
process_entries fs path cluster (other name rest) =
    let r = round fs path name (fs, true) in
    let behind = process_entries r.0 path cluster rest in if r.1 then behind else r
process_entries fs path cluster (missing name rest) =
    let r = round fs path name (fs, false) in
    let behind = process_entries r.0 path cluster rest in if r.1 then behind else r

-- `process_directory` on a directory that was opened.
unfoldable pub process_directory : Image → List ℕ → Readings → List ℕ → ℕ → Listing → Image × Bool
process_directory fs path stamps name parent entries =
    let opened = add_directory fs stamps name parent in
    elim opened.1 [ none ↦ (opened.0, false) | some c ↦ process_entries opened.0 path c entries ]

-- The bytes that are written to the output file, or `none` when the walk fails.
unfoldable pub create_filesystem_image : List ℕ → Readings → Listing → Option Image
create_filesystem_image source stamps entries = elim (create_filesystem true true) [
  | none ↦ none
  | some fs ↦
      let r = process_directory fs source stamps [] 0 entries in if r.1 then some r.0 else none
]
