-- ===== src/Fat/Tests.antt =====
-- A small volume on a drive in memory: one sector of table, two copies of it, and the root
-- directory in cluster 2; clusters 3 and 4 are a file.
use ring_os.Prelude.{
  Option, ℕ, ◌≡◌, refl, true, false, none, some, List, [], ◌∷◌, ◌++◌, arith, replicate, get_or, inl,
  inr, ◌==◌, if◌then◌else◌,
}
use ring_os.CString.Compare.{IsText, is_text-IsText}
use ring_os.Block.Ram.{fit, ram, ram_reliable}
use ring_os.Fat.{Volume, Fs, fat32_eoc, cluster_to_lba}
use ring_os.Fat.Words.{word}
use ring_os.Fat.Table.View.{IsSound, table}
use ring_os.Fat.Table.Write.{Written, write_fat_entry_lem}
use ring_os.Fat.Clusters.{free_clusters, allocate_cluster}
use ring_os.Fat.Clusters.Chain.{IsChain, is_in, head_not_in_tail}
use ring_os.Fat.Clusters.Free.{Freed, free_clusters_lem}
use ring_os.Fat.Clusters.Alloc.{Search, allocate_cluster_lem}
use ring_os.Fat.Dir.{Memory, bytes_at, create_file, delete_file}
use ring_os.Fat.Dir.Listing.{find_file}
use ring_os.Fat.Dir.Update.{chain_lbas, AllBelow}
use ring_os.Fat.Dir.Slots.{Acts, fill, mark}
use ring_os.Fat.Dir.Create.{IsMounted, Edits, create_file_lem, delete_file_lem}
use ring_os.Fat.Dir.Find.{HasAttributes, AllOrdinary, find_file_misses}
use ring_os.Fat.Names.{convert_to_fat_name, exec_name}
use ring_os.Fat.Names.Convert.{fat_name, convert_to_fat_name_lem}
use ring_os.Fat.Names.Shell.{exec_name-eq-convert}

abbrev pub small_volume : Volume
small_volume = record {
  fat_begin_lba = 1;
  cluster_begin_lba = 3;
  sectors_per_cluster = 1;
  num_fats = 2;
  fat_size_32 = 1;
  root_cluster = 2;
}

abbrev pub table_bytes : List ℕ
table_bytes =
    0xF8 ∷ 0xFF ∷ 0xFF ∷ 0x0F ∷ 0xFF ∷ 0xFF ∷ 0xFF ∷ 0x0F ∷ 0xF8 ∷ 0xFF ∷ 0xFF ∷ 0x0F ∷ 4 ∷ 0 ∷ 0
    ∷ 0 ∷ 0xF8 ∷ 0xFF ∷ 0xFF ∷ 0x0F ∷ []

-- `README  TXT`
abbrev pub readme : List ℕ
readme = b'R' ∷ b'E' ∷ b'A' ∷ b'D' ∷ b'M' ∷ b'E' ∷ 32 ∷ 32 ∷ b'T' ∷ b'X' ∷ b'T' ∷ []

abbrev pub small_disk : ℕ → List ℕ
small_disk l =
    if l == 1
    then table_bytes
    else if l == 2
    then table_bytes
    else if l == 3
    then readme ++ 0x20 ∷ []
    else []

abbrev pub small_fs : Fs (ℕ → List ℕ)
small_fs = record {
  disk = small_disk;
  is_initialized = true;
  volume = small_volume;
  current = record { cluster = 2; name = b'/' ∷ []; path = b'/' ∷ [] };
  parents = [];
}

pub small_volume-IsSound : IsSound small_volume 65536
small_volume-IsSound = record {
  one_copy = omega arith;
  fits = omega arith;
  small = omega arith;
  clusters = omega arith;
}

abbrev small_table : ℕ → ℕ
small_table = table ram ram_reliable small_volume small_disk

IsChain-4 : IsChain small_table 128 4 (4 ∷ [])
unfolding word fit
IsChain-4 = (refl, omega arith, omega arith, omega arith, omega arith, omega arith)

file-IsChain : IsChain small_table 128 3 (3 ∷ 4 ∷ [])
unfolding word fit
file-IsChain = (refl, omega arith, omega arith, omega arith, omega arith, IsChain-4)

write_fat_entry_example : Written ram ram_reliable small_fs 5 fat32_eoc
write_fat_entry_example =
    write_fat_entry_lem ram ram_reliable small_fs 5 fat32_eoc small_volume-IsSound (omega arith)
      (omega arith)

free_clusters_example :
    (disk : ℕ → List ℕ) × (free_clusters ram 3 small_fs 3
      ≡ some (record small_fs { disk = disk }, true))
    × Freed ram ram_reliable small_fs (3 ∷ 4 ∷ []) disk
free_clusters_example =
    free_clusters_lem ram ram_reliable 3 (3 ∷ 4 ∷ []) small_fs 3 (omega arith) small_volume-IsSound
      (omega arith) (omega arith) file-IsChain

allocate_cluster_example : Search ram ram_reliable 0 small_fs (allocate_cluster ram small_fs)
allocate_cluster_example = allocate_cluster_lem ram ram_reliable small_fs small_volume-IsSound

head_not_in_tail_example : is_in 3 (4 ∷ []) ≡ false
head_not_in_tail_example = head_not_in_tail small_table 128 3 3 (4 ∷ []) file-IsChain

abbrev pub readme_name : Memory
readme_name k = get_or readme k 0

root-IsChain : IsChain small_table 128 2 (2 ∷ [])
unfolding word fit
root-IsChain = (refl, omega arith, omega arith, omega arith, omega arith, omega arith)

root_room : AllBelow 65536 (chain_lbas small_volume (2 ∷ []))
unfolding cluster_to_lba
root_room = (omega arith, tt)

pub small_fs-IsMounted : IsMounted ram ram_reliable small_fs (2 ∷ [])
small_fs-IsMounted = record {
  mounted = refl;
  sound = small_volume-IsSound;
  chain = root-IsChain;
  room = root_room;
}

create_file_example :
    (pick : List ℕ → Option (List ℕ)) × Acts pick
      (fill (bytes_at readme_name 11 ++ 0x20 ∷ replicate 20 0))
    × Edits ram ram_reliable pick small_fs (2 ∷ []) (create_file ram 2 small_fs readme_name)
create_file_example =
    create_file_lem ram ram_reliable 2 small_fs (2 ∷ []) readme_name (omega arith)
      small_fs-IsMounted

delete_file_example :
    (pick : List ℕ → Option (List ℕ)) × Acts pick (mark (bytes_at readme_name 11))
    × Edits ram ram_reliable pick small_fs (2 ∷ []) (delete_file ram 2 small_fs readme_name)
delete_file_example =
    delete_file_lem ram ram_reliable 2 small_fs (2 ∷ []) readme_name (omega arith)
      small_fs-IsMounted

readme_attributes : HasAttributes (fit 512 (small_disk 3))
unfolding fit
readme_attributes =
    (readme, 0x20, replicate 500 0, refl, refl, is_text-IsText readme refl, omega arith)

pub root_ordinary : AllOrdinary (λ l. fit 512 (small_disk l)) (chain_lbas small_volume (2 ∷ []))
unfolding cluster_to_lba fit
root_ordinary = (inr (readme_attributes, inl refl), tt)

find_file_misses_example :
    (d' : ℕ → List ℕ) × (find_file ram 2 small_fs readme_name
      ≡ some (record small_fs { disk = d' }, none))
    × ◌≡◌ {A = ℕ → List ℕ} (λ l. fit 512 (d' l)) (λ l. fit 512 (small_disk l))
find_file_misses_example =
    find_file_misses ram ram_reliable 2 small_fs (2 ∷ []) readme_name (omega arith)
      small_fs-IsMounted root_ordinary

-- `notes.txt` and `longbasename.c`
abbrev notes_txt : List ℕ
notes_txt = b'n' ∷ b'o' ∷ b't' ∷ b'e' ∷ b's' ∷ b'.' ∷ b't' ∷ b'x' ∷ b't' ∷ []

abbrev long_name : List ℕ
long_name =
    b'l' ∷ b'o' ∷ b'n' ∷ b'g' ∷ b'b' ∷ b'a' ∷ b's' ∷ b'e' ∷ b'n' ∷ b'a' ∷ b'm' ∷ b'e' ∷ b'.' ∷ b'c'
    ∷ []

notes_txt-IsText : IsText notes_txt
notes_txt-IsText = is_text-IsText notes_txt refl

long_name-IsText : IsText long_name
long_name-IsText = is_text-IsText long_name refl

convert_to_fat_name_example : convert_to_fat_name (notes_txt ++ 0 ∷ []) ≡ some (fat_name notes_txt)
convert_to_fat_name_example = convert_to_fat_name_lem [] notes_txt notes_txt-IsText

exec_name_example : exec_name (long_name ++ 0 ∷ []) ≡ convert_to_fat_name (long_name ++ 0 ∷ [])
exec_name_example = exec_name-eq-convert [] long_name long_name-IsText
