-- ===== src/Fat/Files/Tests.antt =====
-- A volume as in Fat.Tests, with three entries in the root directory: a file of 600 bytes in the
-- clusters 3 and 4, a file that was never written, and a directory.
use ring_os.Prelude.{
  ℕ, ◌≡◌, ◌≢◌, ◌⊎◌, ◌≤◌, length, refl, true, false, some, List, [], ◌∷◌, ◌++◌, arith, ◌==◌,
  if◌then◌else◌,
}
use ring_os.CString.{toupper, memcmp}
use ring_os.CString.Compare.{is_text-IsText}
use ring_os.Block.Ram.{fit, ram, ram_reliable}
use ring_os.Fat.{Fs, cluster_to_lba}
use ring_os.Fat.Words.{word}
use ring_os.Fat.Table.View.{table}
use ring_os.Fat.Clusters.Chain.{IsChain}
use ring_os.Fat.Dir.{Memory}
use ring_os.Fat.Dir.Create.{IsMounted}
use ring_os.Fat.Entry.{first_cluster, file_size, file_entry, u16}
use ring_os.Fat.Names.{pad, compare_filename, normalize, same_bytes, take_base, take_ext}
use ring_os.Fat.Names.Convert.{fat_name}
use ring_os.Fat.Files.{find_name, find_slot, done, read_file, write_loop, write_file}
use ring_os.Fat.Files.Reading.{IsByteSized, AllFit, file_bytes, read_file_lem}
use ring_os.Fat.Files.Refusal.{write_file_refused}
use ring_os.Fat.Files.Layout.{IsLaidOut}
use ring_os.Fat.Files.Writing.{IsExhausted}
use ring_os.Fat.Files.Writing.Loop.{IsReadBack, read_loop-write_loop}
use ring_os.Fat.Tests.{small_volume, small_volume-IsSound, table_bytes}

-- `NOTES   TXT` and `EMPTY   TXT`
abbrev notes : List ℕ
notes = b'N' ∷ b'O' ∷ b'T' ∷ b'E' ∷ b'S' ∷ 32 ∷ 32 ∷ 32 ∷ b'T' ∷ b'X' ∷ b'T' ∷ []

abbrev empty_txt : List ℕ
empty_txt = b'e' ∷ b'm' ∷ b'p' ∷ b't' ∷ b'y' ∷ b'.' ∷ b't' ∷ b'x' ∷ b't' ∷ []

abbrev pub root_sector : List ℕ
root_sector = file_entry notes 3 600 ++ file_entry (fat_name empty_txt) 0 0

abbrev disk : ℕ → List ℕ
disk l =
    if l == 1
    then table_bytes
    else if l == 2
    then table_bytes
    else if l == 3
    then root_sector
    else []

abbrev fs : Fs (ℕ → List ℕ)
fs = record {
  disk = disk;
  is_initialized = true;
  volume = small_volume;
  current = record { cluster = 2; name = b'/' ∷ []; path = b'/' ∷ [] };
  parents = [];
}

abbrev fs_table : ℕ → ℕ
fs_table = table ram ram_reliable small_volume disk

fs-IsMounted : IsMounted ram ram_reliable fs (2 ∷ [])
unfolding word fit cluster_to_lba
fs-IsMounted = record {
  mounted = refl;
  sound = small_volume-IsSound;
  chain = (refl, omega arith, omega arith, omega arith, omega arith, omega arith);
  room = (omega arith, tt);
}

notes-IsChain : IsChain fs_table 128 3 (3 ∷ 4 ∷ [])
unfolding word fit
notes-IsChain = (
  refl,
  omega arith,
  omega arith,
  omega arith,
  omega arith,
  (refl, omega arith, omega arith, omega arith, omega arith, omega arith),
)

small_volume-IsByteSized : IsByteSized small_volume
small_volume-IsByteSized = record { some_sector = omega arith; byte = omega arith }

notes_size : file_size (file_entry notes 3 600) ≡ 600
unfolding file_size file_entry word
notes_size = refl

notes-AllFit : AllFit small_volume 65536 (3 ∷ 4 ∷ [])
unfolding cluster_to_lba
notes-AllFit = (omega arith, (omega arith, tt))

read_file_example :
    let bytes = file_bytes (λ l. fit 512 (disk l)) small_volume 600 (3 ∷ 4 ∷ []) in
    (d' : ℕ → List ℕ) × (read_file ram 3 1000 fs notes
      ≡ some (record fs { disk = d' }, done 600 bytes))
    × (600 ≤ length bytes)
    × ◌≡◌ {A = ℕ → List ℕ} (λ l. fit 512 (d' l)) (λ l. fit 512 (disk l))
unfolding file_size file_entry word first_cluster u16 find_name compare_filename normalize
    same_bytes take_base take_ext pad toupper fit cluster_to_lba
read_file_example =
    read_file_lem ram ram_reliable 3 1000 fs notes (file_entry notes 3 600) (2 ∷ []) (3 ∷ 4 ∷ []) 3
      (omega arith) (omega arith) fs-IsMounted small_volume-IsByteSized refl (omega arith)
      (omega arith) notes-IsChain notes-AllFit (omega arith)

abbrev some_data : Memory
some_data k = 65

write_file_refused_example :
    (d' : ℕ → List ℕ) × (write_file ram 2 fs (empty_txt ++ 0 ∷ []) some_data 10
      ≡ some (record fs { disk = d' }, false))
    × ◌≡◌ {A = ℕ → List ℕ} (λ l. fit 512 (d' l)) (λ l. fit 512 (disk l))
unfolding file_entry first_cluster u16 find_slot memcmp fit cluster_to_lba pad toupper
write_file_refused_example =
    write_file_refused ram ram_reliable 2 fs (2 ∷ []) empty_txt [] some_data 10 3 0
      (fit 512 root_sector) 1 (omega arith) fs-IsMounted (is_text-IsText empty_txt refl) refl
      (omega arith)

small_volume-IsLaidOut : IsLaidOut small_volume 65536
small_volume-IsLaidOut = record {
  sound = small_volume-IsSound;
  sized = small_volume-IsByteSized;
  behind = omega arith;
  room = omega arith;
  marks = omega arith;
}

three_used : fs_table 3 ≢ 0
unfolding word fit
three_used = omega arith

read_loop-write_loop_example :
    ((d : ℕ → List ℕ) × (write_loop ram 1201 some_data 1200 0 3 fs
        ≡ some (record fs { disk = d }, true))
      × IsReadBack ram ram_reliable some_data 1200 3 (record fs { disk = d }))
    ⊎ ((d : ℕ → List ℕ) × (write_loop ram 1201 some_data 1200 0 3 fs
          ≡ some (record fs { disk = d }, false))
        × IsExhausted ram ram_reliable fs d)
read_loop-write_loop_example =
    read_loop-write_loop ram ram_reliable 1201 some_data 1200 3 fs (omega arith) (omega arith)
      small_volume-IsLaidOut (omega arith) (omega arith) three_used
