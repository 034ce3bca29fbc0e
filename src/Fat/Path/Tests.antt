-- ===== src/Fat/Path/Tests.antt =====
-- A volume as in Fat.Tests, whose root directory has one entry: a directory in cluster 3.
use ring_os.Prelude.{
  ℕ, ◌≡◌, refl, true, some, List, [], ◌∷◌, ◌++◌, arith, ◌==◌, if◌then◌else◌, replicate,
}
use ring_os.CString.{toupper}
use ring_os.CString.Compare.{is_text-IsText, IsText}
use ring_os.Block.Ram.{fit, ram, ram_reliable}
use ring_os.Fat.{Fs, Directory, cluster_to_lba}
use ring_os.Fat.Words.{word}
use ring_os.Fat.Dir.Create.{IsMounted}
use ring_os.Fat.Names.{
  pad, compare_names, compare_names_from, spaces_left, cat_name, take_base, take_ext,
}
use ring_os.Fat.Path.{is_root, full_path, parents_path, find_directory, change_directory}
use ring_os.Fat.Path.Stack.{IsConsistent}
use ring_os.Fat.Path.Change.{up-change_directory, up-change_directory_full}
use ring_os.Fat.Tests.{small_volume, small_volume-IsSound, table_bytes}

abbrev docs : List ℕ
docs = b'D' ∷ b'O' ∷ b'C' ∷ b'S' ∷ 32 ∷ 32 ∷ 32 ∷ 32 ∷ 32 ∷ 32 ∷ 32 ∷ []

abbrev docs_entry : List ℕ
docs_entry = docs ++ 0x10 ∷ replicate 14 0 ++ 3 ∷ replicate 5 0

abbrev disk : ℕ → List ℕ
disk l =
    if l == 1
    then table_bytes
    else if l == 2
    then table_bytes
    else if l == 3
    then docs_entry
    else []

abbrev root : Directory
root = record { cluster = 2; name = b'/' ∷ []; path = b'/' ∷ [] }

abbrev fs_with : List Directory → List ℕ → Fs (ℕ → List ℕ)
fs_with parents path = record {
  disk = disk;
  is_initialized = true;
  volume = small_volume;
  current = record { cluster = 2; name = b'/' ∷ []; path = path };
  parents = parents;
}

abbrev fs : Fs (ℕ → List ℕ)
fs = fs_with [] (b'/' ∷ [])

fs_with-IsMounted :
    (parents : List Directory) (path : List ℕ)
    → IsMounted ram ram_reliable (fs_with parents path) (2 ∷ [])
unfolding word fit cluster_to_lba
fs_with-IsMounted parents path = record {
  mounted = refl;
  sound = small_volume-IsSound;
  chain = (refl, omega arith, omega arith, omega arith, omega arith, omega arith);
  room = (omega arith, tt);
}

fs-IsConsistent : IsConsistent fs
unfolding full_path parents_path is_root
fs-IsConsistent = record { shown = refl; depth = omega arith; own_name = omega arith; names = tt }

-- `docs`
abbrev docs_text : List ℕ
docs_text = b'd' ∷ b'o' ∷ b'c' ∷ b's' ∷ []

docs_text-IsText : IsText docs_text
docs_text-IsText = is_text-IsText docs_text refl

docs_form : cat_name (docs_text ++ 0 ∷ []) ≡ some docs
unfolding cat_name take_base take_ext pad toupper
docs_form = refl

up-change_directory_example :
    (fs1 : Fs (ℕ → List ℕ)) × (d' : ℕ → List ℕ) × (change_directory ram 2 fs (docs_text ++ 0 ∷ [])
      ≡ some (fs1, true))
    × (change_directory ram 2 fs1 (b'.' ∷ b'.' ∷ 0 ∷ []) ≡ some (record fs { disk = d' }, true))
    × ◌≡◌ {A = ℕ → List ℕ} (λ l. fit 512 (d' l)) (λ l. fit 512 (disk l))
unfolding find_directory compare_names compare_names_from spaces_left toupper fit cluster_to_lba
up-change_directory_example =
    up-change_directory ram ram_reliable 2 fs (2 ∷ []) (omega arith)
      (fs_with-IsMounted [] (b'/' ∷ [])) docs_text [] [] docs docs_entry 3 docs_text-IsText (cc)
      (cc) (cc) docs_form refl fs-IsConsistent (omega arith)

abbrev full : Fs (ℕ → List ℕ)
full = fs_with (replicate 16 root) (b'/' ∷ [])

up-change_directory_full_example :
    (fs1 fs2 : Fs (ℕ → List ℕ)) × (change_directory ram 2 full (docs_text ++ 0 ∷ [])
      ≡ some (fs1, true))
    × (change_directory ram 2 fs1 (b'.' ∷ b'.' ∷ 0 ∷ []) ≡ some (fs2, true))
    × (fs2.current.cluster ≡ 2)
    × (fs2.parents ≡ replicate 15 root)
unfolding find_directory compare_names compare_names_from spaces_left toupper fit cluster_to_lba
up-change_directory_full_example =
    up-change_directory_full ram ram_reliable 2 full (2 ∷ []) (omega arith)
      (fs_with-IsMounted (replicate 16 root) (b'/' ∷ [])) docs_text [] [] docs docs_entry 3
      docs_text-IsText (cc) (cc) (cc) docs_form refl root (replicate 15 root) refl refl
