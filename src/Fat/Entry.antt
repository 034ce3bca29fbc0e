-- ===== src/Fat/Entry.antt =====
-- The fields of `fat32_dir_entry_t`, at their offsets in the packed structure.
use ring_os.Prelude.{ℕ, ◌+◌, ◌*◌, ◌/◌, ◌%◌, Bool, List, [], ◌∷◌, ◌++◌, ◌==◌, get_or}
use ring_os.Fat.Words.{word}

unfoldable pub u16 : List ℕ → ℕ → ℕ
u16 entry i = get_or entry i 0 + 256 * get_or entry (i + 1) 0

-- `first_cluster_high << 16 | first_cluster_low`
unfoldable pub first_cluster : List ℕ → ℕ
unfolding u16
first_cluster entry = u16 entry 20 * 65536 + u16 entry 26

unfoldable pub file_size : List ℕ → ℕ
unfolding word
file_size entry = word entry 7

-- `attributes & ATTR_DIRECTORY`
abbrev pub is_directory : List ℕ → Bool
is_directory entry = get_or entry 11 0 / 16 % 2 == 1

-- The entry that `fat32_write_file` builds.
unfoldable pub file_entry : List ℕ → ℕ → ℕ → List ℕ
file_entry name cluster size =
    name
    ++ 0x20
      ∷ 0
      ∷ 0
      ∷ 0
      ∷ 0
      ∷ 0
      ∷ 0
      ∷ 0
      ∷ 0
      ∷ (cluster / 65536 % 256)
      ∷ (cluster / 16777216 % 256)
      ∷ 0
      ∷ 0
      ∷ 0
      ∷ 0
      ∷ (cluster % 256)
      ∷ (cluster / 256 % 256)
      ∷ (size % 256)
      ∷ (size / 256 % 256)
      ∷ (size / 65536 % 256)
      ∷ (size / 16777216 % 256)
      ∷ []
