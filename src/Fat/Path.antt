-- ===== src/Fat/Path.antt =====
-- `fat32_change_directory` and `update_path`: the current directory, the stack of its parents and
-- the path that is shown.
pub mod Stack
pub mod Change
mod Tests
use package.ring_os.Prelude.{
  ℕ, zero, suc, ◌+◌, ◌*◌, ◌%◌, Bool, true, false, ◌&&◌, ◌||◌, not, Option, none, some, List, [],
  ◌∷◌, ◌++◌, ltb, ◌==◌, if◌then◌else◌, take, drop, length, get_or,
}
use package.ring_os.CString.{same_text}
use package.ring_os.Block.{BlockDevice}
use package.ring_os.Fat.{Directory, Fs}
use package.ring_os.Fat.Entry.{first_cluster, is_directory}
use package.ring_os.Fat.Names.{compare_names, cat_name}
use package.ring_os.Fat.Search.{search_clusters}

-- The bytes of an array up to a terminator.
unfoldable pub c_string : List ℕ → List ℕ
c_string [] = []
c_string (c ∷ cs) = if c == 0 then [] else c ∷ c_string cs

-- The loop that trims a name of eleven bytes at the first space.
unfoldable pub trim : ℕ → List ℕ → List ℕ
trim zero name = []
trim (suc left) [] = []
trim (suc left) (c ∷ cs) = if c == 32 then [] else c ∷ trim left cs

-- `strcmp(text, "/") == 0`
unfoldable pub is_root : List ℕ → Bool
is_root (c ∷ []) = c == b'/'
is_root text = false

-- A round of the loop of `update_path`.
unfoldable pub add_name : List ℕ → List ℕ → List ℕ
add_name path name = (if is_root path then path else path ++ b'/' ∷ []) ++ trim 11 name

-- The loop, which starts at the oldest parent.
unfoldable pub parents_path : List Directory → List ℕ
parents_path [] = b'/' ∷ []
parents_path (d ∷ older) = add_name (parents_path older) d.name

unfoldable pub full_path : List Directory → List ℕ → List ℕ
full_path parents name =
    if is_root name then parents_path parents else add_name (parents_path parents) name

unfoldable pub update_path : {S : Type 0} → Fs S → Fs S
update_path fs = record fs {
  current = record {
    cluster = fs.current.cluster;
    name = fs.current.name;
    path = full_path fs.parents fs.current.name;
  };
}

-- The loop over the entries of a sector, with `left` to go: `some none` is the end mark.
unfoldable pub find_directory : List ℕ → ℕ → List ℕ → Option (Option (List ℕ))
find_directory fat_name zero buffer = none
find_directory fat_name (suc left) buffer =
    let rest = find_directory fat_name left (drop 32 buffer) in
    if get_or buffer 0 0 == 0
    then some none
    else if get_or buffer 0 0 == 0xE5 || get_or buffer 11 0 == 0x08 || not (is_directory buffer)
    then rest
    else if compare_names fat_name buffer
    then some (some (take 32 buffer))
    else rest

-- `if (directory_depth < 16) parent_directories[directory_depth++] = current_directory`
unfoldable pub push_parent : Directory → List Directory → List Directory
push_parent d parents = if ltb (length parents) 16 then d ∷ parents else parents

-- The directory that was found becomes the current one.
unfoldable pub enter : {S : Type 0} → List ℕ → Fs S → Fs S
enter entry fs = update_path (record fs {
  parents = push_parent fs.current fs.parents;
  current = record {
    cluster = first_cluster entry;
    name = c_string (take 11 entry);
    path = fs.current.path;
  };
})

-- `..`
unfoldable pub leave : {S : Type 0} → Fs S → List Directory → Fs S × Bool
leave fs [] = (fs, false)
leave fs (d ∷ older) = (update_path (record fs { parents = older; current = d }), true)

unfoldable pub to_root : {S : Type 0} → Fs S → Fs S
to_root fs = update_path (record fs {
  parents = [];
  current = record { cluster = fs.volume.root_cluster; name = b'/' ∷ []; path = fs.current.path };
})

-- What the search returned.
unfoldable pub enter_found : {S : Type 0} → Fs S × Option (ℕ × Option (List ℕ)) → Fs S × Bool
enter_found (fs, none) = (fs, false)
enter_found (fs, some (lba, none)) = (fs, false)
enter_found (fs, some (lba, some entry)) = (enter entry fs, true)

module _ (dev : BlockDevice) where
  -- The rest of the function, for a name in the 8.3 form.
  unfoldable pub find_and_enter : ℕ → Fs dev.State → List ℕ → Option (Fs dev.State × Bool)
  find_and_enter fuel fs fat_name =
      elim (search_clusters (find_directory fat_name 16) dev true fuel fs fs.current.cluster) [
        | none ↦ none
        | some r ↦ some (enter_found r)
      ]

  -- `dirname` has a terminator; `none` means that it has none, or that the fuel ran out.
  unfoldable pub go_to : ℕ → Fs dev.State → List ℕ → Option (Fs dev.State × Bool)
  go_to fuel fs dirname =
      if same_text dirname (b'/' ∷ [])
      then some (to_root fs, true)
      else if same_text dirname (b'.' ∷ b'.' ∷ [])
      then some (leave fs fs.parents)
      else if same_text dirname (b'.' ∷ [])
      then some (fs, true)
      else elim (cat_name dirname) [ none ↦ none | some fat_name ↦ find_and_enter fuel fs fat_name ]

  unfoldable pub change_directory : ℕ → Fs dev.State → List ℕ → Option (Fs dev.State × Bool)
  change_directory fuel fs dirname =
      if fs.is_initialized then go_to fuel fs dirname else some (fs, false)
