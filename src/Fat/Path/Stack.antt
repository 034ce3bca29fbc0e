-- ===== src/Fat/Path/Stack.antt =====
-- The stack of parents and the path, apart from the device.
use ring_os.Prelude.{
  ℕ, zero, suc, ◌+◌, ◌*◌, ◌≤◌, ◌<◌, ◌≡◌, refl, sym, ap, ◌∙◌, Bool, true, false, List, [], ◌∷◌, ◌++◌,
  arith, ltb, length, take, length-append, length-take, Bool-cases, inl, inr, lt→ltb,
}
use ring_os.Fat.{Directory, Fs}
use ring_os.Fat.Path.{
  c_string, trim, is_root, add_name, parents_path, full_path, update_path, push_parent, enter,
  leave, to_root,
}

abbrev pub AllShort : List Directory → Type 0
AllShort [] = Unit
AllShort (d ∷ ds) = (length d.name ≤ 11) × AllShort ds

-- The path is that of the stack, the stack fits into `parent_directories`, and each name into its
-- array.
pub record IsConsistent {S : Type 0} (fs : Fs S) : Type 0 where
  pub shown : fs.current.path ≡ full_path fs.parents fs.current.name
  pub depth : length fs.parents ≤ 16
  pub own_name : length fs.current.name ≤ 11
  pub names : AllShort fs.parents

c_string-le : (cs : List ℕ) → length (c_string cs) ≤ length cs
unfolding c_string
c_string-le [] = omega arith
c_string-le (c ∷ cs) = ground (arith, c_string-le cs)

trim-le : (n : ℕ) (cs : List ℕ) → length (trim n cs) ≤ n
unfolding trim
trim-le zero cs = omega arith
trim-le (suc n) [] = omega arith
trim-le (suc n) (c ∷ cs) = ground (arith, trim-le n cs)

entry_name-le : (entry : List ℕ) → length (c_string (take 11 entry)) ≤ 11
entry_name-le entry = omega (arith, c_string-le (take 11 entry), length-take 11 entry)

add_name-le : (path name : List ℕ) → length (add_name path name) ≤ length path + 12
unfolding add_name
add_name-le path name = elim (Bool-cases (is_root path)) [
  | inl h ↦ rw h (omega (arith, length-append path (trim 11 name), trim-le 11 name))
  | inr h ↦ rw h (
      omega (
        arith,
        length-append (path ++ b'/' ∷ []) (trim 11 name),
        length-append path (b'/' ∷ []),
        trim-le 11 name,
      ))
]

parents_path-le : (ds : List Directory) → length (parents_path ds) ≤ 12 * length ds + 1
unfolding parents_path
parents_path-le [] = omega arith
parents_path-le (d ∷ ds) = omega (arith, parents_path-le ds, add_name-le (parents_path ds) d.name)

-- In a consistent state the path fits into its array with its terminator.
pub path_fits : {S : Type 0} (fs : Fs S) → IsConsistent fs → length fs.current.path < 256
unfolding full_path
path_fits fs v = elim (Bool-cases (is_root fs.current.name)) [
  | inl h ↦
      let e : fs.current.path ≡ parents_path fs.parents = v.shown ∙ rw h in
      omega (arith, ap length e, parents_path-le fs.parents, v.depth)
  | inr h ↦
      let e : fs.current.path ≡ add_name (parents_path fs.parents) fs.current.name =
        v.shown ∙ rw h in
      omega (
        arith,
        ap length e,
        add_name-le (parents_path fs.parents) fs.current.name,
        parents_path-le fs.parents,
        v.depth,
      )
]

-- A state is consistent behind `update_path` if its stack and its names fit.
update_path-IsConsistent :
    {S : Type 0} (fs : Fs S)
    → length fs.parents ≤ 16
    → length fs.current.name ≤ 11
    → AllShort fs.parents
    → IsConsistent (update_path fs)
unfolding update_path
update_path-IsConsistent fs depth own names = record {
  shown = refl;
  depth = depth;
  own_name = own;
  names = names;
}

push_parent-le :
    (d : Directory) (ds : List Directory) → length ds ≤ 16 → length (push_parent d ds) ≤ 16
unfolding push_parent
push_parent-le d ds h = ground arith

push_parent-AllShort :
    (d : Directory) (ds : List Directory)
    → length d.name ≤ 11
    → AllShort ds
    → AllShort (push_parent d ds)
unfolding push_parent
push_parent-AllShort d ds h hs = elim (Bool-cases (ltb (length ds) 16)) [
  | inl e ↦ rw e (h, hs)
  | inr e ↦ rw e hs
]

pub enter-IsConsistent :
    {S : Type 0} (entry : List ℕ) (fs : Fs S) → IsConsistent fs → IsConsistent (enter entry fs)
unfolding enter
enter-IsConsistent entry fs v =
    update_path-IsConsistent _ (push_parent-le fs.current fs.parents v.depth) (entry_name-le entry)
      (push_parent-AllShort fs.current fs.parents v.own_name v.names)

pub leave-IsConsistent :
    {S : Type 0} (fs : Fs S) (ds : List Directory)
    → IsConsistent fs
    → length ds ≤ 16
    → AllShort ds
    → IsConsistent (leave fs ds).0
unfolding leave
leave-IsConsistent fs [] v depth names = v
leave-IsConsistent fs (d ∷ ds) v depth names =
    update_path-IsConsistent (record fs { parents = ds; current = d }) (omega arith) names.0 names.1

pub to_root-IsConsistent : {S : Type 0} (fs : Fs S) → IsConsistent (to_root fs)
unfolding to_root
to_root-IsConsistent fs = update_path-IsConsistent _ (omega arith) (omega arith) tt

pub enter_initialized :
    {S : Type 0} (entry : List ℕ) (fs : Fs S) → (enter entry fs).is_initialized ≡ fs.is_initialized
unfolding enter update_path
enter_initialized entry fs = refl

-- With room on the stack, leaving undoes entering.
pub leave-enter :
    {S : Type 0} (entry : List ℕ) (fs : Fs S)
    → IsConsistent fs
    → length fs.parents < 16
    → leave (enter entry fs) (enter entry fs).parents ≡ (fs, true)
unfolding leave enter update_path push_parent
leave-enter {S} entry fs v room = rw (lt→ltb _ _ room) (
    ap
      (λ (p : List ℕ).
        let r : Fs S × Bool = (
          record fs {
            current = record { cluster = fs.current.cluster; name = fs.current.name; path = p };
          },
          true,
        ) in
        r)
      (sym v.shown))

-- With a full stack leaving goes to the parent of the directory that was left by entering.
pub leave-enter_full :
    {S : Type 0} (entry : List ℕ) (fs : Fs S) (d : Directory) (older : List Directory)
    → fs.parents ≡ d ∷ older
    → length fs.parents ≡ 16
    → let r = leave (enter entry fs) (enter entry fs).parents in
      (r.1 ≡ true) × (r.0.current.cluster ≡ d.cluster) × (r.0.parents ≡ older)
unfolding leave enter update_path push_parent
leave-enter_full entry fs d older e full =
    let h : ltb (length fs.parents) 16 ≡ false = ground arith in
    let p : push_parent fs.current fs.parents ≡ d ∷ older = rw h e in rw p (refl, refl, refl)

-- From the root, with the root as the only parent then, the path begins with three slashes.
pub enter_from_root :
    {S : Type 0} (entry : List ℕ) (fs : Fs S)
    → fs.parents ≡ []
    → fs.current.name ≡ b'/' ∷ []
    → is_root (c_string (take 11 entry)) ≡ false
    → (enter entry fs).current.path ≡ b'/' ∷ b'/' ∷ b'/' ∷ trim 11 (c_string (take 11 entry))
unfolding enter update_path push_parent full_path parents_path add_name is_root trim
enter_from_root entry fs e n h =
    let pushed : push_parent fs.current fs.parents ≡ fs.current ∷ [] =
      ap (push_parent fs.current) e in
    rw (pushed, h, n)
