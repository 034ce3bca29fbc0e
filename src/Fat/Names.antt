-- ===== src/Fat/Names.antt =====
-- File names in the 8.3 form of a directory entry: `fat32_convert_to_fat_name`, `compare_filename`
-- and `compare_names` of drivers/fat32.c, and the loops that kernel/shell.c has for the same job.
-- Strings are as in CString: the bytes from the pointer on, `none` for an access behind them.
pub mod Convert
pub mod Shell
pub mod Lookup
use mathlib.Core.Option
use package.ring_os.Prelude.{
  ℕ, zero, suc, ◌+◌, ◌-◌, ◌≡◌, Bool, true, false, ◌&&◌, ◌||◌, not, Option, none, some, List, [],
  ◌∷◌, ◌++◌, map, ltb, leb, ◌==◌, if◌then◌else◌, length, take, drop, replicate, min, get_or,
}
use package.ring_os.CString.{◌>>=◌, strlen, toupper}

-- Fill with spaces up to `n` bytes.
unfoldable pub pad : ℕ → List ℕ → List ℕ
pad n cs = cs ++ replicate (n - length cs) 32

-- The search for the first dot: the bytes before it, and the pointer behind it.
unfoldable pub split_dot : List ℕ → Option (List ℕ × Option (List ℕ))
split_dot [] = none
split_dot (c ∷ s) =
    if c == 0
    then some ([], none)
    else if c == b'.'
    then some ([], some s)
    else Option.map (λ (r : List ℕ × Option (List ℕ)). (c ∷ r.0, r.1)) (split_dot s)

-- The name is not a null pointer. `strlen` of the whole name is the length of its base where it
-- has no dot.
unfoldable pub convert_to_fat_name : List ℕ → Option (List ℕ)
convert_to_fat_name name = do
  r ← split_dot name
  let base = pad 8 (map toupper (take 8 r.0))
  elim r.1 [
    | none ↦ some (base ++ replicate 3 32)
    | some ext ↦ strlen ext >>= λ n. some (base ++ pad 3 (map toupper (take (min n 3) ext)))
  ]

-- `while (*s && *s != '.' && n < left)`, with the bytes in upper case: those copied, and the
-- pointer at which the loop stops.
unfoldable pub take_base : ℕ → List ℕ → Option (List ℕ × List ℕ)
take_base left [] = none
take_base zero (c ∷ s) = some ([], c ∷ s)
take_base (suc left) (c ∷ s) =
    let rest = take_base left s in
    if c == 0 || c == b'.'
    then some ([], c ∷ s)
    else Option.map (λ (r : List ℕ × List ℕ). (toupper c ∷ r.0, r.1)) rest

-- `while (*s && n < left)`. Where the count runs out first the driver does not read the byte.
unfoldable pub take_ext : ℕ → List ℕ → Option (List ℕ)
take_ext zero s = some []
take_ext (suc left) [] = none
take_ext (suc left) (c ∷ s) =
    let rest = take_ext left s in
    if c == 0 then some [] else Option.map (λ (r : List ℕ). toupper c ∷ r) rest

-- The first part of `compare_filename`: the bytes of a directory entry in normal form.
unfoldable pub normalize : List ℕ → Option (List ℕ)
normalize entry = do
  r ← take_base 8 entry
  let skip = if get_or r.1 0 0 == b'.' then drop 1 r.1 else r.1
  ext ← take_ext 3 skip
  some (pad 8 r.0 ++ pad 3 ext)

-- The comparison of the eleven bytes. `fat_name` has eleven bytes at least.
unfoldable pub same_bytes : List ℕ → List ℕ → Bool
same_bytes [] name = true
same_bytes (a ∷ r) [] = false
same_bytes (a ∷ r) (b ∷ bs) = a == b && same_bytes r bs

-- The debug output is off: `debug` is never set.
unfoldable pub compare_filename : List ℕ → List ℕ → Option Bool
compare_filename fat_name entry =
    Option.map (λ (n : List ℕ). same_bytes n fat_name) (normalize entry)

-- The inner loop of `compare_names`: only spaces are left of the `left` bytes.
unfoldable pub spaces_left : ℕ → List ℕ → Bool
spaces_left zero fat_name = true
spaces_left (suc left) [] = false
spaces_left (suc left) (a ∷ r) = a == 32 && spaces_left left r

-- `compare_names` from the byte on that has `left` bytes of the eleven behind it.
unfoldable pub compare_names_from : ℕ → List ℕ → List ℕ → Bool
compare_names_from zero fat_name dir_name = true
compare_names_from (suc left) [] dir_name = false
compare_names_from (suc left) (a ∷ r) [] = false
compare_names_from (suc left) (a ∷ r) (b ∷ bs) =
    let rest = compare_names_from left r bs in
    if b == 32 then spaces_left (suc left) (a ∷ r) else (toupper a == toupper b) && rest

unfoldable pub compare_names : List ℕ → List ℕ → Bool
compare_names = compare_names_from 11

-- `cmd_ed` and `cmd_cat` of kernel/shell.c, and `fat32_change_directory`: the base loop stops at
-- eight bytes, and the extension is copied only if the loop stopped at a dot.
unfoldable pub cat_name : List ℕ → Option (List ℕ)
cat_name name = do
  r ← take_base 8 name
  if get_or r.1 0 0 == b'.' && not (get_or r.1 1 0 == 0)
      then take_ext 3 (drop 1 r.1) >>= (λ ext. some (pad 8 r.0 ++ pad 3 ext))
      else some (pad 8 r.0 ++ replicate 3 32)

-- `cmd_exec` of kernel/shell.c: `name_len` counts up to the dot, however long the base is.
unfoldable pub exec_name : List ℕ → Option (List ℕ)
exec_name name = do
  r ← split_dot name
  let base = pad 8 (map toupper (take 8 r.0))
  elim r.1 [
    | none ↦ some (base ++ replicate 3 32)
    | some ext ↦
        if get_or ext 0 0 == 0
        then some (base ++ replicate 3 32)
        else take_ext 3 ext >>= λ e. some (base ++ pad 3 e)
  ]
