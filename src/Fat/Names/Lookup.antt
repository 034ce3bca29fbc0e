-- ===== src/Fat/Names/Lookup.antt =====
-- The names that the driver writes are found again: `compare_filename` on an entry whose name is
-- the 8.3 form of a file name.
use mathlib.Core.Option
use ring_os.Prelude.{
  ℕ, zero, suc, ◌-◌, ◌≡◌, ◌≢◌, refl, ap, true, some, List, [], ◌∷◌, ◌++◌, map, arith, ◌==◌, length,
  take, replicate, get_or, Bool-cases, Option-cases, append_assoc, append-nil, ==_refl, ≢→==, inl,
  inr,
}
use ring_os.CString.{toupper}
use ring_os.CString.Copy.{toupper_idem}
use ring_os.CString.Compare.{IsText}
use ring_os.Fat.Names.{pad, take_base, take_ext, normalize, same_bytes, compare_filename}
use ring_os.Fat.Names.Convert.{base_of, ext_of, field, fat_name, length-field, IsText-ext}

-- Bytes that the normal form keeps.
abbrev IsUpper : List ℕ → Type 0
IsUpper [] = Unit
IsUpper (c ∷ cs) = (c ≢ 0) × (toupper c ≡ c) × IsUpper cs

abbrev HasNoDot : List ℕ → Type 0
HasNoDot [] = Unit
HasNoDot (c ∷ cs) = (c ≢ b'.') × HasNoDot cs

toupper_keeps : (c : ℕ) → (c ≢ 0 → toupper c ≢ 0) × (c ≢ b'.' → toupper c ≢ b'.')
unfolding toupper
toupper_keeps c = (λ h. ground arith, λ h. ground arith)

toupper_space : toupper 32 ≡ 32
unfolding toupper
toupper_space = refl

base_of-IsText : (t : List ℕ) → IsText t → IsText (base_of t)
base_of-IsText [] h = tt
base_of-IsText (c ∷ t) h = elim (Bool-cases (c == b'.')) [
  | inl e ↦ rw e tt
  | inr e ↦ rw e (h.0, base_of-IsText t h.1)
]

base_of-HasNoDot : (t : List ℕ) → HasNoDot (base_of t)
base_of-HasNoDot [] = tt
base_of-HasNoDot (c ∷ t) = elim (Bool-cases (c == b'.')) [
  | inl e ↦ rw e tt
  | inr e ↦ rw e (ground arith, base_of-HasNoDot t)
]

IsUpper-spaces : (n : ℕ) → IsUpper (replicate n 32)
IsUpper-spaces zero = tt
IsUpper-spaces (suc n) = (omega arith, toupper_space, IsUpper-spaces n)

HasNoDot-spaces : (n : ℕ) → HasNoDot (replicate n 32)
HasNoDot-spaces zero = tt
HasNoDot-spaces (suc n) = (omega arith, HasNoDot-spaces n)

IsUpper-append : (xs ys : List ℕ) → IsUpper xs → IsUpper ys → IsUpper (xs ++ ys)
IsUpper-append [] ys h k = k
IsUpper-append (x ∷ xs) ys h k = (h.0, h.1, IsUpper-append xs ys h.2 k)

HasNoDot-append : (xs ys : List ℕ) → HasNoDot xs → HasNoDot ys → HasNoDot (xs ++ ys)
HasNoDot-append [] ys h k = k
HasNoDot-append (x ∷ xs) ys h k = (h.0, HasNoDot-append xs ys h.1 k)

IsUpper-map : (n : ℕ) (cs : List ℕ) → IsText cs → IsUpper (map toupper (take n cs))
IsUpper-map zero cs h = tt
IsUpper-map (suc n) [] h = tt
IsUpper-map (suc n) (c ∷ cs) h = ((toupper_keeps c).0 h.0, toupper_idem c, IsUpper-map n cs h.1)

HasNoDot-map : (n : ℕ) (cs : List ℕ) → HasNoDot cs → HasNoDot (map toupper (take n cs))
HasNoDot-map zero cs h = tt
HasNoDot-map (suc n) [] h = tt
HasNoDot-map (suc n) (c ∷ cs) h = ((toupper_keeps c).1 h.0, HasNoDot-map n cs h.1)

IsUpper-field : (n : ℕ) (cs : List ℕ) → IsText cs → IsUpper (field n cs)
unfolding pad
IsUpper-field n cs h = IsUpper-append _ _ (IsUpper-map n cs h) (IsUpper-spaces _)

HasNoDot-field : (n : ℕ) (cs : List ℕ) → HasNoDot cs → HasNoDot (field n cs)
unfolding pad
HasNoDot-field n cs h = HasNoDot-append _ _ (HasNoDot-map n cs h) (HasNoDot-spaces _)

take_base_full :
    (cs : List ℕ) (c : ℕ) (s : List ℕ)
    → IsUpper cs
    → HasNoDot cs
    → take_base (length cs) (cs ++ c ∷ s) ≡ some (cs, c ∷ s)
unfolding take_base
take_base_full [] c s h k = refl
take_base_full (d ∷ cs) c s h k = ground (arith, take_base_full cs c s h.2 k.1)

take_ext_full : (cs s : List ℕ) → IsUpper cs → take_ext (length cs) (cs ++ s) ≡ some cs
unfolding take_ext
take_ext_full [] s h = refl
take_ext_full (d ∷ cs) s h = ground (arith, take_ext_full cs s h.2)

pad_full : (cs : List ℕ) → pad (length cs) cs ≡ cs
unfolding pad
pad_full cs = let e : length cs - length cs ≡ 0 = omega arith in rw e (append-nil cs)

same_bytes_prefix : (cs s : List ℕ) → same_bytes cs (cs ++ s) ≡ true
unfolding same_bytes
same_bytes_prefix [] s = refl
same_bytes_prefix (c ∷ cs) s = rw (==_refl c, same_bytes_prefix cs s)

-- The first byte of the extension field is no dot.
abbrev pub NoDoubleDot : List ℕ → Type 0
NoDoubleDot t = get_or (field 3 (Option.get_or (ext_of t) [])) 0 0 ≢ b'.'

ext-IsText : (t : List ℕ) → IsText t → IsText (Option.get_or (ext_of t) [])
ext-IsText t h = elim (Option-cases (ext_of t)) [
  | inl e ↦ rw e tt
  | inr (x, e) ↦ rw e (IsText-ext t x h e)
]

-- Eight bytes without a dot, then three of which the first is no dot, are in normal form.
normalize_parts :
    (b x s : List ℕ)
    → length b ≡ 8
    → length x ≡ 3
    → IsUpper b
    → HasNoDot b
    → IsUpper x
    → get_or x 0 0 ≢ b'.'
    → normalize ((b ++ x) ++ s) ≡ some (b ++ x)
unfolding normalize
normalize_parts b [] s lb lx ub db ux ok = absurd (omega arith)
normalize_parts b (c ∷ e) s lb lx ub db ux ok =
    let base = take_base_full b c (e ++ s) ub db in
    let ext = take_ext_full (c ∷ e) s ux in
    let pb = pad_full b in
    let px = pad_full (c ∷ e) in
    rw (
      append_assoc b (c ∷ e) s,
      rw lb at base,
      ≢→== c b'.' ok,
      rw lx at ext,
      rw lb at pb,
      rw lx at px,
    )

-- An entry that starts with the 8.3 form of a name is in normal form.
pub normalize-fat_name :
    (t s : List ℕ) → IsText t → NoDoubleDot t → normalize (fat_name t ++ s) ≡ some (fat_name t)
normalize-fat_name t s h ok =
    let e = Option.get_or (ext_of t) [] in
    normalize_parts (field 8 (base_of t)) (field 3 e) s (length-field 8 (base_of t))
      (length-field 3 e) (IsUpper-field 8 (base_of t) (base_of-IsText t h))
      (HasNoDot-field 8 (base_of t) (base_of-HasNoDot t)) (IsUpper-field 3 e (ext-IsText t h)) ok

-- `compare_filename` accepts the 8.3 form of a name against an entry that holds it, whatever
-- bytes of the entry follow, if the name has no dot right behind its first one.
pub compare_filename_lem :
    (t s s' : List ℕ)
    → IsText t
    → NoDoubleDot t
    → compare_filename (fat_name t ++ s) (fat_name t ++ s') ≡ some true
unfolding compare_filename
compare_filename_lem t s s' h ok =
    rw (normalize-fat_name t s' h ok) (ap some (same_bytes_prefix (fat_name t) s))
