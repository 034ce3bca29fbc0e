-- ===== src/Fat/Names/Convert.antt =====
-- `fat32_convert_to_fat_name` against the 8.3 form of a name.
use mathlib.Core.Option
use ring_os.Prelude.{
  ℕ, zero, suc, ◌-◌, ◌≡◌, refl, ap, Option, none, some, List, [], ◌∷◌, ◌++◌, map, arith, ◌==◌,
  if◌then◌else◌, length, take, replicate, min, length-append, length-replicate, length-map,
  length-take, Bool-cases, Option-cases, inl, inr,
}
use ring_os.CString.{toupper}
use ring_os.CString.Compare.{IsText, strlen_text}
use ring_os.Fat.Names.{pad, split_dot, convert_to_fat_name}

-- The base of a name, and its extension: what stands before and behind its first dot.
abbrev pub base_of : List ℕ → List ℕ
base_of [] = []
base_of (c ∷ t) = if c == b'.' then [] else c ∷ base_of t

abbrev pub ext_of : List ℕ → Option (List ℕ)
ext_of [] = none
ext_of (c ∷ t) = if c == b'.' then some t else ext_of t

abbrev pub field : ℕ → List ℕ → List ℕ
field n cs = pad n (map toupper (take n cs))

-- Eight bytes of the base and three of the extension, in upper case and filled with spaces.
abbrev pub fat_name : List ℕ → List ℕ
fat_name t = field 8 (base_of t) ++ field 3 (Option.get_or (ext_of t) [])

pub length-field : (n : ℕ) (cs : List ℕ) → length (field n cs) ≡ n
unfolding pad
length-field n cs =
    let p = map toupper (take n cs) in
    omega (
      arith,
      length-append p (replicate {A = ℕ} (n - length p) 32),
      length-replicate {A = ℕ} (n - length p) 32,
      length-map (take n cs) toupper,
      length-take n cs,
    )

pub length-fat_name : (t : List ℕ) → length (fat_name t) ≡ 11
length-fat_name t = omega (
  arith,
  length-append (field 8 (base_of t)) (field 3 (Option.get_or (ext_of t) [])),
  length-field 8 (base_of t),
  length-field 3 (Option.get_or (ext_of t) []),
)

pub IsText-ext : (t e : List ℕ) → IsText t → ext_of t ≡ some e → IsText e
IsText-ext [] e h p = cc
IsText-ext (c ∷ t) e h p = elim (Bool-cases (c == b'.')) [
  | inl dot ↦ let same : t ≡ e = ground arith in rw (← same) h.1
  | inr other ↦ IsText-ext t e h.1 (rw other at p)
]

module _ (rest : List ℕ) where
  pub split_dot_lem :
      (t : List ℕ)
      → IsText t
      → split_dot (t ++ 0 ∷ rest)
        ≡ some (base_of t, Option.map (λ (e : List ℕ). e ++ 0 ∷ rest) (ext_of t))
  unfolding split_dot
  split_dot_lem [] h = refl
  split_dot_lem (c ∷ t) h = ground (arith, split_dot_lem t h.1)

  take-min : (n : ℕ) (e : List ℕ) → take (min (length e) n) (e ++ 0 ∷ rest) ≡ take n e
  take-min zero e = let m : min (length e) 0 ≡ 0 = omega arith in rw m
  take-min (suc n) [] = let m : min 0 (suc n) ≡ 0 = omega arith in rw m
  take-min (suc n) (c ∷ e) =
      let m : min (suc (length e)) (suc n) ≡ suc (min (length e) n) = omega arith in
      rw m (ap (λ l. c ∷ l) (take-min n e))

  -- For every name with a terminator `fat32_convert_to_fat_name` reads no byte behind it and
  -- writes the eleven bytes of the 8.3 form.
  pub convert_to_fat_name_lem :
      (t : List ℕ) → IsText t → convert_to_fat_name (t ++ 0 ∷ rest) ≡ some (fat_name t)
  unfolding convert_to_fat_name
  convert_to_fat_name_lem t h = rw (split_dot_lem t h) (elim (Option-cases (ext_of t)) [
    | inl no_ext ↦ rw no_ext (unfold pad in refl)
    | inr (e, dot) ↦ rw (dot, strlen_text e rest (IsText-ext t e h dot), take-min 3 e)
  ])
