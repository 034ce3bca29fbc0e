-- ===== src/Fat/Names/Shell.antt =====
-- The shell's own conversions of a name against the driver's.
use ring_os.Prelude.{
  ℕ, zero, suc, ◌≤◌, ◌<◌, ◌≡◌, ◌≢◌, refl, ap, not, none, some, List, [], ◌∷◌, ◌++◌, map, arith,
  ◌==◌, if◌then◌else◌, length, take, replicate, get_or, Option-cases, ≢→==, inl, inr,
}
use ring_os.CString.{◌>>=◌, toupper}
use ring_os.CString.Compare.{IsText}
use ring_os.Fat.Names.{pad, take_base, take_ext, cat_name, exec_name, convert_to_fat_name}
use ring_os.Fat.Names.Convert.{
  base_of, ext_of, field, split_dot_lem, IsText-ext, convert_to_fat_name_lem,
}

module _ (rest : List ℕ) where
  pub take_ext_lem :
      (n : ℕ) (e : List ℕ) → IsText e → take_ext n (e ++ 0 ∷ rest) ≡ some (map toupper (take n e))
  unfolding take_ext
  take_ext_lem zero e h = refl
  take_ext_lem (suc n) [] h = refl
  take_ext_lem (suc n) (c ∷ e) h = ground (arith, take_ext_lem n e h.1)

  exec_tail :
      (base e : List ℕ)
      → IsText e
      → (if get_or (e ++ 0 ∷ rest) 0 0 == 0
          then some (base ++ replicate {A = ℕ} 3 32)
          else take_ext 3 (e ++ 0 ∷ rest) >>= (λ x. some (base ++ pad 3 x)))
        ≡ some (base ++ field 3 e)
  unfolding pad
  exec_tail base [] h = refl
  exec_tail base (c ∷ e) h = rw (≢→== c 0 h.0, take_ext_lem 3 (c ∷ e) h)

  -- `cmd_exec` makes the same eleven bytes of every name as `fat32_convert_to_fat_name`.
  pub exec_name-eq-convert :
      (t : List ℕ) → IsText t → exec_name (t ++ 0 ∷ rest) ≡ convert_to_fat_name (t ++ 0 ∷ rest)
  unfolding exec_name
  exec_name-eq-convert t h =
      rw (convert_to_fat_name_lem rest t h, split_dot_lem rest t h)
        (elim (Option-cases (ext_of t)) [
          | inl no_ext ↦ rw no_ext (unfold pad in refl)
          | inr (e, dot) ↦ rw dot (exec_tail (field 8 (base_of t)) e (IsText-ext t e h dot))
        ])

  -- Where the base loop stops if it is not the count that ends it: at the dot or the terminator.
  abbrev stop : List ℕ → List ℕ
  stop [] = 0 ∷ rest
  stop (c ∷ t) = if c == b'.' then c ∷ t ++ 0 ∷ rest else stop t

  stop_no_ext : (t : List ℕ) → ext_of t ≡ none → stop t ≡ 0 ∷ rest
  stop_no_ext [] h = refl
  stop_no_ext (c ∷ t) h = ground (arith, stop_no_ext t)

  stop_ext : (t e : List ℕ) → ext_of t ≡ some e → stop t ≡ b'.' ∷ (e ++ 0 ∷ rest)
  stop_ext [] e h = cc
  stop_ext (c ∷ t) e h = ground (arith, stop_ext t e)

  pub take_base_short :
      (n : ℕ) (t : List ℕ)
      → IsText t
      → length (base_of t) ≤ n
      → take_base n (t ++ 0 ∷ rest) ≡ some (map toupper (base_of t), stop t)
  unfolding take_base
  take_base_short zero [] h le = refl
  take_base_short zero (c ∷ t) h le = ground arith
  take_base_short (suc n) [] h le = refl
  take_base_short (suc n) (c ∷ t) h le = ground (arith, take_base_short n t h.1)

  -- The count ends the loop before a byte of the base.
  take_base_long :
      (n : ℕ) (t : List ℕ)
      → IsText t
      → n < length (base_of t)
      → (c : ℕ) × (s : List ℕ) × (take_base n (t ++ 0 ∷ rest)
          ≡ some (map toupper (take n (base_of t)), c ∷ s))
        × (c ≢ b'.')
  unfolding take_base
  take_base_long n [] h lt = absurd (omega arith)
  take_base_long zero (c ∷ t) h lt = (c, t ++ 0 ∷ rest, ground arith, ground arith)
  take_base_long (suc n) (c ∷ t) h lt =
      let (d, s, run, ne) = take_base_long n t h.1 (ground arith) in (d, s, ground arith, ne)

  cat_tail :
      (base e : List ℕ)
      → IsText e
      → (if not (get_or (e ++ 0 ∷ rest) 0 0 == 0)
          then take_ext 3 (e ++ 0 ∷ rest) >>= (λ x. some (base ++ pad 3 x))
          else some (base ++ replicate {A = ℕ} 3 32))
        ≡ some (base ++ field 3 e)
  unfolding pad
  cat_tail base [] h = refl
  cat_tail base (c ∷ e) h = rw (≢→== c 0 h.0, take_ext_lem 3 (c ∷ e) h)

  take_all : (n : ℕ) (cs : List ℕ) → length cs ≤ n → take n cs ≡ cs
  take_all zero [] h = refl
  take_all (suc n) [] h = refl
  take_all zero (c ∷ cs) h = absurd (omega arith)
  take_all (suc n) (c ∷ cs) h = ap (λ l. c ∷ l) (take_all n cs (omega arith))

  -- For a name with a terminator and a base of at most eight bytes `cmd_ed`, `cmd_cat` and `fat32_change_directory` make the
  -- same eleven bytes as `fat32_convert_to_fat_name`.
  pub cat_name-eq-convert :
      (t : List ℕ)
      → IsText t
      → length (base_of t) ≤ 8
      → cat_name (t ++ 0 ∷ rest) ≡ convert_to_fat_name (t ++ 0 ∷ rest)
  unfolding cat_name
  cat_name-eq-convert t h le =
      rw (convert_to_fat_name_lem rest t h, take_base_short 8 t h le, take_all 8 (base_of t) le)
        (elim (Option-cases (ext_of t)) [
          | inl no_ext ↦ rw (stop_no_ext t no_ext, no_ext) (unfold pad in refl)
          | inr (e, dot) ↦
              rw (stop_ext t e dot, dot)
                (cat_tail (pad 8 (map toupper (base_of t))) e (IsText-ext t e h dot))
        ])

  -- For a name with a terminator and a base of more than eight bytes `cmd_ed`, `cmd_cat` and
  -- `fat32_change_directory` make the first eight bytes of the base, in upper case, and three
  -- spaces: an extension is dropped.
  pub cat_name_long :
      (t : List ℕ)
      → IsText t
      → 8 < length (base_of t)
      → cat_name (t ++ 0 ∷ rest) ≡ some (field 8 (base_of t) ++ replicate 3 32)
  unfolding cat_name
  cat_name_long t h lt = let (c, s, run, ne) = take_base_long 8 t h lt in rw (run, ≢→== c b'.' ne)
