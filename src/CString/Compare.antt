-- ===== src/CString/Compare.antt =====
-- `strlen`, `strcmp` and `memcmp` against the texts and the blocks that they look at.
use ring_os.Prelude.{
  ℕ, zero, suc, ◌≤◌, ◌≡◌, ◌≢◌, ◌↔◌, refl, some, List, [], ◌∷◌, ◌++◌, arith, length, take, ℤ, pos,
  sub_ℕ, is_zero, negsuc, ◌==◌, Bool, true, false, not, ◌&&◌, Bool-cases, inl, inr,
}
use ring_os.CString.{strlen, strcmp, same_text, memcmp}

-- No byte of the text is the terminator.
abbrev pub IsText : List ℕ → Type 0
IsText [] = Unit
IsText (c ∷ cs) = (c ≢ 0) × IsText cs

abbrev pub is_text : List ℕ → Bool
is_text [] = true
is_text (c ∷ cs) = not (c == 0) && is_text cs

pub is_text-IsText : (t : List ℕ) → is_text t ≡ true → IsText t
is_text-IsText [] h = tt
is_text-IsText (c ∷ cs) h = (ground arith, is_text-IsText cs (ground arith))

-- `strlen` counts the bytes before the first terminator, whatever lies behind it.
pub strlen_text : (a rest : List ℕ) → IsText a → strlen (a ++ 0 ∷ rest) ≡ some (length a)
unfolding strlen
strlen_text [] rest t = refl
strlen_text (c ∷ a) rest t = ground (arith, strlen_text a rest t.1)

-- `strcmp` of two terminated texts reads no byte behind a terminator, and returns 0 exactly when
-- the texts are equal.
pub strcmp_zero_iff :
    (a b r s : List ℕ)
    → IsText a
    → IsText b
    → (z : ℤ) × (strcmp (a ++ 0 ∷ r) (b ++ 0 ∷ s) ≡ some z) × ((z ≡ pos 0) ↔ (a ≡ b))
unfolding strcmp
strcmp_zero_iff [] [] r s ta tb = (pos 0, refl, (λ _. refl, λ _. refl))
strcmp_zero_iff [] (d ∷ b) r s ta tb =
    (sub_ℕ 0 d, refl, (λ e. absurd (tb.0 (ground arith)), λ e. cc))
strcmp_zero_iff (c ∷ a) [] r s ta tb =
    (sub_ℕ c 0, ground arith, (λ e. absurd (ta.0 (ground arith)), λ e. cc))
strcmp_zero_iff (c ∷ a) (d ∷ b) r s ta tb = elim (Bool-cases (c == d)) [
  | inl e ↦
      let (z, run, iff) = strcmp_zero_iff a b r s ta.1 tb.1 in
      (z, ground arith, (λ h. ground (arith, iff.0 h), λ h. iff.1 (cc)))
  | inr e ↦ (sub_ℕ c d, ground arith, (λ h. ground arith, λ h. ground arith))
]

not_zero : (z : ℤ) → z ≢ pos 0 → is_zero z ≡ false
not_zero (pos zero) h = absurd (h refl)
not_zero (pos (suc n)) h = refl
not_zero (negsuc n) h = refl

-- A comparison of a text with a literal tells whether they are equal.
pub same_text_ne :
    (t u rest : List ℕ) → IsText t → IsText u → t ≢ u → same_text (t ++ 0 ∷ rest) u ≡ false
same_text_ne t u rest ht hu ne =
    let (z, run, iff) = strcmp_zero_iff t u rest [] ht hu in
    rw (run, same_text) (not_zero z (λ e. ne (iff.0 e)))

pub same_text_self : (t rest : List ℕ) → IsText t → same_text (t ++ 0 ∷ rest) t ≡ true
same_text_self t rest ht =
    let (z, run, iff) = strcmp_zero_iff t t rest [] ht ht in rw (run, iff.1 refl, same_text)

-- `memcmp` of two blocks that hold `n` bytes returns 0 exactly when these bytes are equal.
pub memcmp_zero_iff :
    (n : ℕ) (p q : List ℕ)
    → n ≤ length p
    → n ≤ length q
    → (z : ℤ) × (memcmp p q n ≡ some z) × ((z ≡ pos 0) ↔ (take n p ≡ take n q))
unfolding memcmp
memcmp_zero_iff zero p q hp hq = (pos 0, refl, (λ _. refl, λ _. refl))
memcmp_zero_iff (suc n) [] q hp hq = absurd (omega arith)
memcmp_zero_iff (suc n) (a ∷ p) [] hp hq = absurd (omega arith)
memcmp_zero_iff (suc n) (a ∷ p) (b ∷ q) hp hq = elim (Bool-cases (a == b)) [
  | inl e ↦
      let (z, run, iff) = memcmp_zero_iff n p q (omega arith) (omega arith) in
      (z, ground arith, (λ h. ground (arith, iff.0 h), λ h. iff.1 (cc)))
  | inr e ↦ (sub_ℕ a b, ground arith, (λ h. ground arith, λ h. ground arith))
]
