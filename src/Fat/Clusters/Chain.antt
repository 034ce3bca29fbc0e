-- ===== src/Fat/Clusters/Chain.antt =====
-- The clusters that a file or a directory occupies, as the table links them.
use ring_os.Prelude.{
  ℕ, suc, ◌%◌, ◌^◌, ◌≤◌, ◌<◌, ◌≡◌, ◌≢◌, refl, sym, ap, ◌∙◌, Bool, true, false, ◌||◌, List, [], ◌∷◌,
  arith, length, ◌==◌, Bool-cases, ==_iff, inl, inr,
}
use ring_os.Fat.{fat32_eoc, bad_cluster}

-- `cs` lists the clusters from `c` on. Each has an entry, each entry but the last names the next
-- cluster, and the last is an end mark. None is reserved
-- or marked as bad.
abbrev pub IsChain : (ℕ → ℕ) → ℕ → ℕ → List ℕ → Type 0
IsChain t limit c [] = fat32_eoc ≤ c
IsChain t limit c (x ∷ cs) =
    (x ≡ c)
    × (2 ≤ c)
    × (c < limit)
    × (c < fat32_eoc)
    × (t c % 2 ^ 28 ≢ bad_cluster)
    × IsChain t limit (t c % 2 ^ 28) cs

abbrev pub is_in : ℕ → List ℕ → Bool
is_in c [] = false
is_in c (x ∷ cs) = x == c || is_in c cs

module _ (t : ℕ → ℕ) (limit : ℕ) where
  length_unique :
      (c : ℕ) (xs ys : List ℕ) → IsChain t limit c xs → IsChain t limit c ys → length xs ≡ length ys
  length_unique c [] [] h k = refl
  length_unique c [] (y ∷ ys) h k = absurd (omega arith)
  length_unique c (x ∷ xs) [] h k = absurd (omega arith)
  length_unique c (x ∷ xs) (y ∷ ys) h k = ap suc (length_unique (t c % 2 ^ 28) xs ys h.5 k.5)

  not_in_shorter :
      (c e : ℕ) (zs ys : List ℕ)
      → IsChain t limit c zs
      → IsChain t limit e ys
      → length ys < length zs
      → is_in c ys ≡ false
  not_in_shorter c e zs [] h k lt = refl
  not_in_shorter c e zs (y ∷ ys) h k lt = elim (Bool-cases (y == c)) [
    | inl same ↦
        let e≡c : e ≡ c = sym k.0 ∙ (==_iff y c).0 same in
        let one = length_unique c (y ∷ ys) zs (rw e≡c at k) h in absurd (omega (arith, one))
    | inr other ↦ rw other (not_in_shorter c (t e % 2 ^ 28) zs ys h k.5 (omega arith))
  ]

  -- A chain that ends does not come back to its first cluster.
  pub head_not_in_tail : (c x : ℕ) (cs : List ℕ) → IsChain t limit c (x ∷ cs) → is_in c cs ≡ false
  head_not_in_tail c x cs h = not_in_shorter c (t c % 2 ^ 28) (x ∷ cs) cs h h.5 (omega arith)

-- A chain outside which the table changes is still a chain.
pub IsChain-change :
    (t t' : ℕ → ℕ) (limit c : ℕ) (cs : List ℕ)
    → ((d : ℕ) → d < limit → is_in d cs ≡ true → t' d ≡ t d)
    → IsChain t limit c cs
    → IsChain t' limit c cs
IsChain-change t t' limit c [] same h = h
IsChain-change t t' limit c (x ∷ cs) same (e, valid, lt, below, good, rest) =
    let at : t' c ≡ t c = same c lt (ground arith) in
    (
      e,
      valid,
      lt,
      below,
      rw at good,
      rw at (IsChain-change t t' limit (t c % 2 ^ 28) cs (λ d hd m. same d hd (ground arith)) rest),
    )
