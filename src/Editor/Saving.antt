-- ===== src/Editor/Saving.antt =====
-- The number of bytes of the text that `editor_save_file` writes.
use ring_os.Prelude.{
  ℕ, zero, suc, ◌+◌, ◌≤◌, ◌<◌, ◌≡◌, ◌≢◌, ◌⊎◌, refl, List, [], ◌∷◌, arith, ◌==◌, get_or, length,
  Bool-cases, ==_iff, ==→≢, inl, inr,
}
use ring_os.Editor.{size_loop, actual_size}

-- `n` is behind the last byte of `buffer` that is not 0, counted from `i`, or `actual` if all are 0.
abbrev Ends : List ℕ → ℕ → ℕ → ℕ → Type 0
Ends buffer i actual n =
    ((k : ℕ) → n ≤ i + k → get_or buffer k 0 ≡ 0)
    × ((n ≡ actual) ⊎ (j : ℕ) × (n ≡ i + j + 1) × (j < length buffer) × (get_or buffer j 0 ≢ 0))

-- One more byte in front.
zeros_from :
    (c : ℕ) (rest : List ℕ) (i n : ℕ)
    → ((k : ℕ) → n ≤ i + 1 + k → get_or rest k 0 ≡ 0)
    → (n ≤ i → c ≡ 0)
    → (k : ℕ) → n ≤ i + k
    → get_or (c ∷ rest) k 0 ≡ 0
zeros_from c rest i n zeros head zero h = head (omega arith)
zeros_from c rest i n zeros head (suc k) h = zeros k (omega arith)

abbrev Last : List ℕ → ℕ → ℕ → Type 0
Last buffer i n = (j : ℕ) × (n ≡ i + j + 1) × (j < length buffer) × (get_or buffer j 0 ≢ 0)

Last-from : (c : ℕ) (rest : List ℕ) (i n : ℕ) → Last rest (i + 1) n → Last (c ∷ rest) i n
Last-from c rest i n (j, e, lt, ne) = (suc j, omega arith, omega arith, ne)

size_loop_lem :
    (buffer : List ℕ) (i actual : ℕ) → actual ≤ i → Ends buffer i actual (size_loop buffer i actual)
unfolding size_loop
size_loop_lem [] i actual le = (λ k h. refl, inl refl)
size_loop_lem (c ∷ rest) i actual le = elim (Bool-cases (c == 0)) [
  | inl h ↦
      let (zeros, last) = size_loop_lem rest (i + 1) actual (omega arith) in
      let is_zero : c ≡ 0 = (==_iff _ _).0 h in
      rw h (
        zeros_from c rest i _ zeros (λ _. is_zero),
        elim last [ inl e ↦ inl e | inr l ↦ inr (Last-from c rest i _ l) ],
      )
  | inr h ↦
      let (zeros, last) = size_loop_lem rest (i + 1) (i + 1) (omega arith) in
      let more : i < size_loop rest (i + 1) (i + 1) = elim last [
        | inl e ↦ omega arith
        | inr (j, e, lt, ne) ↦ omega arith
      ] in
      rw h (
        zeros_from c rest i _ zeros (λ le'. absurd (omega arith)),
        elim last [
          | inl e ↦ inr (0, omega (arith, e), omega arith, ==→≢ _ _ h)
          | inr l ↦ inr (Last-from c rest i _ l)
        ],
      )
]

-- The bytes of the text from `actual_size` on are all 0, and the byte before is not, unless the
-- size is 0; the size is at most that of the buffer.
pub actual_size_lem :
    (buffer : List ℕ)
    → let n = actual_size buffer in
      ((k : ℕ) → n ≤ k → get_or buffer k 0 ≡ 0)
      × ((n ≡ 0) ⊎ (j : ℕ) × (n ≡ j + 1) × (j < length buffer) × (get_or buffer j 0 ≢ 0))
unfolding actual_size
actual_size_lem buffer =
    let (zeros, last) = size_loop_lem buffer 0 0 (omega arith) in
    (
      λ k h. zeros k (omega arith),
      elim last [ inl e ↦ inl e | inr (j, e, lt, ne) ↦ inr (j, omega arith, lt, ne) ],
    )
