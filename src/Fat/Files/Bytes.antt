-- ===== src/Fat/Files/Bytes.antt =====
-- Slices of memory against the sectors that hold them.
use ring_os.Prelude.{
  ℕ, zero, suc, ◌+◌, ◌*◌, ◌≤◌, ◌<◌, ◌≡◌, refl, sym, ap, ◌∙◌, fun_ext, List, [], ◌∷◌, ◌++◌, arith,
  length, take, drop, length-drop, take-append-drop,
}
use ring_os.Block.{gather}
use ring_os.Fat.Dir.{Memory, bytes_at}

-- `n` bytes from offset `from` on.
abbrev pub slice : Memory → ℕ → ℕ → List ℕ
slice memory from n = bytes_at (λ k. memory (from + k)) n

pub length-bytes_at : (m : Memory) (n : ℕ) → length (bytes_at m n) ≡ n
length-bytes_at m zero = refl
length-bytes_at m (suc n) = ap suc (length-bytes_at (λ k. m (suc k)) n)

bytes_at-add :
    (m : Memory) (a b : ℕ) → bytes_at m (a + b) ≡ bytes_at m a ++ bytes_at (λ k. m (a + k)) b
bytes_at-add m zero b =
    let e : 0 + b ≡ b = omega arith in
    let s : (λ k. m (0 + k)) ≡ m = fun_ext (λ k. ap m (omega arith)) in rw (e, s)
bytes_at-add m (suc a) b =
    let e : suc a + b ≡ suc (a + b) = omega arith in
    let s : (λ k. m (suc a + k)) ≡ (λ k. m (suc (a + k))) = fun_ext (λ k. ap m (omega arith)) in
    rw (e, s) (ap (λ l. m 0 ∷ l) (bytes_at-add (λ k. m (suc k)) a b))

pub slice-add :
    (m : Memory) (from a b : ℕ) → slice m from (a + b) ≡ slice m from a ++ slice m (from + a) b
slice-add m from a b =
    let s : (λ k. m (from + (a + k))) ≡ (λ k. m (from + a + k)) =
      fun_ext (λ k. ap m (omega arith)) in
    bytes_at-add (λ k. m (from + k)) a b ∙ ap (λ (g : Memory). slice m from a ++ bytes_at g b) s

pub take-append_left : (n : ℕ) (xs ys : List ℕ) → n ≤ length xs → take n (xs ++ ys) ≡ take n xs
take-append_left zero xs ys h = refl
take-append_left (suc n) [] ys h = absurd (omega arith)
take-append_left (suc n) (x ∷ xs) ys h = ap (λ l. x ∷ l) (take-append_left n xs ys (omega arith))

pub take-append_right : (b : ℕ) (xs ys : List ℕ) → take (length xs + b) (xs ++ ys) ≡ xs ++ take b ys
take-append_right b [] ys = let e : 0 + b ≡ b = omega arith in rw e
take-append_right b (x ∷ xs) ys =
    let e : suc (length xs) + b ≡ suc (length xs + b) = omega arith in
    rw e (ap (λ l. x ∷ l) (take-append_right b xs ys))

pub take-slice : (m : Memory) (from a b : ℕ) → take a (slice m from (a + b)) ≡ slice m from a
take-slice m from a b =
    ap (take a) (slice-add m from a b)
    ∙ take-append_left a (slice m from a) (slice m (from + a) b)
        (omega (arith, length-bytes_at (λ k. m (from + k)) a))
    ∙ take-exact a (slice m from a) (length-bytes_at (λ k. m (from + k)) a)
  where
    take-exact : (n : ℕ) (xs : List ℕ) → length xs ≡ n → take n xs ≡ xs
    take-exact zero [] h = refl
    take-exact zero (x ∷ xs) h = absurd (omega arith)
    take-exact (suc n) [] h = refl
    take-exact (suc n) (x ∷ xs) h = ap (λ l. x ∷ l) (take-exact n xs (omega arith))

drop-drop : (a b : ℕ) (xs : List ℕ) → drop b (drop a xs) ≡ drop (a + b) xs
drop-drop zero b xs = let e : 0 + b ≡ b = omega arith in rw e
drop-drop (suc a) zero [] = let e : suc a + 0 ≡ suc a = omega arith in rw e
drop-drop (suc a) (suc b) [] = let e : suc a + suc b ≡ suc (a + suc b) = omega arith in rw e
drop-drop (suc a) b (x ∷ xs) =
    let e : suc a + b ≡ suc (a + b) = omega arith in rw e (drop-drop a b xs)

pub gather_cong :
    (f g : ℕ → List ℕ) (lba n : ℕ)
    → ((k : ℕ) → k < n → f (lba + k) ≡ g (lba + k))
    → gather f lba n ≡ gather g lba n
gather_cong f g lba zero h = refl
gather_cong f g lba (suc n) h =
    let here : lba + 0 ≡ lba = omega arith in
    let first : f lba ≡ g lba = rw here at (h 0 (omega arith)) in
    let rest = gather_cong f g (lba + 1) n (λ k lt.
      let e : lba + suc k ≡ lba + 1 + k = omega arith in rw e at (h (suc k) (omega arith))) in
    rw (first, rest)

-- Sectors that hold the parts of `bytes` hold `bytes`.
pub gather_parts :
    (f : ℕ → List ℕ) (lba n : ℕ) (bytes : List ℕ)
    → length bytes ≡ 512 * n
    → ((k : ℕ) → k < n → f (lba + k) ≡ take 512 (drop (512 * k) bytes))
    → gather f lba n ≡ bytes
gather_parts f lba zero [] len h = refl
gather_parts f lba zero (x ∷ bytes) len h = absurd (omega arith)
gather_parts f lba (suc n) bytes len h =
    let here : lba + 0 ≡ lba = omega arith in
    let first : f lba ≡ take 512 bytes = rw here at (h 0 (omega arith)) in
    let rest =
      gather_parts f (lba + 1) n (drop 512 bytes) (omega (arith, length-drop 512 bytes)) (λ k lt.
        let e : lba + suc k ≡ lba + 1 + k = omega arith in
        let o : 512 * suc k ≡ 512 + 512 * k = omega arith in
        rw (e, o) at (h (suc k) (omega arith))
        ∙ ap (take 512) (sym (drop-drop 512 (512 * k) bytes))) in
    rw (first, rest) (take-append-drop 512 bytes)
