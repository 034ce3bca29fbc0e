-- ===== src/CString/Digits.antt =====
-- Decimal digits: `uint32_t_to_str` and `itoa` against the value of a digit string.
use native.Mathlib.Nat.{pow-suc}
use ring_os.Prelude.{
  ℕ, zero, suc, ◌+◌, ◌-◌, ◌*◌, ◌/◌, ◌%◌, ◌^◌, ◌≤◌, ◌<◌, ◌≡◌, refl, ap, some, List, [], ◌∷◌, ◌++◌,
  arith, length, drop, ◌==◌, Bool-cases, ==_iff, lt→ltb, ◌∙◌, inl, inr,
}
use ring_os.CString.{digits_loop, store_text, uint32_t_to_str}

-- The number that a string of decimal digits stands for.
abbrev pub value : List ℕ → ℕ
value [] = 0
value (c ∷ cs) = (c - 48) * 10 ^ length cs + value cs

abbrev pub IsDigits : List ℕ → Type 0
IsDigits [] = Unit
IsDigits (c ∷ cs) = (48 ≤ c) × (c ≤ 57) × IsDigits cs

-- What the digit loop leaves in `rev`.
record Digits (num : ℕ) (acc : List ℕ) (bound : ℕ) : Type 0 where
  out : List ℕ
  value_of : value out ≡ num * 10 ^ length acc + value acc
  short : length out ≤ bound
  digits : IsDigits out

-- One more digit in front: the place value moves from the number to the digits.
pub place_value :
    (num k v : ℕ) → num / 10 * 10 ^ suc k + ((48 + num % 10 - 48) * 10 ^ k + v) ≡ num * 10 ^ k + v
place_value num k v = omega (
  arith,
  ap (λ (t : ℕ). num / 10 * t) (pow-suc 10 k),
  ap (λ (t : ℕ). t * 10 ^ k) (let r : 48 + num % 10 - 48 ≡ num % 10 = omega arith in r),
  ap (λ (t : ℕ). t * 10 ^ k) (let e : num / 10 * 10 + num % 10 ≡ num = omega arith in e),
)

digits_loop_lem :
    (fuel num : ℕ) (acc : List ℕ)
    → num < 10 ^ fuel
    → length acc + fuel ≤ 11
    → IsDigits acc
    → (d : Digits num acc (length acc + fuel)) × (digits_loop (suc fuel) num acc ≡ some d.out)
unfolding digits_loop
digits_loop_lem zero num acc small room d =
    let z : num ≡ 0 = omega arith in
    (record { out = acc; value_of = rw z (omega arith); short = omega arith; digits = d }, rw z)
digits_loop_lem (suc fuel) num acc small room d = elim (Bool-cases (num == 0)) [
  | inl e ↦
      let z : num ≡ 0 = (==_iff num 0).0 e in
      (record { out = acc; value_of = rw z (omega arith); short = omega arith; digits = d }, rw z)
  | inr e ↦
      let c = 48 + num % 10 in
      let (r, run) =
        digits_loop_lem fuel (num / 10) (c ∷ acc) (omega (arith, pow-suc 10 fuel)) (omega arith)
          (omega arith, omega arith, d) in
      (
        record {
          out = r.out;
          value_of = r.value_of ∙ place_value num (length acc) (value acc);
          short = omega (arith, r.short);
          digits = r.digits;
        },
        rw (e, lt→ltb (length acc) 11 (omega arith)) run,
      )
]

store_text_lem :
    (d cs : List ℕ)
    → length cs < length d
    → store_text d cs ≡ some (cs ++ 0 ∷ drop (length cs + 1) d)
unfolding store_text
store_text_lem [] cs h = absurd (omega arith)
store_text_lem (x ∷ d) [] h = refl
store_text_lem (x ∷ d) (c ∷ cs) h = ground (arith, store_text_lem d cs)

-- Into a buffer of at least eleven bytes `uint32_t_to_str` writes a string of at most ten decimal
-- digits with a terminator behind it, keeps the bytes after that, and the digits stand for the
-- number, for every `uint32_t`.
pub uint32_t_to_str_lem :
    (num : ℕ) (str : List ℕ)
    → num < 2 ^ 32
    → 11 ≤ length str
    → (ds : List ℕ) × (uint32_t_to_str num str ≡ some (ds ++ 0 ∷ drop (length ds + 1) str))
      × (value ds ≡ num)
      × (length ds ≤ 10)
      × IsDigits ds
unfolding uint32_t_to_str
uint32_t_to_str_lem num str small room = elim (Bool-cases (num == 0)) [
  | inl e ↦
      let z : num ≡ 0 = (==_iff num 0).0 e in
      (
        48 ∷ [],
        rw e (store_text_lem str (48 ∷ []) (omega arith)),
        omega arith,
        omega arith,
        omega arith,
      )
  | inr e ↦
      let (r, run) = digits_loop_lem 10 num [] (omega arith) (omega arith) tt in
      (
        r.out,
        rw (e, run) (store_text_lem str r.out (omega (arith, r.short))),
        r.value_of ∙ omega arith,
        omega (arith, r.short),
        r.digits,
      )
]
