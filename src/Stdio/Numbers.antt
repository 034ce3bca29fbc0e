-- ===== src/Stdio/Numbers.antt =====
-- The digits stand for the number.
use native.Mathlib.Nat.{pow-suc, pow-zero, mul_comm, mul_assoc, add_assoc, add-mul, div-add-mod'}
use ring_os.Prelude.{
  ℕ, zero, suc, ◌+◌, ◌-◌, ◌*◌, ◌/◌, ◌%◌, ◌^◌, ◌≤◌, ◌<◌, ◌≡◌, refl, sym, ap, ◌∙◌, Bool, true, false,
  ◌&&◌, ◌||◌, some, List, [], ◌∷◌, ◌++◌, arith, ltb, leb, ◌==◌, if◌then◌else◌, length, get_or,
  Bool-cases, inl, inr, lt→ltb, ==_iff, ==→≢, leb→le,
}
use ring_os.CString.{◌>>=◌}
use ring_os.Stdio.{digits, digits_loop, print_number, print_hex}

abbrev pub digit_value : ℕ → ℕ
digit_value c = if ltb c 58 then c - 48 else c - 87

-- A character from `0` to `9` or from `a` to `f`.
abbrev pub is_digit : ℕ → Bool
is_digit c = (leb 48 c && ltb c 58) || (leb 97 c && ltb c 103)

-- Each character is a digit of the base.
abbrev pub AllDigits : ℕ → List ℕ → Type 0
AllDigits base [] = Unit
AllDigits base (c ∷ cs) = (is_digit c ≡ true) × (digit_value c < base) × AllDigits base cs

-- The number that a string of digits stands for in a base.
abbrev pub value_in : ℕ → List ℕ → ℕ
value_in base [] = 0
value_in base (c ∷ cs) = digit_value c * base ^ length cs + value_in base cs

abbrev all_digits : ℕ → Bool
all_digits zero = true
all_digits (suc n) =
    ((digit_value (get_or digits n 0) == n) && is_digit (get_or digits n 0)) && all_digits n

digits_value :
    (n k : ℕ)
    → all_digits n ≡ true
    → k < n
    → (digit_value (get_or digits k 0) ≡ k) × (is_digit (get_or digits k 0) ≡ true)
digits_value zero k h lt = absurd (omega arith)
digits_value (suc n) k h lt = elim (Bool-cases (k == n)) [
  | inl e ↦
      let same : k ≡ n = (==_iff k n).0 e in
      rw same (
        (==_iff (digit_value (get_or digits n 0)) n).0 (left _ _ (left _ _ h)),
        right _ _ (left _ _ h),
      )
  | inr e ↦ digits_value n k (right _ _ h) (omega (arith, ==→≢ k n e))
]
  where
    left : (a b : Bool) → (a && b) ≡ true → a ≡ true
    left true b h = refl
    left false b h = h

    right : (a b : Bool) → (a && b) ≡ true → b ≡ true
    right true b h = h
    right false b h = absurd (cc)

-- Division by a base halves at least.
quotient-le : (n b : ℕ) → 2 ≤ b → 2 * (n / b) ≤ n
quotient-le n b h = grind arith

remainder-lt : (n b : ℕ) → 2 ≤ b → n % b < b
remainder-lt n b h = grind arith

place : (n b p v : ℕ) → n / b * (p * b) + (n % b * p + v) ≡ n * p + v
place n b p v =
    ap (λ (x : ℕ). n / b * x + (n % b * p + v)) (mul_comm p b)
    ∙ ap (λ (x : ℕ). x + (n % b * p + v)) (sym (mul_assoc (n / b) b p))
    ∙ sym (add_assoc (n / b * b * p) (n % b * p) v)
    ∙ ap (λ (x : ℕ). x + v) (sym (add-mul (n / b * b) (n % b) p))
    ∙ ap (λ (x : ℕ). x * p + v) (div-add-mod' n b)

-- What the loop leaves in the array.
record Digits (base num : ℕ) (buf : List ℕ) (bound : ℕ) : Type 0 where
  out : List ℕ
  digits_of : AllDigits base out
  value_of : value_in base out ≡ num * base ^ length buf + value_in base buf
  short : length out ≤ bound

all_sixteen : all_digits 16 ≡ true
all_sixteen = refl

abbrev Run : ℕ → ℕ → ℕ → List ℕ → Type 0
Run fuel base num buf =
    (d : Digits base num buf (length buf + fuel)) × (digits_loop (suc fuel) base num buf
      ≡ some d.out)

finished : (fuel base num : ℕ) (buf : List ℕ) → num ≡ 0 → AllDigits base buf → Run fuel base num buf
unfolding digits_loop
finished fuel base num buf z h = (
  record { out = buf; digits_of = h; value_of = rw z (omega arith); short = omega arith },
  rw z refl,
)

digits_loop_lem :
    (fuel base num : ℕ) (buf : List ℕ)
    → 2 ≤ base
    → base ≤ 16
    → num < 2 ^ fuel
    → length buf + fuel ≤ 32
    → AllDigits base buf
    → Run fuel base num buf
unfolding digits_loop
digits_loop_lem zero base num buf two low small room h = finished zero base num buf (omega arith) h
digits_loop_lem (suc fuel) base num buf two low small room h = elim (Bool-cases (num == 0)) [
  | inl e ↦ finished (suc fuel) base num buf ((==_iff num 0).0 e) h
  | inr e ↦
      let c = get_or digits (num % base) 0 in
      let half : num / base < 2 ^ fuel = omega (arith, quotient-le num base two, pow-suc 2 fuel) in
      let small_digit = remainder-lt num base two in
      let (digit, is) = digits_value 16 (num % base) all_sixteen (omega (arith, small_digit)) in
      let (d, run) =
        digits_loop_lem fuel base (num / base) (c ∷ buf) two low half (omega arith)
          (is, omega (arith, small_digit, digit), h) in
      (
        record {
          out = d.out;
          digits_of = d.digits_of;
          value_of =
              d.value_of
              ∙ ap
                  (λ (x : ℕ).
                    num / base * x + (digit_value c * base ^ length buf + value_in base buf))
                  (pow-suc base (length buf))
              ∙ ap
                  (λ (x : ℕ).
                    num / base * (base ^ length buf * base)
                    + (x * base ^ length buf + value_in base buf))
                  digit
              ∙ place num base (base ^ length buf) (value_in base buf);
          short = omega (arith, d.short);
        },
        rw (e, lt→ltb (length buf) 32 (omega arith)) run,
      )
]

-- All digits of a number.
whole :
    (base num : ℕ)
    → 2 ≤ base
    → base ≤ 16
    → num < 2 ^ 32
    → (text : List ℕ) × (digits_loop 33 base num [] ≡ some text)
      × (value_in base text ≡ num)
      × AllDigits base text
      × (length text ≤ 32)
whole base num two low small =
    let (d, run) = digits_loop_lem 32 base num [] two low small (omega arith) tt in
    let one : num * base ^ 0 ≡ num * 1 = ap (λ (x : ℕ). num * x) (pow-zero base) in
    (d.out, run, d.value_of ∙ omega (arith, one), d.digits_of, omega (arith, d.short))

-- Digits that stand for a number other than 0 are not an empty text.
some_digit :
    (base n : ℕ) (text : List ℕ) → value_in base text ≡ n → (n == 0) ≡ false → 1 ≤ length text
some_digit base n [] v ne = absurd (==→≢ n 0 ne (sym v))
some_digit base n (c ∷ text) v ne = omega arith

-- In any base from 2 to 16 `print_number` of an `int`, given as its bits, stays inside its array of
-- 32 bytes, except for the smallest `int` in base 10. In base 10 it prints a minus exactly for a
-- negative number, and then at least one digit and nothing but digits, which stand for its absolute
-- value; in the other bases it prints the digits of the bits as an unsigned number.
pub print_number_lem :
    (num base : ℕ)
    → num < 2 ^ 32
    → 2 ≤ base
    → base ≤ 16
    → (base == 10 && num == 2 ^ 31) ≡ false
    → let minus : Bool = base == 10 && leb (2 ^ 31) num in
      (text : List ℕ) × (print_number num base ≡ some ((if minus then b'-' ∷ [] else []) ++ text))
      × (value_in base text ≡ (if minus then 2 ^ 32 - num else num))
      × AllDigits base text
      × (1 ≤ length text)
      × (length text ≤ 32)
unfolding print_number
print_number_lem num base small two low defined =
    let minus : Bool = base == 10 && leb (2 ^ 31) num in
    let sign : List ℕ = if minus then b'-' ∷ [] else [] in
    let (text, run, v, ds, some_one, short) =
      go sign (if minus then 2 ^ 32 - num else num)
        (bound minus (λ h. leb→le (2 ^ 31) num (right (base == 10) (leb (2 ^ 31) num) h))) in
    (text, rw defined run, v, ds, some_one, short)
  where
    right : (a b : Bool) → (a && b) ≡ true → b ≡ true
    right true b h = h
    right false b h = absurd (cc)

    bound : (m : Bool) → (m ≡ true → 2 ^ 31 ≤ num) → (if m then 2 ^ 32 - num else num) < 2 ^ 32
    bound true h = let big = h refl in omega arith
    bound false h = omega arith

    go :
        (sign : List ℕ) (n : ℕ)
        → n < 2 ^ 32
        → (text : List ℕ) × ((if n == 0
              then some (sign ++ b'0' ∷ [])
              else digits_loop 33 base n [] >>= λ t. some (sign ++ t))
            ≡ some (sign ++ text))
          × (value_in base text ≡ n)
          × AllDigits base text
          × (1 ≤ length text)
          × (length text ≤ 32)
    go sign n lt = elim (Bool-cases (n == 0)) [
      | inl e ↦
          let z : n ≡ 0 = (==_iff n 0).0 e in
          (b'0' ∷ [], rw e refl, omega arith, (refl, omega arith, tt), omega arith, omega arith)
      | inr e ↦
          let (text, run, v, ds, short) = whole base n two low lt in
          (text, rw (e, run) refl, v, ds, some_digit base n text v e, short)
    ]

-- `print_hex` prints `0x` and digits that stand for the number in base 16, for every `uint32_t`.
pub print_hex_lem :
    (num : ℕ)
    → num < 2 ^ 32
    → (text : List ℕ) × (print_hex num ≡ some (b'0' ∷ b'x' ∷ text))
      × (value_in 16 text ≡ num)
      × AllDigits 16 text
      × (length text ≤ 32)
unfolding print_hex
print_hex_lem num small = elim (Bool-cases (num == 0)) [
  | inl e ↦
      let z : num ≡ 0 = (==_iff num 0).0 e in
      (b'0' ∷ [], rw e refl, omega arith, (refl, omega arith, tt), omega arith)
  | inr e ↦
      let (text, run, v, ds, short) = whole 16 num (omega arith) (omega arith) small in
      (text, rw (e, run) refl, v, ds, short)
]
