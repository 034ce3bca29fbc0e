-- ===== src/Shell/Hex/Written.antt =====
-- The arguments of `writeb` against the digits that `readb` prints.
use ring_os.Prelude.{
  ℕ, zero, suc, ◌+◌, ◌-◌, ◌*◌, ◌/◌, ◌%◌, ◌≤◌, ◌<◌, ◌≡◌, ◌≢◌, refl, ap, ◌∙◌, Bool, true, false, ◌&&◌,
  Option, some, List, [], ◌∷◌, ◌++◌, arith, leb, ◌==◌, length, get_or, replicate, Bool-cases, inl,
  inr, length-append, length-replicate, ≢→==, ==_iff, ==→≢,
}
use ring_os.CString.Compare.{IsText}
use ring_os.Shell.Hex.{
  take_name, skip_spaces, take_hex, nibble, from_hex, write_binary_args, hex_table, to_hex,
}

abbrev pub AllBytes : List ℕ → Type 0
AllBytes [] = Unit
AllBytes (b ∷ bs) = (b < 256) × AllBytes bs

abbrev pub AllSpaceless : List ℕ → Type 0
AllSpaceless [] = Unit
AllSpaceless (c ∷ cs) = (c ≢ 32) × AllSpaceless cs

-- The digit of `k` has the value `k`, and is no space and no terminator.
abbrev is_digit_of : ℕ → Bool
is_digit_of k = let c = get_or hex_table k 0 in (nibble c == k) && leb 48 c

abbrev all_digits : ℕ → Bool
all_digits zero = true
all_digits (suc n) = is_digit_of n && all_digits n

digits_lem : (n k : ℕ) → all_digits n ≡ true → k < n → is_digit_of k ≡ true
digits_lem zero k h lt = absurd (omega arith)
digits_lem (suc n) k h lt = elim (Bool-cases (k == n)) [
  | inl e ↦ let same : k ≡ n = (==_iff k n).0 e in rw same (ground arith)
  | inr e ↦ digits_lem n k (ground arith) (omega (arith, ==→≢ k n e))
]

sixteen : all_digits 16 ≡ true
unfolding nibble
sixteen = refl

nibble-hex_table : (k : ℕ) → k < 16 → nibble (get_or hex_table k 0) ≡ k
nibble-hex_table k h =
    let d = digits_lem 16 k sixteen h in
    (==_iff (nibble (get_or hex_table k 0)) k).0 (and_left _ _ d)
  where
    and_left : (a b : Bool) → (a && b) ≡ true → a ≡ true
    and_left true b h = refl
    and_left false b h = h

hex_table-ge : (k : ℕ) → k < 16 → 48 ≤ get_or hex_table k 0
hex_table-ge k h =
    let d = digits_lem 16 k sixteen h in
    let t = and_right (nibble (get_or hex_table k 0) == k) (leb 48 (get_or hex_table k 0)) d in
    ground arith
  where
    and_right : (a b : Bool) → (a && b) ≡ true → b ≡ true
    and_right true b h = h
    and_right false b h = absurd (cc)

length-from_hex : (digits : List ℕ) → 2 * length (from_hex digits) ≤ length digits + 1
unfolding from_hex
length-from_hex [] = omega arith
length-from_hex (c ∷ []) = omega arith
length-from_hex (c ∷ d ∷ digits) = omega (arith, length-from_hex digits)

from_hex-to_hex : (bs : List ℕ) → AllBytes bs → from_hex (to_hex bs) ≡ bs
unfolding from_hex to_hex
from_hex-to_hex [] h = refl
from_hex-to_hex (b ∷ bs) h =
    let high = nibble-hex_table (b / 16) (omega arith) in
    let low = nibble-hex_table (b % 16) (omega arith) in
    let both : b / 16 * 16 + b % 16 ≡ b = omega arith in
    rw (high, low, both, from_hex-to_hex bs h.1)

length-to_hex : (bs : List ℕ) → length (to_hex bs) ≡ 2 * length bs
unfolding to_hex
length-to_hex [] = refl
length-to_hex (b ∷ bs) = omega (arith, length-to_hex bs)

-- Characters that are neither a space nor a terminator.
abbrev AllGraphic : List ℕ → Type 0
AllGraphic [] = Unit
AllGraphic (c ∷ cs) = (48 ≤ c) × AllGraphic cs

to_hex-AllGraphic : (bs : List ℕ) → AllBytes bs → AllGraphic (to_hex bs)
unfolding to_hex
to_hex-AllGraphic [] h = tt
to_hex-AllGraphic (b ∷ bs) h = (
  hex_table-ge (b / 16) (omega arith),
  (hex_table-ge (b % 16) (omega arith), to_hex-AllGraphic bs h.1),
)

take_name_lem :
    (left : ℕ) (name more : List ℕ)
    → IsText name
    → AllSpaceless name
    → length name ≤ left
    → take_name left (name ++ 32 ∷ more) ≡ some (name, 32 ∷ more)
unfolding take_name
take_name_lem left [] more t s h = refl
take_name_lem zero (c ∷ name) more t s h = absurd (omega arith)
take_name_lem (suc left) (c ∷ name) more t s h =
    let e : suc left - 1 ≡ left = omega arith in
    let z : (suc left == 0) ≡ false = ground arith in
    rw (≢→== c 0 t.0, ≢→== c 32 s.0, e, take_name_lem left name more t.1 s.1 (omega arith))
      (rw z refl)

take_hex_lem :
    (left : ℕ) (digits rest : List ℕ)
    → AllGraphic digits
    → length digits ≤ left
    → take_hex left (digits ++ 0 ∷ rest) ≡ some digits
unfolding take_hex
take_hex_lem zero [] rest g h = refl
take_hex_lem (suc left) [] rest g h = refl
take_hex_lem zero (c ∷ digits) rest g h = absurd (omega arith)
take_hex_lem (suc left) (c ∷ digits) rest g h =
    let e : (c == 0) ≡ false = ground arith in
    rw (e, take_hex_lem left digits rest g.1 (omega arith)) refl

skip_spaces_lem :
    (digits rest : List ℕ)
    → AllGraphic digits
    → skip_spaces (32 ∷ (digits ++ 0 ∷ rest)) ≡ some (digits ++ 0 ∷ rest)
unfolding skip_spaces
skip_spaces_lem [] rest g = refl
skip_spaces_lem (c ∷ digits) rest g = let e : (c == 32) ≡ false = ground arith in rw e refl

-- `writeb` with a name of at most eleven bytes and the digits that `readb` prints of at most 127
-- bytes takes that name, filled with terminators, and exactly those bytes.
pub write_binary_args-to_hex :
    (name bs rest : List ℕ)
    → IsText name
    → AllSpaceless name
    → length name ≤ 11
    → AllBytes bs
    → length bs ≤ 127
    → write_binary_args (name ++ 32 ∷ (to_hex bs ++ 0 ∷ rest))
      ≡ some (name ++ replicate (12 - length name) 0, bs)
unfolding write_binary_args
write_binary_args-to_hex name bs rest t s short h few =
    let g = to_hex-AllGraphic bs h in
    rw
      (
        take_name_lem 11 name (to_hex bs ++ 0 ∷ rest) t s short,
        skip_spaces_lem (to_hex bs) rest g,
        take_hex_lem 255 (to_hex bs) rest g (omega (arith, length-to_hex bs)),
      )
      (ap
        (λ (l : List ℕ).
          let r : Option (List ℕ × List ℕ) = some (name ++ replicate (12 - length name) 0, l) in r)
        (from_hex-to_hex bs h))

-- What a part of the arguments leaves: a text with its terminator.
abbrev Left : List ℕ → List ℕ → Type 0
Left rest s = (u : List ℕ) × (s ≡ u ++ 0 ∷ rest) × IsText u

take_name_total :
    (left : ℕ) (t rest : List ℕ)
    → IsText t
    → (r : List ℕ × List ℕ) × (take_name left (t ++ 0 ∷ rest) ≡ some r)
      × (length r.0 ≤ left)
      × Left rest r.1
unfolding take_name
take_name_total left [] rest h = (([], 0 ∷ rest), refl, omega arith, ([], refl, tt))
take_name_total left (c ∷ t) rest h = elim (Bool-cases (c == 32)) [
  | inl e ↦ (([], c ∷ (t ++ 0 ∷ rest)), rw (≢→== c 0 h.0, e) refl, omega arith, (c ∷ t, refl, h))
  | inr e ↦
      let (r, run, le, after) = take_name_total (left - 1) t rest h.1 in
      elim (Bool-cases (left == 0)) [
        | inl z ↦ (r, rw (≢→== c 0 h.0, e, run, z) refl, omega (arith, le), after)
        | inr nz ↦ (
          (c ∷ r.0, r.1),
          rw (≢→== c 0 h.0, e, run, nz) refl,
          omega (arith, le, ==→≢ left 0 nz),
          after,
        )
      ]
]

skip_spaces_total :
    (t rest : List ℕ)
    → IsText t
    → (s : List ℕ) × (skip_spaces (t ++ 0 ∷ rest) ≡ some s) × Left rest s
unfolding skip_spaces
skip_spaces_total [] rest h = (0 ∷ rest, refl, ([], refl, tt))
skip_spaces_total (c ∷ t) rest h = elim (Bool-cases (c == 32)) [
  | inl e ↦ let (s, run, after) = skip_spaces_total t rest h.1 in (s, rw e run, after)
  | inr e ↦ (c ∷ (t ++ 0 ∷ rest), rw e refl, (c ∷ t, refl, h))
]

take_hex_total :
    (left : ℕ) (t rest : List ℕ)
    → IsText t
    → (d : List ℕ) × (take_hex left (t ++ 0 ∷ rest) ≡ some d) × (length d ≤ left)
unfolding take_hex
take_hex_total zero [] rest h = ([], refl, omega arith)
take_hex_total (suc left) [] rest h = ([], refl, omega arith)
take_hex_total zero (c ∷ t) rest h = ([], refl, omega arith)
take_hex_total (suc left) (c ∷ t) rest h =
    let (d, run, le) = take_hex_total left t rest h.1 in
    (c ∷ d, rw (≢→== c 0 h.0, run) refl, omega arith)

-- For arguments with a terminator `writeb` reads no byte behind it, fills the twelve bytes of the
-- name, which end with a terminator that no argument overwrites, and makes at most 128 bytes,
-- which is the size of their array.
pub write_binary_args_fits :
    (t rest : List ℕ)
    → IsText t
    → (name bs : List ℕ) × (write_binary_args (t ++ 0 ∷ rest) ≡ some (name, bs))
      × (length name ≡ 12)
      × (get_or name 11 1 ≡ 0)
      × (length bs ≤ 128)
unfolding write_binary_args
write_binary_args_fits t rest h =
    let (r, named, short, (u, e, ht)) = take_name_total 11 t rest h in
    let (s, skipped, (w, f, hw)) = skip_spaces_total u rest ht in
    let (d, taken, le) = take_hex_total 255 w rest hw in
    (
      r.0 ++ replicate (12 - length r.0) 0,
      from_hex d,
      rw (named, e, skipped, f, taken) refl,
      length-append r.0 (replicate (12 - length r.0) 0)
          ∙ omega (arith, length-replicate {A = ℕ} (12 - length r.0) 0),
      ends r.0 11 short,
      omega (arith, length-from_hex d),
    )
  where
    zeros : (k : ℕ) → get_or (replicate {A = ℕ} (suc k) 0) k 1 ≡ 0
    zeros zero = refl
    zeros (suc k) = zeros k

    ends :
        (n : List ℕ) (k : ℕ) → length n ≤ k → get_or (n ++ replicate (suc k - length n) 0) k 1 ≡ 0
    ends [] k h = let e : suc k - 0 ≡ suc k = omega arith in rw e (zeros k)
    ends (x ∷ n) zero h = absurd (omega arith)
    ends (x ∷ n) (suc k) h =
        let e : suc (suc k) - suc (length n) ≡ suc k - length n = omega arith in
        rw e (ends n k (omega arith))
