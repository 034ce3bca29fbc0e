-- ===== src/Shell/Sizes.antt =====
-- `ls_callback` of kernel/shell.c.
use native.Mathlib.Nat.{pow-suc}
use ring_os.Prelude.{
  ℕ, zero, suc, ◌+◌, ◌-◌, ◌*◌, ◌/◌, ◌%◌, ◌^◌, ◌≤◌, ◌<◌, ◌≡◌, refl, ◌∙◌, true, false, Option, none,
  some, List, [], ◌∷◌, arith, ltb, ◌==◌, if◌then◌else◌, length, Bool-cases, inl, inr, ltb→le,
  ltb→lt,
}
use ring_os.CString.{◌>>=◌}
use ring_os.CString.Digits.{value, IsDigits, place_value}
use ring_os.Vga.{Vga, putchar, writestr}

-- The loop over the digits, with fuel. `size_str` holds them with the last one first, and is printed
-- from its end on: `printed` are the digits so far, in the order in which they are printed.
unfoldable pub size_digits : ℕ → ℕ → List ℕ → Option (List ℕ)
size_digits zero temp printed = none
size_digits (suc fuel) temp printed =
    let rest = size_digits fuel (temp / 10) ((48 + temp % 10) ∷ printed) in
    if ltb 0 (temp / 10) then rest else some ((48 + temp % 10) ∷ printed)

-- ` bytes` and ` <DIR>`
abbrev pub bytes_text : List ℕ
bytes_text = 32 ∷ b'b' ∷ b'y' ∷ b't' ∷ b'e' ∷ b's' ∷ []

abbrev pub dir_text : List ℕ
dir_text = 32 ∷ b'<' ∷ b'D' ∷ b'I' ∷ b'R' ∷ b'>' ∷ []

-- `name` is the text without its terminator.
unfoldable pub ls_callback : List ℕ → ℕ → ℕ → Vga → Option Vga
ls_callback name size attr screen = size_digits 10 size [] >>= λ digits.
    let sized =
      writestr bytes_text
        (writestr digits (writestr (32 ∷ 32 ∷ 32 ∷ 32 ∷ []) (writestr name screen))) in
    some (putchar b'\n' (if attr / 16 % 2 == 1 then writestr dir_text sized else sized))

record Printed (size : ℕ) (printed : List ℕ) (bound : ℕ) : Type 0 where
  out : List ℕ
  value_of : value out ≡ size * 10 ^ length printed + value printed
  short : length out ≤ bound
  digits : IsDigits out

-- What the loop is to return.
abbrev Sized : ℕ → ℕ → List ℕ → Type 0
Sized fuel size printed =
    (d : Printed size printed (length printed + fuel)) × (size_digits fuel size printed
      ≡ some d.out)

last_digit :
    (fuel size : ℕ) (printed : List ℕ)
    → size < 10
    → IsDigits printed
    → Sized (suc fuel) size printed
unfolding size_digits
last_digit fuel size printed small d =
    let one : size % 10 ≡ size = omega arith in
    let e : ltb 0 (size / 10) ≡ false = ground arith in
    (
      record {
        out = (48 + size % 10) ∷ printed;
        value_of = place 48 size (length printed) (value printed) one;
        short = omega arith;
        digits = (omega arith, omega arith, d);
      },
      rw e refl,
    )
  where
    place : (a n k v : ℕ) → n % 10 ≡ n → (a + n % 10 - a) * 10 ^ k + v ≡ n * 10 ^ k + v
    place a n k v h = let e : a + n % 10 - a ≡ n = omega arith in rw e

more_digits :
    (fuel size : ℕ) (printed : List ℕ)
    → 10 ≤ size
    → Sized fuel (size / 10) ((48 + size % 10) ∷ printed)
    → Sized (suc fuel) size printed
unfolding size_digits
more_digits fuel size printed big (r, run) =
    let e : ltb 0 (size / 10) ≡ true = ground arith in
    (
      record {
        out = r.out;
        value_of = r.value_of ∙ place_value size (length printed) (value printed);
        short = omega (arith, r.short);
        digits = r.digits;
      },
      rw e run,
    )

size_digits_lem :
    (fuel size : ℕ) (printed : List ℕ)
    → size < 10 ^ suc fuel
    → IsDigits printed
    → Sized (suc fuel) size printed
size_digits_lem zero size printed small d = last_digit zero size printed (omega arith) d
size_digits_lem (suc fuel) size printed small d = elim (Bool-cases (ltb size 10)) [
  | inl e ↦ last_digit (suc fuel) size printed (ltb→lt size 10 e) d
  | inr e ↦ more_digits (suc fuel) size printed (ltb→le size 10 e) (
      size_digits_lem fuel (size / 10) ((48 + size % 10) ∷ printed)
        (omega (arith, pow-suc 10 (suc fuel))) (omega arith, omega arith, d))
]

-- For every `uint32_t` size `ls_callback` prints the name, four spaces, a string of at most ten
-- decimal digits that stands for the size, and ` bytes`, then ` <DIR>` exactly for an entry with
-- the attribute of a directory, and the end of the line.
pub ls_callback_lem :
    (name : List ℕ) (size attr : ℕ) (screen : Vga)
    → size < 2 ^ 32
    → (digits : List ℕ) × (value digits ≡ size)
      × IsDigits digits
      × (length digits ≤ 10)
      × (ls_callback name size attr screen
          ≡ some (
              putchar b'\n' (
                writestr (if attr / 16 % 2 == 1 then dir_text else []) (
                  writestr bytes_text
                    (writestr digits (writestr (32 ∷ 32 ∷ 32 ∷ 32 ∷ []) (writestr name screen)))))))
unfolding ls_callback writestr
ls_callback_lem name size attr screen small =
    let (d, run) = size_digits_lem 9 size [] (omega arith) tt in
    let whole : value d.out ≡ size = d.value_of ∙ omega arith in
    (
      d.out,
      whole,
      d.digits,
      omega (arith, d.short),
      rw run (elim (Bool-cases (attr / 16 % 2 == 1)) [ inl e ↦ rw e refl | inr e ↦ rw e refl ]),
    )
