-- ===== src/Stdio.antt =====
-- include/libc/stdio.h: `print_number` and `print_hex`, as the text that they print.
pub mod Numbers
mod Tests
use package.ring_os.Prelude.{
  ℕ, zero, suc, ◌+◌, ◌-◌, ◌/◌, ◌%◌, ◌^◌, Bool, true, false, ◌&&◌, Option, none, some, List, [], ◌∷◌,
  ◌++◌, ltb, leb, ◌==◌, if◌then◌else◌, length, get_or, u32_mod,
}
use package.ring_os.CString.{◌>>=◌}

-- "0123456789abcdef"
abbrev pub digits : List ℕ
digits =
    b'0' ∷ b'1' ∷ b'2' ∷ b'3' ∷ b'4' ∷ b'5' ∷ b'6' ∷ b'7' ∷ b'8' ∷ b'9' ∷ b'a' ∷ b'b' ∷ b'c' ∷ b'd'
    ∷ b'e' ∷ b'f' ∷ []

-- The loop over the digits, with fuel. `buf` is the part of the array that was written, with its
-- last byte first, which is the order of the output. `none` is a write behind the 32 bytes.
unfoldable pub digits_loop : ℕ → ℕ → ℕ → List ℕ → Option (List ℕ)
digits_loop zero base num buf = none
digits_loop (suc fuel) base num buf =
    let rest = digits_loop fuel base (num / base) (get_or digits (num % base) 0 ∷ buf) in
    if num == 0 then some buf else if ltb (length buf) 32 then rest else none

-- `num` is the `int` in two's complement, and `base` is not 0. In base 10 `-num` overflows for the
-- smallest `int`, which C leaves undefined: `none` is also this case.
unfoldable pub print_number : ℕ → ℕ → Option (List ℕ)
print_number num base =
    let minus : Bool = base == 10 && leb (2 ^ 31) num in
    let abs_num = if minus then u32_mod - num else num in
    let sign : List ℕ = if minus then b'-' ∷ [] else [] in
    if base == 10 && num == 2 ^ 31
    then none
    else if abs_num == 0
    then some (sign ++ b'0' ∷ [])
    else digits_loop 33 base abs_num [] >>= λ text. some (sign ++ text)

unfoldable pub print_hex : ℕ → Option (List ℕ)
print_hex num =
    if num == 0
    then some (b'0' ∷ b'x' ∷ b'0' ∷ [])
    else digits_loop 33 16 num [] >>= λ text. some (b'0' ∷ b'x' ∷ text)
