-- ===== src/Shell/Hex.antt =====
-- `cmd_write_binary` and `cmd_read_binary` of kernel/shell.c: bytes as hexadecimal digits.
pub mod Written
use ring_os.Prelude.{
  ℕ, zero, suc, ◌+◌, ◌-◌, ◌*◌, ◌/◌, ◌%◌, ◌≤◌, ◌<◌, ◌≡◌, refl, ap, ◌∙◌, Bool, true, false, ◌&&◌,
  ◌||◌, Option, none, some, List, [], ◌∷◌, ◌++◌, arith, ltb, leb, ◌==◌, if◌then◌else◌, length, take,
  get_or, replicate, Bool-cases, inl, inr, min, length-append,
}
use ring_os.CString.{◌>>=◌}
use ring_os.CString.Compare.{IsText}

-- The filename and the rest of the arguments: the loop up to the first space, which keeps at most
-- `left` bytes.
unfoldable pub take_name : ℕ → List ℕ → Option (List ℕ × List ℕ)
take_name left [] = none
take_name left (c ∷ args) =
    let rest = take_name (left - 1) args in
    if c == 0 || c == 32
    then some ([], c ∷ args)
    else rest >>= λ r. some (if left == 0 then r.0 else c ∷ r.0, r.1)

unfoldable pub skip_spaces : List ℕ → Option (List ℕ)
skip_spaces [] = none
skip_spaces (c ∷ args) = if c == 32 then skip_spaces args else some (c ∷ args)

-- `while (args[i] && j < 255)`, with `left` bytes of room.
unfoldable pub take_hex : ℕ → List ℕ → Option (List ℕ)
take_hex left [] = none
take_hex zero (c ∷ args) = some []
take_hex (suc left) (c ∷ args) =
    let rest = take_hex left args in if c == 0 then some [] else rest >>= λ r. some (c ∷ r)

-- The value of a digit; any other character counts as zero.
unfoldable pub nibble : ℕ → ℕ
nibble c =
    if leb b'0' c && leb c b'9'
    then c - b'0'
    else if leb b'A' c && leb c b'F'
    then c - b'A' + 10
    else if leb b'a' c && leb c b'f'
    then c - b'a' + 10
    else 0

-- The bytes of the digits. Behind an odd number of them is a terminator.
unfoldable pub from_hex : List ℕ → List ℕ
unfolding nibble
from_hex [] = []
from_hex (c ∷ []) = (nibble c * 16) ∷ []
from_hex (c ∷ d ∷ digits) = (nibble c * 16 + nibble d) ∷ from_hex digits

-- `filename`, an array of twelve bytes, and `binary` up to `binary_size`.
unfoldable pub write_binary_args : List ℕ → Option (List ℕ × List ℕ)
write_binary_args args = do
  r ← take_name 11 args
  skipped ← skip_spaces r.1
  hexdata ← take_hex 255 skipped
  some (r.0 ++ replicate (12 - length r.0) 0, from_hex hexdata)

-- "0123456789ABCDEF"
abbrev pub hex_table : List ℕ
hex_table =
    b'0' ∷ b'1' ∷ b'2' ∷ b'3' ∷ b'4' ∷ b'5' ∷ b'6' ∷ b'7' ∷ b'8' ∷ b'9' ∷ b'A' ∷ b'B' ∷ b'C' ∷ b'D'
    ∷ b'E' ∷ b'F' ∷ []

-- What `cmd_read_binary` prints of the buffer.
unfoldable pub to_hex : List ℕ → List ℕ
to_hex [] = []
to_hex (b ∷ bytes) = get_or hex_table (b / 16) 0 ∷ get_or hex_table (b % 16) 0 ∷ to_hex bytes
