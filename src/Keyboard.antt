-- ===== src/Keyboard.antt =====
-- drivers/keyboard.c: from the scancodes of the keyboard to characters.
pub mod Keys
use package.ring_os.Prelude.{
  get_elem?, ◌/◌, ℕ, zero, suc, ◌+◌, ◌-◌, ◌%◌, Bool, true, false, not, ◌&&◌, ◌||◌, Option, none,
  some, List, [], ◌∷◌, ltb, leb, ◌==◌, if◌then◌else◌, get_or, length,
}

-- The static variables, with `extended_code` of `keyboard_read`.
pub record Keyboard : Type 0 where
  pub shift_pressed : Bool
  pub caps_lock : Bool
  pub extended_code : Bool

abbrev pub scancode_to_ascii : List ℕ
scancode_to_ascii =
    0 ∷ 0 ∷ b'1' ∷ b'2' ∷ b'3' ∷ b'4' ∷ b'5' ∷ b'6' ∷ b'7' ∷ b'8' ∷ b'9' ∷ b'0' ∷ b'-' ∷ b'=' ∷ 8
    ∷ 9 ∷ b'q' ∷ b'w' ∷ b'e' ∷ b'r' ∷ b't' ∷ b'y' ∷ b'u' ∷ b'i' ∷ b'o' ∷ b'p' ∷ b'[' ∷ b']' ∷ 10 ∷ 0
    ∷ b'a' ∷ b's' ∷ b'd' ∷ b'f' ∷ b'g' ∷ b'h' ∷ b'j' ∷ b'k' ∷ b'l' ∷ b';' ∷ 39 ∷ 96 ∷ 0 ∷ 92 ∷ b'z'
    ∷ b'x' ∷ b'c' ∷ b'v' ∷ b'b' ∷ b'n' ∷ b'm' ∷ b',' ∷ b'.' ∷ b'/' ∷ 0 ∷ b'*' ∷ 0 ∷ 32 ∷ []

abbrev pub scancode_to_ascii_shift : List ℕ
scancode_to_ascii_shift =
    0 ∷ 0 ∷ b'!' ∷ b'@' ∷ b'#' ∷ b'$' ∷ b'%' ∷ b'^' ∷ b'&' ∷ b'*' ∷ b'(' ∷ b')' ∷ b'_' ∷ b'+' ∷ 8
    ∷ 9 ∷ b'Q' ∷ b'W' ∷ b'E' ∷ b'R' ∷ b'T' ∷ b'Y' ∷ b'U' ∷ b'I' ∷ b'O' ∷ b'P' ∷ b'{' ∷ b'}' ∷ 10 ∷ 0
    ∷ b'A' ∷ b'S' ∷ b'D' ∷ b'F' ∷ b'G' ∷ b'H' ∷ b'J' ∷ b'K' ∷ b'L' ∷ b':' ∷ 34 ∷ b'~' ∷ 0 ∷ b'|'
    ∷ b'Z' ∷ b'X' ∷ b'C' ∷ b'V' ∷ b'B' ∷ b'N' ∷ b'M' ∷ b'<' ∷ b'>' ∷ b'?' ∷ 0 ∷ b'*' ∷ 0 ∷ 32 ∷ []

-- The wait of `keyboard_init` for the controller, on the statuses that it reads one after the other:
-- those behind the first without `KEYBOARD_INPUT_FULL`. `none` means that it still waits behind them.
unfoldable pub wait_ready : List ℕ → Option (List ℕ)
wait_ready [] = none
wait_ready (status ∷ more) =
    let rest = wait_ready more in if status / 2 % 2 == 0 then some more else rest

unfoldable pub init : List ℕ → Keyboard → Option Keyboard
unfolding wait_ready
init statuses k = elim (wait_ready statuses) [
  | none ↦ none
  | some more ↦ some (record k { shift_pressed = false; caps_lock = false })
]

-- `KEY_LSHIFT` and `KEY_RSHIFT`
abbrev pub is_shift : ℕ → Bool
is_shift code = code == 0x2A || code == 0x36

unfoldable pub swap_case : ℕ → ℕ
swap_case c =
    if leb b'a' c && leb c b'z' then c - 32 else if leb b'A' c && leb c b'Z' then c + 32 else c

-- The conversion of a make code that is no special key. `none` is a read behind the end of a table.
unfoldable pub to_ascii : Bool → Bool → ℕ → Option ℕ
unfolding swap_case
to_ascii shift caps scancode =
    if leb (length scancode_to_ascii) scancode
    then some 0
    else elim (get_elem? (if shift then scancode_to_ascii_shift else scancode_to_ascii) scancode) [
      | none ↦ none
      | some c ↦ some (if caps then swap_case c else c)
    ]

-- A scancode is a byte: `& 0x80` tests for 128, and `& 0x7F` takes it away.
unfoldable pub handle_scancode : ℕ → Keyboard → Option (Keyboard × ℕ)
unfolding to_ascii
handle_scancode scancode k =
    if leb 128 scancode
    then some (if is_shift (scancode % 128) then record k { shift_pressed = false } else k, 0)
    else if is_shift scancode
    then some (record k { shift_pressed = true }, 0)
    else if scancode == 0x3A
    then some (record k { caps_lock = not k.caps_lock }, 0)
    else if scancode == 0x01
    then some (k, 27)
    else elim (to_ascii k.shift_pressed k.caps_lock scancode) [ none ↦ none | some c ↦ some (k, c) ]

-- The four arrow keys behind the prefix.
unfoldable pub arrow : ℕ → ℕ
arrow scancode =
    if scancode == 0x48
    then b'^'
    else if scancode == 0x50
    then b'v'
    else if scancode == 0x4B
    then b'<'
    else if scancode == 0x4D
    then b'>'
    else 0

-- `keyboard_read` on the scancodes that the keyboard sends: the character, and the codes that are
-- still to come. `some none` means that it waits for more, and `none` is a read behind a table.
unfoldable pub read : Keyboard → List ℕ → Option (Option (Keyboard × ℕ × List ℕ))
unfolding handle_scancode arrow
read k [] = some none
read k (scancode ∷ codes) =
    let prefixed = read (record k { extended_code = true }) codes in
    let typed : Option (Option (Keyboard × ℕ × List ℕ)) = elim (handle_scancode scancode k) [
      | none ↦ none
      | some r ↦
          let next = read r.0 codes in if r.1 == 0 then next else some (some (r.0, r.1, codes))
    ] in
    if scancode == 0xE0
    then prefixed
    else if k.extended_code
    then some (some (record k { extended_code = false }, arrow scancode, codes))
    else typed
