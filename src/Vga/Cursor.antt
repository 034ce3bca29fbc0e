-- ===== src/Vga/Cursor.antt =====
-- The cursor stays on the screen, and no character is written behind it.
use ring_os.Prelude.{
  ℕ, ◌+◌, ◌*◌, ◌/◌, ◌%◌, ◌≤◌, ◌<◌, ◌≡◌, ◌-◌, ◌^◌, ◌∙◌, length, refl, arith, List, [], ◌∷◌, ltb,
  if◌then◌else◌,
}
use ring_os.Vga.{Vga, putchar, put, scroll_if_full, set_cursor_pos, writestr, hex_digit, hex_digits}
use ring_os.Vga.Scroll.{scroll_lem}

-- The cursor is on the screen, and the controller was told where: the last four writes set the
-- high and the low byte of its position.
pub record IsShown (s : Vga) : Type 0 where
  pub on_screen : s.cursor_pos < 2000
  pub low : ℕ
  pub high : ℕ
  pub before : List (ℕ × ℕ)
  pub told : s.ports ≡ (0x3D5, high) ∷ (0x3D4, 0x0E) ∷ (0x3D5, low) ∷ (0x3D4, 0x0F) ∷ before
  pub position : high * 256 + low ≡ s.cursor_pos

put_bound : (c : ℕ) (s : Vga) → s.cursor_pos < 2000 → (put c s).cursor_pos ≤ 2000
unfolding put
put_bound c s h = ground arith

scroll_bound : (s : Vga) → s.cursor_pos ≤ 2000 → (scroll_if_full s).cursor_pos < 2000
unfolding scroll_if_full
scroll_bound s h = ground arith

set_cursor_pos-IsShown : (pos : ℕ) (s : Vga) → pos < 2000 → IsShown (set_cursor_pos pos s)
unfolding set_cursor_pos
set_cursor_pos-IsShown pos s h = record {
  on_screen = h;
  low = pos % 256;
  high = pos / 256 % 256;
  before = s.ports;
  told = refl;
  position = omega arith;
}

-- From a cursor on the screen `vga_putchar` of any byte leaves the cursor on the screen, and
-- tells the controller its position.
pub putchar-IsShown : (c : ℕ) (s : Vga) → s.cursor_pos < 2000 → IsShown (putchar c s)
unfolding putchar
putchar-IsShown c s h = set_cursor_pos-IsShown _ _ (scroll_bound (put c s) (put_bound c s h))

-- Cells behind the screen keep their values.
pub putchar_keeps :
    (c : ℕ) (s : Vga) (p : ℕ) → s.cursor_pos < 2000 → 2000 ≤ p → (putchar c s).buffer p ≡ s.buffer p
unfolding putchar put scroll_if_full set_cursor_pos
putchar_keeps c s p h far = ground (arith, scroll_lem s.color (put c s).buffer p)

-- From a cursor on the screen `vga_writestr` of any string leaves the cursor on the screen, and
-- changes no cell behind the screen.
pub writestr_lem :
    (str : List ℕ) (s : Vga)
    → s.cursor_pos < 2000
    → ((writestr str s).cursor_pos < 2000)
      × ((p : ℕ) → 2000 ≤ p → (writestr str s).buffer p ≡ s.buffer p)
unfolding writestr
writestr_lem [] s h = (h, λ p far. refl)
writestr_lem (c ∷ str) s h =
    let r = writestr_lem str (putchar c s) (putchar-IsShown c s h).on_screen in
    (r.0, λ p far. r.1 p far ∙ putchar_keeps c s p h far)

-- The digit of a character.
abbrev pub unhex : ℕ → ℕ
unhex c = if ltb c 58 then c - 48 else c - 55

abbrev pub hex_value : List ℕ → ℕ
hex_value [] = 0
hex_value (c ∷ cs) = unhex c * 16 ^ length cs + hex_value cs

unhex-hex_digit : (x : ℕ) → x < 16 → unhex (hex_digit x) ≡ x
unfolding hex_digit
unhex-hex_digit x h = ground arith

-- The eight digits that `vga_writehex` writes stand for the number, for every `uint32_t`.
pub hex_digits_lem : (n : ℕ) → n < 2 ^ 32 → hex_value (hex_digits 8 n) ≡ n
unfolding hex_digits
hex_digits_lem n h = omega (
  arith,
  unhex-hex_digit (n / 2 ^ 28 % 16) (omega arith),
  unhex-hex_digit (n / 2 ^ 24 % 16) (omega arith),
  unhex-hex_digit (n / 2 ^ 20 % 16) (omega arith),
  unhex-hex_digit (n / 2 ^ 16 % 16) (omega arith),
  unhex-hex_digit (n / 2 ^ 12 % 16) (omega arith),
  unhex-hex_digit (n / 2 ^ 8 % 16) (omega arith),
  unhex-hex_digit (n / 2 ^ 4 % 16) (omega arith),
  unhex-hex_digit (n / 2 ^ 0 % 16) (omega arith),
)
