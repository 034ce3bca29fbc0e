-- ===== src/Vga.antt =====
-- drivers/vga.c: the text screen. The memory at `vga_buffer` is a function from cells to values,
-- also behind the 2000 cells that are shown.
pub mod Scroll
pub mod Cursor
use package.ring_os.Prelude.{
  ℕ, zero, suc, ◌+◌, ◌-◌, ◌*◌, ◌/◌, ◌%◌, ◌^◌, List, [], ◌∷◌, ◌++◌, ltb, leb, ◌==◌, if◌then◌else◌,
  for_range,
}

-- `VGA_WIDTH` and `VGA_HEIGHT`
abbrev pub width : ℕ
width = 80

abbrev pub height : ℕ
height = 25

-- The static variables of the driver, and what it wrote to ports, the latest first.
pub record Vga : Type 0 where
  pub buffer : ℕ → ℕ
  pub color : ℕ
  pub cursor_pos : ℕ
  pub ports : List (ℕ × ℕ)

-- `char` is signed, so that a byte from 128 on fills the attribute byte with ones.
unfoldable pub vga_entry : ℕ → ℕ → ℕ
vga_entry c color = if ltb c 128 then c + color * 256 else 0xFF00 + c

abbrev pub store : (ℕ → ℕ) → ℕ → ℕ → ℕ → ℕ
store buffer p v q = if p == q then v else buffer q

unfoldable pub outb : ℕ → ℕ → Vga → Vga
outb port value s = record s { ports = (port, value) ∷ s.ports }

unfoldable pub set_cursor_pos : ℕ → Vga → Vga
unfolding outb
set_cursor_pos pos s =
    outb 0x3D5 (pos / 256 % 256)
      (outb 0x3D4 0x0E (outb 0x3D5 (pos % 256) (outb 0x3D4 0x0F (record s { cursor_pos = pos }))))

-- Fill the screen with spaces in a color.
unfoldable pub blank : ℕ → (ℕ → ℕ) → ℕ → ℕ
blank color = for_range (width * height) 0 (λ i b. store b i (vga_entry 32 color))

unfoldable pub init : Vga → Vga
unfolding outb
init s =
    let s' = outb 0x3D5 0x7F (outb 0x3D4 0x11 (outb 0x3C2 0xE7 s)) in
    set_cursor_pos 0 (record s' { buffer = blank 0x0F s.buffer; color = 0x0F; cursor_pos = 0 })

unfoldable pub clear : Vga → Vga
clear s = set_cursor_pos 0 (record s { buffer = blank s.color s.buffer; cursor_pos = 0 })

-- The loop that moves row `i + 1` to row `i`.
unfoldable pub move_row : ℕ → (ℕ → ℕ) → ℕ → ℕ
move_row i = for_range width 0 (λ j b. store b (i * width + j) (b ((i + 1) * width + j)))

-- Everything moves up by a row, and the last row is cleared.
unfoldable pub scroll : ℕ → (ℕ → ℕ) → ℕ → ℕ
scroll color buffer =
    for_range width 0 (λ i b. store b ((height - 1) * width + i) (vga_entry 32 color))
      (for_range (height - 1) 0 move_row buffer)

-- The first part of `vga_putchar`. `cursor_pos` has 16 bits.
unfoldable pub put : ℕ → Vga → Vga
put c s =
    if c == b'\n'
    then record s { cursor_pos = (s.cursor_pos / width + 1) * width % 2 ^ 16 }
    else if c == 8
    then if ltb 0 s.cursor_pos
      then record s {
        cursor_pos = s.cursor_pos - 1;
        buffer = store s.buffer (s.cursor_pos - 1) (vga_entry 32 s.color);
      }
      else s
    else record s {
      cursor_pos = (s.cursor_pos + 1) % 2 ^ 16;
      buffer = store s.buffer s.cursor_pos (vga_entry c s.color);
    }

unfoldable pub scroll_if_full : Vga → Vga
scroll_if_full s =
    if leb (width * height) s.cursor_pos
    then record s { cursor_pos = (height - 1) * width; buffer = scroll s.color s.buffer }
    else s

unfoldable pub putchar : ℕ → Vga → Vga
putchar c s = let s' = scroll_if_full (put c s) in set_cursor_pos s'.cursor_pos s'

-- The string without its terminator.
unfoldable pub writestr : List ℕ → Vga → Vga
writestr [] s = s
writestr (c ∷ str) s = writestr str (putchar c s)

unfoldable pub hex_digit : ℕ → ℕ
hex_digit nibble = if ltb nibble 10 then 48 + nibble else 65 + nibble - 10

-- The digits of `n`, of which `left` are to go.
unfoldable pub hex_digits : ℕ → ℕ → List ℕ
hex_digits zero n = []
hex_digits (suc left) n = hex_digit (n / 2 ^ (4 * left) % 16) ∷ hex_digits left n

unfoldable pub writehex : ℕ → Vga → Vga
writehex n s = writestr (hex_digits 8 n) (writestr (48 ∷ 120 ∷ []) s)

unfoldable pub set_color : ℕ → ℕ → Vga → Vga
set_color fg bg s = record s { color = bg * 16 % 256 + fg % 16 }

-- drivers/stdterm.c
unfoldable pub println : List ℕ → Vga → Vga
println str s = putchar b'\n' (writestr str s)
