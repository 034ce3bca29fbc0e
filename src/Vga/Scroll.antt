-- ===== src/Vga/Scroll.antt =====
-- The loops over the screen against what they leave in each cell.
use ring_os.Prelude.{
  ℕ, ◌+◌, ◌*◌, ◌≤◌, ◌<◌, ◌≡◌, refl, arith, ltb, if◌then◌else◌, for_range, for_range_inv,
}
use ring_os.Vga.{width, store, vga_entry, move_row, scroll, blank}

-- After `j` cells of a row.
Moved : (ℕ → ℕ) → ℕ → ℕ → (ℕ → ℕ) → Type 0
Moved b i j t =
    (p : ℕ)
    → t p ≡ (if ltb p (i * 80) then b (p + 80) else if ltb p (i * 80 + j) then b (p + 80) else b p)

Rows : (ℕ → ℕ) → ℕ → (ℕ → ℕ) → Type 0
Rows b i t = (p : ℕ) → t p ≡ (if ltb p (i * 80) then b (p + 80) else b p)

move_cell :
    (b : ℕ → ℕ) (i j : ℕ) (t : ℕ → ℕ)
    → 0 ≤ j
    → j < 0 + 80
    → Moved b i j t
    → Moved b i (j + 1) (store t (i * width + j) (t ((i + 1) * width + j)))
unfolding Moved
move_cell b i j t a lt m p = ground (arith, m p, m ((i + 1) * 80 + j))

move_row-Rows :
    (b : ℕ → ℕ) (i : ℕ) (t : ℕ → ℕ)
    → 0 ≤ i
    → i < 0 + 24
    → Rows b i t
    → Rows b (i + 1) (move_row i t)
unfolding move_row Moved Rows
move_row-Rows b i t a lt rows p = ground (
  arith,
  for_range_inv (Moved b i) (λ j u. store u (i * width + j) (u ((i + 1) * width + j))) 80 0
      (move_cell b i) 80 t refl (λ q. ground (arith, rows q)) p,
)

-- After `i` cells of the last row were cleared.
Cleared : (ℕ → ℕ) → ℕ → ℕ → ℕ → (ℕ → ℕ) → Type 0
Cleared b color start i t =
    (p : ℕ)
    → t p ≡ (if ltb p start then b p else if ltb p (start + i) then vga_entry 32 color else b p)

clear_cell :
    (b : ℕ → ℕ) (color start i : ℕ) (t : ℕ → ℕ)
    → Cleared b color start i t
    → Cleared b color start (i + 1) (store t (start + i) (vga_entry 32 color))
unfolding Cleared
clear_cell b color start i t c p = ground (arith, c p)

Rows-moved : (b : ℕ → ℕ) → Rows b 24 (for_range 24 0 move_row b)
unfolding Rows
Rows-moved b = for_range_inv (Rows b) move_row 24 0 (move_row-Rows b) 24 b refl (start b)
  where
    start : (b : ℕ → ℕ) → Rows b 0 b
    start b p = ground arith

-- Scrolling moves each row to the one above it, fills the last row with spaces in the current
-- color, and writes no cell behind the screen.
pub scroll_lem :
    (color : ℕ) (b : ℕ → ℕ) (p : ℕ)
    → scroll color b p
      ≡ (if ltb p 1920 then b (p + 80) else if ltb p 2000 then vga_entry 32 color else b p)
unfolding scroll Rows Cleared
scroll_lem color b p =
    let moved = for_range 24 0 move_row b in
    ground (
      arith,
      Rows-moved b p,
      for_range_inv (Cleared moved color 1920)
          (λ i t. store t (24 * width + i) (vga_entry 32 color)) 80 0
          (λ i t x y. clear_cell moved color 1920 i t) 80 moved refl (λ q. ground arith) p,
    )

-- Clearing the screen fills its cells with spaces, and writes no cell behind it.
pub blank_lem :
    (color : ℕ) (b : ℕ → ℕ) (p : ℕ)
    → blank color b p ≡ (if ltb p 2000 then vga_entry 32 color else b p)
unfolding blank Cleared
blank_lem color b p = ground (
  arith,
  for_range_inv (Cleared b color 0) (λ i t. store t i (vga_entry 32 color)) 2000 0
      (λ i t x y c. blank_cell i t c) 2000 b refl (λ q. ground arith) p,
)
  where
    blank_cell :
        (i : ℕ) (t : ℕ → ℕ)
        → Cleared b color 0 i t
        → Cleared b color 0 (i + 1) (store t i (vga_entry 32 color))
    blank_cell i t c q = ground (arith, c q)
