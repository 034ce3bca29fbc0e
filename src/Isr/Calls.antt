-- ===== src/Isr/Calls.antt =====
-- kernel/isr.c: what no call of a program does.
use ring_os.Prelude.{
  ℕ, ◌≤◌, ◌<◌, ◌≡◌, refl, ap, ◌∙◌, Bool, Option, some, List, arith, if◌then◌else◌, for_range_inv,
  ≢→==,
}
use ring_os.Block.{BlockDevice, IsReliable}
use ring_os.Vga.{Vga, writestr, clear, set_color, blank, store, vga_entry, outb, set_cursor_pos}
use ring_os.Vga.Cursor.{writestr_lem}
use ring_os.Isr.{Kernel, Registers, Space, print_prompt, shell_init, on_screen, welcome, hint}

-- The cursor is on the screen, and no cell behind the screen changed.
abbrev pub IsDrawn : Vga → Vga → Type 0
IsDrawn s s' = (s'.cursor_pos < 2000) × ((p : ℕ) → 2000 ≤ p → s'.buffer p ≡ s.buffer p)

IsDrawn-trans : (a b c : Vga) → IsDrawn a b → IsDrawn b c → IsDrawn a c
IsDrawn-trans a b c one two = (two.0, λ p far. two.1 p far ∙ one.1 p far)

-- A string in a colour.
colored :
    (fg bg : ℕ) (text : List ℕ) (a s : Vga)
    → IsDrawn a s
    → IsDrawn a (writestr text (set_color fg bg s))
unfolding set_color
colored fg bg text a s h =
    IsDrawn-trans a s (writestr text (set_color fg bg s)) h
      (writestr_lem text (set_color fg bg s) h.0)

blank_keeps : (color : ℕ) (b : ℕ → ℕ) (p : ℕ) → 2000 ≤ p → blank color b p ≡ b p
unfolding blank
blank_keeps color b p far =
    for_range_inv (λ i m. m p ≡ b p) (λ i m. store m i (vga_entry 32 color)) 2000 0
      (λ i m low high e.
        ap (λ (t : Bool). if t then vga_entry 32 color else m p) (≢→== i p (omega arith)) ∙ e)
      2000 b refl refl

cleared : (a s : Vga) → IsDrawn a s → IsDrawn a (clear s)
unfolding clear set_cursor_pos outb
cleared a s h = (omega arith, λ p far. blank_keeps s.color s.buffer p far ∙ h.1 p far)

prompt : (path : List ℕ) (a s : Vga) → IsDrawn a s → IsDrawn a (print_prompt path s)
unfolding print_prompt
prompt path a s h =
    colored 15 0 _ a _ (colored 3 0 path a _ (colored 5 0 _ a _ (colored 3 0 _ a s h)))

module _ {S : Type 0} (k : Kernel S) where
  pub written : (text : List ℕ) (a : Vga) → IsDrawn a k.vga → IsDrawn a (on_screen k text).vga
  written text a h = IsDrawn-trans a k.vga (writestr text k.vga) h (writestr_lem text k.vga h.0)

  pub started : (a : Vga) → IsDrawn a k.vga → IsDrawn a (shell_init k).vga
  unfolding shell_init
  started a h =
      prompt k.io.fs.current.path a _
        (colored 15 0 hint a _ (colored 1 15 welcome a (clear k.vga) (cleared a k.vga h)))

module _ (dev : BlockDevice) (rel : IsReliable dev) (space : Space) where
  open rel use {contents}

  -- What the handler leaves behind.
  pub record Handled (regs : Registers) (k : Kernel dev.State)
      (r : Option (Registers × Kernel dev.State)) : Type 0 where
    pub regs' : Registers
    pub k' : Kernel dev.State
    pub run : r ≡ some (regs', k')
    pub registers : regs' ≡ record regs { eax = regs'.eax }
    pub drawn : IsDrawn k.vga k'.vga
    pub driver : k'.io ≡ record k.io { fs = record k.io.fs { disk = k'.io.fs.disk } }
    pub sectors : contents k'.io.fs.disk ≡ contents k.io.fs.disk
