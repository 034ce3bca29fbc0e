-- ===== src/Tests.antt =====
-- The theorems on strings, memory, the screen, the keyboard and the descriptors, applied to
-- concrete values.
use ring_os.Prelude.{
  false, if◌then◌else◌, true, ◌<◌, ℕ, ◌+◌, ◌≤◌, ◌≡◌, some, List, [], ◌∷◌, ◌++◌, arith, length,
  replicate, drop,
}
use ring_os.CString.{uint32_t_to_str}
use ring_os.CString.Digits.{value, IsDigits, uint32_t_to_str_lem}
use ring_os.Memory.{Heap, kmalloc_all}
use ring_os.Memory.Blocks.{IsValid, Separate, kmalloc_all-Separate}
use ring_os.Vga.{Vga, putchar}
use ring_os.Vga.Cursor.{IsShown, putchar-IsShown}
use ring_os.Keyboard.{Keyboard, handle_scancode}
use ring_os.Keyboard.Keys.{is_lower, plain, letter_case, handle_scancode_lem}
use ring_os.Descriptors.{Gdt, gdt_entry, set_gdt_entry, Idt, idt_gate}

-- `ls` and `cd`
abbrev ls : List ℕ
ls = b'l' ∷ b's' ∷ []

abbrev cd : List ℕ
cd = b'c' ∷ b'd' ∷ []

uint32_t_to_str_example :
    (ds : List ℕ) × (uint32_t_to_str 4096 (replicate 12 9)
      ≡ some (ds ++ 0 ∷ drop (length ds + 1) (replicate 12 9)))
    × (value ds ≡ 4096)
    × (length ds ≤ 10)
    × IsDigits ds
uint32_t_to_str_example = uint32_t_to_str_lem 4096 (replicate 12 9) (omega arith) (omega arith)

abbrev small_heap : Heap
small_heap = record { bytes = λ _. 0; heap_ptr = 64 }

small_heap-IsValid : IsValid small_heap
small_heap-IsValid = record { within = omega arith; aligned = omega arith }

kmalloc_all_example : Separate 64 (kmalloc_all small_heap (10 ∷ 3 ∷ []))
kmalloc_all_example =
    kmalloc_all-Separate (10 ∷ 3 ∷ []) small_heap small_heap-IsValid
      (omega arith, (omega arith, tt))

abbrev screen : Vga
screen = record { buffer = λ _. 0; color = 15; cursor_pos = 1999; ports = [] }

putchar_example : IsShown (putchar b'a' screen)
putchar_example = putchar-IsShown b'a' screen (omega arith)

-- The key of `a`, with shift.
abbrev shifted : Keyboard
shifted = record { shift_pressed = true; caps_lock = false; extended_code = false }

handle_scancode_example :
    (k' : Keyboard) × (c : ℕ) × (handle_scancode 30 shifted ≡ some (k', c))
    × (c < 128)
    × (c ≡ (if is_lower (plain 30) then letter_case true false (plain 30) else c))
handle_scancode_example = handle_scancode_lem 30 shifted (omega arith)

abbrev no_gdt : Gdt
no_gdt _ = gdt_entry 0 0 0 0

abbrev no_idt : Idt
no_idt _ = idt_gate 0 0 0

abbrev one_segment : Gdt
one_segment = set_gdt_entry no_gdt 1 4096 255 154 192
