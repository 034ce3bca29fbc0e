-- ===== src/Memory.antt =====
-- drivers/memory.c: the heap of the kernel, of which `kmalloc` hands out one block after another.
pub mod Blocks
use package.ring_os.Prelude.{
  ℕ, ◌+◌, ◌*◌, ◌/◌, ◌%◌, u32_mod, Option, none, some, List, [], ◌∷◌, ltb, if◌then◌else◌,
}

-- `HEAP_SIZE`
abbrev pub heap_size : ℕ
heap_size = 1048576

-- The static variables `heap` and `heap_ptr`. A pointer into the heap is its index.
pub record Heap : Type 0 where
  pub bytes : ℕ → ℕ
  pub heap_ptr : ℕ

unfoldable pub init_memory : Heap → Heap
init_memory h = record { bytes = λ k. if ltb k heap_size then 0 else h.bytes k; heap_ptr = 0 }

-- `size_t` has 32 bits: the sum in the test wraps. `& ~3` clears the two lowest bits.
unfoldable pub kmalloc : Heap → ℕ → Heap × Option ℕ
kmalloc h size =
    let top = (h.heap_ptr + size) % u32_mod in
    if ltb heap_size top
    then (h, none)
    else (record h { heap_ptr = (top + 3) % u32_mod / 4 * 4 }, some h.heap_ptr)

-- It gives nothing back.
unfoldable pub kfree : Heap → ℕ → Heap
kfree h ptr = h

-- The blocks that a sequence of requests obtains, in order: the start and the size of each.
unfoldable pub kmalloc_all : Heap → List ℕ → List (ℕ × ℕ)
kmalloc_all h [] = []
kmalloc_all h (size ∷ sizes) =
    let (h', r) = kmalloc h size in
    let rest = kmalloc_all h' sizes in elim r [ none ↦ rest | some p ↦ (p, size) ∷ rest ]
