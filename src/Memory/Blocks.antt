-- ===== src/Memory/Blocks.antt =====
-- Blocks lie in the heap, are aligned and do not overlap, unless the size makes a sum wrap.
use ring_os.Prelude.{
  ℕ, ◌+◌, ◌/◌, ◌%◌, ◌*◌, ◌≤◌, ◌<◌, ◌≡◌, ◌⊎◌, none, some, List, [], ◌∷◌, arith, u32_mod, ltb,
  Bool-cases, ltb→lt, ltb→le, inl, inr,
}
use ring_os.Memory.{Heap, heap_size, kmalloc, kmalloc_all}

-- The next block starts in the heap or at its end, at a multiple of four.
pub record IsValid (h : Heap) : Type 0 where
  pub within : h.heap_ptr ≤ heap_size
  pub aligned : h.heap_ptr % 4 ≡ 0

-- The sizes for which `heap_ptr + size` cannot wrap.
abbrev pub IsModest : ℕ → Type 0
IsModest size = size + heap_size < u32_mod

-- From a heap whose next block starts in it, at a multiple of four, `kmalloc` of a size that does
-- not wrap either returns null and keeps the heap, if the block does not fit, or returns a block
-- inside the heap, behind which the next one starts, again at a multiple of four.
pub kmalloc_lem :
    (h : Heap) (size : ℕ)
    → IsValid h
    → IsModest size
    → (heap_size < h.heap_ptr + size) × (kmalloc h size ≡ (h, none))
      ⊎ (h' : Heap) × (kmalloc h size ≡ (h', some h.heap_ptr))
        × (h.heap_ptr + size ≤ heap_size)
        × (h.heap_ptr + size ≤ h'.heap_ptr)
        × IsValid h'
unfolding kmalloc
kmalloc_lem h size v m =
    let top : (h.heap_ptr + size) % u32_mod ≡ h.heap_ptr + size = omega arith in
    elim (Bool-cases (ltb heap_size (h.heap_ptr + size))) [
      | inl big ↦ inl (ltb→lt _ _ big, rw top (rw big))
      | inr fits ↦
          let le = ltb→le heap_size (h.heap_ptr + size) fits in
          inr (
            record h { heap_ptr = (h.heap_ptr + size + 3) % u32_mod / 4 * 4 },
            rw top (rw fits),
            le,
            omega arith,
            omega arith,
          )
    ]

-- From a heap whose next block starts in it, at a multiple of four, a request for so much of the
-- address space that the sum wraps is granted: the block reaches behind the heap, and the next
-- block starts at or before its start.
pub kmalloc_wraps :
    (h : Heap) (size : ℕ)
    → IsValid h
    → size < u32_mod
    → u32_mod ≤ h.heap_ptr + size
    → (h' : Heap) × (kmalloc h size ≡ (h', some h.heap_ptr))
      × (heap_size < h.heap_ptr + size)
      × (h'.heap_ptr ≤ h.heap_ptr)
unfolding kmalloc
kmalloc_wraps h size v small wraps =
    let top : (h.heap_ptr + size) % u32_mod ≤ h.heap_ptr = omega arith in
    (
      record h { heap_ptr = ((h.heap_ptr + size) % u32_mod + 3) % u32_mod / 4 * 4 },
      ground arith,
      omega arith,
      omega arith,
    )

-- Every block starts where the one before it ends or later, and the last one ends in the heap.
abbrev pub Separate : ℕ → List (ℕ × ℕ) → Type 0
Separate from [] = from ≤ heap_size
Separate from ((p, size) ∷ rest) = (from ≤ p) × (p % 4 ≡ 0) × Separate (p + size) rest

abbrev pub AllModest : List ℕ → Type 0
AllModest [] = Unit
AllModest (size ∷ sizes) = IsModest size × AllModest sizes

Separate-weaken : (a b : ℕ) (bs : List (ℕ × ℕ)) → a ≤ b → Separate b bs → Separate a bs
Separate-weaken a b [] le h = omega arith
Separate-weaken a b ((p, size) ∷ bs) le h = (omega (arith, h.0), h.1, h.2)

all_none :
    (h : Heap) (size : ℕ) (sizes : List ℕ)
    → kmalloc h size ≡ (h, none)
    → kmalloc_all h (size ∷ sizes) ≡ kmalloc_all h sizes
unfolding kmalloc_all
all_none h size sizes e = rw (e, kmalloc_all) (rw e)

all_some :
    (h h' : Heap) (p size : ℕ) (sizes : List ℕ)
    → kmalloc h size ≡ (h', some p)
    → kmalloc_all h (size ∷ sizes) ≡ (p, size) ∷ kmalloc_all h' sizes
unfolding kmalloc_all
all_some h h' p size sizes e = rw (e, kmalloc_all) (rw e)

-- From a heap whose next block starts in it, at a multiple of four, the blocks of a sequence of
-- requests, none of which wraps, are aligned, lie in the heap and do not overlap.
pub kmalloc_all-Separate :
    (sizes : List ℕ) (h : Heap)
    → IsValid h
    → AllModest sizes
    → Separate h.heap_ptr (kmalloc_all h sizes)
unfolding kmalloc_all
kmalloc_all-Separate [] h v m = v.within
kmalloc_all-Separate (size ∷ sizes) h v m = elim (kmalloc_lem h size v m.0) [
  | inl (big, run) ↦ rw (all_none h size sizes run) (kmalloc_all-Separate sizes h v m.1)
  | inr (h', run, fits, behind, v') ↦
      rw (all_some h h' h.heap_ptr size sizes run) (
        omega arith,
        v.aligned,
        Separate-weaken _ _ _ behind (kmalloc_all-Separate sizes h' v' m.1),
      )
]
