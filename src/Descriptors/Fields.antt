-- ===== src/Descriptors/Fields.antt =====
-- What the processor assembles from the fields of a descriptor.
use ring_os.Prelude.{
  ℕ, ◌+◌, ◌*◌, ◌/◌, ◌%◌, ◌^◌, ◌≤◌, ◌<◌, ◌≡◌, ◌≢◌, refl, arith, ==_refl, ≢→==, Bool-cases, ==→≢, inl,
  inr, ◌∙◌, sym, true, false, u32_mod, ◌==◌, for_range, for_range_inv,
}
use ring_os.Descriptors.{
  Gdt, GdtEntry, Idt, IdtEntry, gdt_entry, set_gdt_entry, init_gdt, idt_gate, set_idt_gate,
  init_idt,
}

abbrev pub base : GdtEntry → ℕ
base e = e.base_low + e.base_middle * 65536 + e.base_high * 16777216

abbrev pub limit : GdtEntry → ℕ
limit e = e.limit_low + e.granularity % 16 * 65536

-- For a base of 32 bits, a limit of 20 bits and flags of 8 bits the entry that `set_gdt_entry`
-- sets holds the base, the limit, the access byte and the upper half of the flags; the other
-- entries are kept.
pub set_gdt_entry_lem :
    (gdt : Gdt) (num b l access flags : ℕ)
    → b < u32_mod
    → l < 2 ^ 20
    → flags < 256
    → let e = set_gdt_entry gdt num b l access flags num in
      (base e ≡ b)
      × (limit e ≡ l)
      × (e.access ≡ access)
      × (e.granularity / 16 ≡ flags / 16)
      × ((k : ℕ) → num ≢ k → set_gdt_entry gdt num b l access flags k ≡ gdt k)
unfolding set_gdt_entry gdt_entry
set_gdt_entry_lem gdt num b l access flags hb hl hf =
    rw (==_refl num) (omega arith, omega arith, refl, omega arith, λ k ne. rw (≢→== num k ne))

abbrev pub offset : IdtEntry → ℕ
offset e = e.offset_low + e.offset_high * 65536

set_here :
    (t : Idt) (i j b sel flags : ℕ)
    → (i == j) ≡ true
    → set_idt_gate t i b sel flags j ≡ idt_gate b sel flags
unfolding set_idt_gate
set_here t i j b sel flags e = rw e

set_other :
    (t : Idt) (i j b sel flags : ℕ) → (i == j) ≡ false → set_idt_gate t i b sel flags j ≡ t j
unfolding set_idt_gate
set_other t i j b sel flags e = rw e

cleared :
    (idt : Idt) (k : ℕ)
    → k < 256
    → for_range 256 0 (λ i t. set_idt_gate t i 0 0x08 0) idt k ≡ idt_gate 0 0x08 0
cleared idt k h =
    for_range_inv (λ i (t : Idt). (j : ℕ) → j < i → t j ≡ idt_gate 0 0x08 0)
      (λ i t. set_idt_gate t i 0 0x08 0) 256 0 clear_step 256 idt refl
      (λ j lt. absurd (omega arith)) k h
  where
    clear_step :
        (i : ℕ) (t : Idt)
        → 0 ≤ i
        → i < 0 + 256
        → ((j : ℕ) → j < i → t j ≡ idt_gate 0 0x08 0)
        → (j : ℕ) → j < i + 1
        → set_idt_gate t i 0 0x08 0 j ≡ idt_gate 0 0x08 0
    clear_step i t a b before j lt = elim (Bool-cases (i == j)) [
      | inl e ↦ set_here t i j 0 0x08 0 e
      | inr e ↦ set_other t i j 0 0x08 0 e ∙ before j (let ne = ==→≢ i j e in omega arith)
    ]

-- After `init_idt`, with handlers at 32-bit addresses, gates 0 and 0x80 are present and lead to
-- their handlers, and the other 254 are not present.
pub init_idt_lem :
    (isr0 isr80 : ℕ) (idt : Idt)
    → isr0 < u32_mod
    → isr80 < u32_mod
    → let t = init_idt isr0 isr80 idt in
      (offset (t 0) ≡ isr0)
      × ((t 0).type_attr ≡ 0x8E)
      × (offset (t 0x80) ≡ isr80)
      × ((t 0x80).type_attr ≡ 0x8E)
      × ((k : ℕ) → k ≢ 0 → k ≢ 0x80 → k < 256 → t k ≡ idt_gate 0 0x08 0)
unfolding init_idt set_idt_gate idt_gate
init_idt_lem isr0 isr80 idt h k = (
  omega arith,
  refl,
  omega arith,
  refl,
  λ j ne ne' lt. rw (≢→== 0x80 j (λ e. ne' (sym e)), ≢→== 0 j (λ e. ne (sym e))) (cleared idt j lt),
)

-- After `init_gdt` the null descriptor is empty, and the code and the data segment begin at 0 and
-- have the largest limit, in pages (flags 0xC).
pub init_gdt_lem :
    (gdt : Gdt)
    → let t = init_gdt gdt in
      (t 0 ≡ gdt_entry 0 0 0 0)
      × (base (t 1) ≡ 0)
      × (limit (t 1) ≡ 0xFFFFF)
      × ((t 1).access ≡ 0x9A)
      × ((t 1).granularity / 16 ≡ 0xC)
      × (base (t 2) ≡ 0)
      × (limit (t 2) ≡ 0xFFFFF)
      × ((t 2).access ≡ 0x92)
      × ((k : ℕ) → 2 < k → t k ≡ gdt k)
unfolding init_gdt set_gdt_entry gdt_entry
init_gdt_lem gdt = (
  refl,
  refl,
  refl,
  refl,
  refl,
  refl,
  refl,
  refl,
  λ k h. rw (≢→== 2 k (omega arith), ≢→== 1 k (omega arith), ≢→== 0 k (omega arith)),
)
