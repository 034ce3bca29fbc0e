-- ===== src/Descriptors.antt =====
-- kernel/gdt.c and kernel/idt.c: the descriptors as the processor reads them.
pub mod Fields
use package.ring_os.Prelude.{
  ℕ, zero, suc, ◌+◌, ◌*◌, ◌/◌, ◌%◌, List, [], ◌∷◌, ◌==◌, if◌then◌else◌, for_range,
}

-- `struct gdt_entry`
pub record GdtEntry : Type 0 where
  pub limit_low : ℕ
  pub base_low : ℕ
  pub base_middle : ℕ
  pub access : ℕ
  pub granularity : ℕ
  pub base_high : ℕ

-- The array `gdt`.
abbrev pub Gdt : Type 0
Gdt = ℕ → GdtEntry

-- The two halves of `granularity` share no bit, so that `|=` adds them.
unfoldable pub gdt_entry : ℕ → ℕ → ℕ → ℕ → GdtEntry
gdt_entry base limit access granularity = record {
  limit_low = limit % 65536;
  base_low = base % 65536;
  base_middle = base / 65536 % 256;
  access = access;
  granularity = limit / 65536 % 16 + granularity / 16 % 16 * 16;
  base_high = base / 16777216 % 256;
}

unfoldable pub set_gdt_entry : Gdt → ℕ → ℕ → ℕ → ℕ → ℕ → Gdt
set_gdt_entry gdt num base limit access granularity k =
    if num == k then gdt_entry base limit access granularity else gdt k

-- `init_gdt` without the load of the table.
unfoldable pub init_gdt : Gdt → Gdt
init_gdt gdt =
    let null = set_gdt_entry gdt 0 0 0 0 0 in
    let code = set_gdt_entry null 1 0 0xFFFFF 0x9A 0xCF in set_gdt_entry code 2 0 0xFFFFF 0x92 0xCF

-- `struct idt_entry`
pub record IdtEntry : Type 0 where
  pub offset_low : ℕ
  pub selector : ℕ
  pub zero_byte : ℕ
  pub type_attr : ℕ
  pub offset_high : ℕ

abbrev pub Idt : Type 0
Idt = ℕ → IdtEntry

unfoldable pub idt_gate : ℕ → ℕ → ℕ → IdtEntry
idt_gate base sel flags = record {
  offset_low = base % 65536;
  selector = sel;
  zero_byte = 0;
  type_attr = flags;
  offset_high = base / 65536 % 65536;
}

unfoldable pub set_idt_gate : Idt → ℕ → ℕ → ℕ → ℕ → Idt
set_idt_gate idt num base sel flags k = if num == k then idt_gate base sel flags else idt k

-- `init_idt` without the load of the table. `isr0` and `isr80` are the addresses of the handlers.
unfoldable pub init_idt : ℕ → ℕ → Idt → Idt
init_idt isr0 isr80 idt =
    let clear = for_range 256 0 (λ i t. set_idt_gate t i 0 0x08 0) idt in
    let divide = set_idt_gate clear 0 isr0 0x08 0x8E in set_idt_gate divide 0x80 isr80 0x08 0x8E
