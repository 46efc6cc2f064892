-- ===== src/DescriptorTables.antt =====
-- MP7_Sources/gdt.C and idt.C: the descriptor tables, as arrays of the packed structs. The other folders have the same
-- files. The loads of the tables into the processor are assembly stubs.
pub mod Decode
mod Tests
use csce410_611_spring2026_p.Base.{
  ℕ, zero, suc, ◌+◌, ◌-◌, ◌*◌, ◌%◌, ◌<◌, ◌≤◌, ◌≡◌, ◌≢◌, refl, sym, ap, ◌∙◌, inl, inr, ◌⊎◌, Bool,
  true, false, ◌&&◌, ◌||◌, ◌/◌, ◌^◌, Option, some, none, List, [], ◌∷◌, ◌++◌, arith, ltb, ◌==◌,
  if◌then◌else◌, put, put_ne, put_self, ℕ_discrete, dec_lt, copy, field_of, with_field,
  with_field-lt, field_of-with_field, field_of-put, length, Bool-cases, word_size, leb,
}

-- `struct gdt_entry`
pub record GdtEntry : Type 0 where
  pub limit_low : ℕ
  pub base_low : ℕ
  pub base_middle : ℕ
  pub access : ℕ
  pub granularity : ℕ
  pub base_high : ℕ

-- `struct idt_entry`
pub record IdtEntry : Type 0 where
  pub base_lo : ℕ
  pub sel : ℕ
  pub always0 : ℕ
  pub flags : ℕ
  pub base_hi : ℕ

-- `GDT::set_gate`; the two halves of `granularity` have no bit in common.
unfoldable pub gdt_set_gate : (ℕ → GdtEntry) → (num base limit access gran : ℕ) → ℕ → GdtEntry
gdt_set_gate gdt num base limit access gran = put gdt num (record {
  limit_low = limit % 2 ^ 16;
  base_low = base % 2 ^ 16;
  base_middle = base / 2 ^ 16 % 2 ^ 8;
  access = access;
  granularity = limit / 2 ^ 16 % 16 + gran / 16 % 16 * 16;
  base_high = base / 2 ^ 24 % 2 ^ 8;
})

-- The calls of `set_gate` in `GDT::init`
unfoldable pub gdt_init : (ℕ → GdtEntry) → ℕ → GdtEntry
unfolding gdt_set_gate
gdt_init gdt =
    let with_null = gdt_set_gate gdt 0 0 0 0 0 in
    let with_code = gdt_set_gate with_null 1 0 0xFFFF_FFFF 0x9A 0xCF in
    gdt_set_gate with_code 2 0 0xFFFF_FFFF 0x92 0xCF

-- `IDT::set_gate`
unfoldable pub idt_set_gate : (ℕ → IdtEntry) → (num base sel flags : ℕ) → ℕ → IdtEntry
idt_set_gate idt num base sel flags = put idt num (record {
  base_lo = base % 2 ^ 16;
  sel = sel;
  always0 = 0;
  flags = flags;
  base_hi = base / 2 ^ 16 % 2 ^ 16;
})

-- The `memset` in `IDT::init`
unfoldable pub idt_init : (ℕ → IdtEntry) → ℕ → IdtEntry
idt_init idt i =
    if ltb i 256
    then record { base_lo = 0; sel = 0; always0 = 0; flags = 0; base_hi = 0 }
    else idt i

-- The calls of `set_gate` in `init_dispatcher`, with `k` left from the vector `i` on; `stub` has the addresses of the
-- assembly stubs.
unfoldable pub install : (stub : ℕ → ℕ) (k i : ℕ) → (ℕ → IdtEntry) → ℕ → IdtEntry
unfolding idt_set_gate
install stub zero i idt = idt
install stub (suc k) i idt = install stub k (i + 1) (idt_set_gate idt i (stub i) 0x08 0x8E)

-- The gates that `ExceptionHandler::init_dispatcher` and `InterruptHandler::init_dispatcher` set after `IDT::init`
unfoldable pub exception_gates : (isr : ℕ → ℕ) → (ℕ → IdtEntry) → ℕ → IdtEntry
unfolding install
exception_gates isr idt = install isr 32 0 idt

unfoldable pub interrupt_gates : (irq : ℕ → ℕ) → (ℕ → IdtEntry) → ℕ → IdtEntry
unfolding install
interrupt_gates irq idt = install (λ i. irq (i - 32)) 16 32 idt
