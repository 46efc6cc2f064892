-- ===== src/DescriptorTables/Decode.antt =====
-- MP7_Sources/gdt.C and idt.C: what the processor reads from the tables, in the bytes of the packed structs.
use csce410_611_spring2026_p.DescriptorTables.{
  GdtEntry, IdtEntry, gdt_set_gate, idt_set_gate, idt_init, install, exception_gates,
  interrupt_gates,
}
use csce410_611_spring2026_p.Base.{
  ℕ, zero, suc, ◌+◌, ◌-◌, ◌*◌, ◌%◌, ◌<◌, ◌≡◌, ◌≢◌, refl, sym, ap, ◌∙◌, Bool, true, false, ◌&&◌, ◌/◌,
  ◌^◌, arith, ltb, ◌==◌, if◌then◌else◌, put, put_ne, put_self, ℕ_discrete, dec_lt, word_size, leb,
}

-- The eight bytes of an entry, in the order of the struct
abbrev pub gdt_byte : GdtEntry → ℕ → ℕ
gdt_byte e k =
    if k == 0
    then e.limit_low % 256
    else if k == 1
    then e.limit_low / 256 % 256
    else if k == 2
    then e.base_low % 256
    else if k == 3
    then e.base_low / 256 % 256
    else if k == 4
    then e.base_middle
    else if k == 5
    then e.access
    else if k == 6
    then e.granularity
    else e.base_high

abbrev pub idt_byte : IdtEntry → ℕ → ℕ
idt_byte e k =
    if k == 0
    then e.base_lo % 256
    else if k == 1
    then e.base_lo / 256 % 256
    else if k == 2
    then e.sel % 256
    else if k == 3
    then e.sel / 256 % 256
    else if k == 4
    then e.always0
    else if k == 5
    then e.flags
    else if k == 6
    then e.base_hi % 256
    else e.base_hi / 256 % 256

-- A segment as the processor reads it from eight bytes
pub record Segment : Type 0 where
  pub base : ℕ
  pub limit : ℕ
  pub access : ℕ
  pub flags : ℕ

abbrev pub segment_of : (ℕ → ℕ) → Segment
segment_of b = record {
  base = b 2 + 2 ^ 8 * b 3 + 2 ^ 16 * b 4 + 2 ^ 24 * b 7;
  limit = b 0 + 2 ^ 8 * b 1 + 2 ^ 16 * (b 6 % 16);
  access = b 5;
  flags = b 6 / 16;
}

-- A gate as the processor reads it: the address of the handler, its segment, and whether it is there
pub record Gate : Type 0 where
  pub handler : ℕ
  pub segment : ℕ
  pub present : Bool

abbrev pub gate_of : (ℕ → ℕ) → Gate
gate_of b = record {
  handler = b 0 + 2 ^ 8 * b 1 + 2 ^ 16 * b 6 + 2 ^ 24 * b 7;
  segment = b 2 + 2 ^ 8 * b 3;
  present = b 5 / 128 % 2 == 1;
}

record_eq :
    (b b' l l' f f' : ℕ) (a : ℕ)
    → b ≡ b'
    → l ≡ l'
    → f ≡ f'
    → ◌≡◌ {A = Segment}
        (record { base = b; limit = l; access = a; flags = f })
        (record { base = b'; limit = l'; access = a; flags = f' })
record_eq b b' l l' f f' a e e' e'' = rw (e, e', e'') refl

-- The entry that `GDT::set_gate` writes is read by the processor as the segment with the base, the low 20 bits of the
-- limit, the access byte and the upper four bits of the granularity; no other entry changes.
pub gdt_set_gate-segment_of :
    (gdt : ℕ → GdtEntry) (num base limit access gran : ℕ)
    → base < word_size
    → gran < 256
    → (segment_of (gdt_byte (gdt_set_gate gdt num base limit access gran num))
        ≡ record { base = base; limit = limit % 2 ^ 20; access = access; flags = gran / 16 })
      × ((j : ℕ) → j ≢ num → gdt_set_gate gdt num base limit access gran j ≡ gdt j)
unfolding gdt_set_gate
gdt_set_gate-segment_of gdt num base limit access gran hb hg = (
  rw (put_self gdt num _) (record_eq _ _ _ _ _ _ access (omega arith) (omega arith) (omega arith)),
  λ j ne. put_ne gdt num j _ (λ e. ne (sym e)),
)

-- The entry that `IDT::set_gate` writes for a stub
abbrev stub_entry : ℕ → IdtEntry
stub_entry address = record {
  base_lo = address % 2 ^ 16;
  sel = 0x08;
  always0 = 0;
  flags = 0x8E;
  base_hi = address / 2 ^ 16 % 2 ^ 16;
}

abbrev cleared_entry : IdtEntry
cleared_entry = record { base_lo = 0; sel = 0; always0 = 0; flags = 0; base_hi = 0 }

install_lem :
    (stub : ℕ → ℕ) (k i : ℕ) (idt : ℕ → IdtEntry) (j : ℕ)
    → install stub k i idt j ≡ (if leb i j && ltb j (i + k) then stub_entry (stub j) else idt j)
unfolding install idt_set_gate
install_lem stub zero i idt j = ground arith
install_lem stub (suc k) i idt j =
    install_lem stub k (i + 1) (put idt i (stub_entry (stub i))) j
    ∙ elim (ℕ_discrete i j) [ yes e ↦ rw (← e) (ground arith) | no ne ↦ ground arith ]

stub-gate_of :
    (address : ℕ)
    → address < word_size
    → gate_of (idt_byte (stub_entry address))
      ≡ record { handler = address; segment = 0x08; present = true }
stub-gate_of address h =
    let whole : address % 2 ^ 16 % 256
          + 2 ^ 8 * (address % 2 ^ 16 / 256 % 256)
          + 2 ^ 16 * (address / 2 ^ 16 % 2 ^ 16 % 256)
          + 2 ^ 24 * (address / 2 ^ 16 % 2 ^ 16 / 256 % 256)
        ≡ address =
      omega arith in
    ap (λ a. record { handler = a; segment = 0x08; present = true }) whole

-- Once `IDT::init` has run and both dispatchers have set their gates, the processor finds the stub of each exception at
-- the vectors 0 to 31, the stub of each interrupt line at 32 to 47, in the code segment, and no gate at any other
-- vector.
pub gates-gate_of :
    (isr irq : ℕ → ℕ) (idt : ℕ → IdtEntry) (v : ℕ)
    → ((i : ℕ) → isr i < word_size)
    → ((i : ℕ) → irq i < word_size)
    → v < 256
    → gate_of (idt_byte (interrupt_gates irq (exception_gates isr (idt_init idt)) v)) ≡ (
        if ltb v 32
        then record { handler = isr v; segment = 0x08; present = true }
        else if ltb v 48
        then record { handler = irq (v - 32); segment = 0x08; present = true }
        else record { handler = 0; segment = 0; present = false })
unfolding interrupt_gates exception_gates idt_init
gates-gate_of isr irq idt v isr_word irq_word h =
    let second = install_lem (λ i. irq (i - 32)) 16 32 (install isr 32 0 (idt_init idt)) v in
    let first = install_lem isr 32 0 (idt_init idt) v in
    let gates = interrupt_gates irq (exception_gates isr (idt_init idt)) in
    elim (dec_lt v 32) [
      | yes low ↦
          let below : ltb v 32 ≡ true = ground arith in
          let outside : (leb 32 v && ltb v 48) ≡ false = ground arith in
          let inside : (leb 0 v && ltb v 32) ≡ true = ground arith in
          let entry : gates v ≡ stub_entry (isr v) = second ∙ rw outside (first ∙ rw inside refl) in
          ap (λ e. gate_of (idt_byte e)) entry ∙ stub-gate_of (isr v) (isr_word v) ∙ rw below refl
      | no high ↦
          let above : ltb v 32 ≡ false = ground arith in
          elim (dec_lt v 48) [
            | yes mid ↦
                let below : ltb v 48 ≡ true = ground arith in
                let inside : (leb 32 v && ltb v 48) ≡ true = ground arith in
                let entry : gates v ≡ stub_entry (irq (v - 32)) = second ∙ rw inside refl in
                ap (λ e. gate_of (idt_byte e)) entry
                ∙ stub-gate_of (irq (v - 32)) (irq_word (v - 32))
                ∙ rw (above, below) refl
            | no top ↦
                let beyond : ltb v 48 ≡ false = ground arith in
                let outside : (leb 32 v && ltb v 48) ≡ false = ground arith in
                let outside' : (leb 0 v && ltb v 32) ≡ false = ground arith in
                let cleared : ltb v 256 ≡ true = ground arith in
                let entry : gates v ≡ cleared_entry =
                  second ∙ rw outside (first ∙ rw outside' (rw cleared refl)) in
                ap (λ e. gate_of (idt_byte e)) entry ∙ rw (above, beyond) refl
          ]
    ]
