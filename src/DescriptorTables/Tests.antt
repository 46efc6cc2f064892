-- ===== src/DescriptorTables/Tests.antt =====
-- Entries of the descriptor tables of MP7_Sources/gdt.C and idt.C
use csce410_611_spring2026_p.DescriptorTables.{
  GdtEntry, IdtEntry, gdt_set_gate, gdt_init, idt_init, exception_gates, interrupt_gates,
}
use csce410_611_spring2026_p.DescriptorTables.Decode.{
  segment_of, gdt_byte, gate_of, idt_byte, gates-gate_of,
}
use csce410_611_spring2026_p.Base.{ℕ, ◌+◌, ◌*◌, ◌%◌, ◌≡◌, refl, true, arith}

abbrev old_gdt : ℕ → GdtEntry
old_gdt i = record {
  limit_low = 1;
  base_low = 2;
  base_middle = 3;
  access = 4;
  granularity = 5;
  base_high = 6;
}

abbrev old_idt : ℕ → IdtEntry
old_idt i = record { base_lo = 1; sel = 2; always0 = 3; flags = 4; base_hi = 5 }

-- The code segment is all of memory, in steps of 4 KB.
flat_segment :
    segment_of (gdt_byte (gdt_init old_gdt 1))
    ≡ record { base = 0; limit = 0xF_FFFF; access = 0x9A; flags = 0xC }
unfolding gdt_init gdt_set_gate
flat_segment = refl

gates-gate_of_example :
    gate_of (
      idt_byte (
        interrupt_gates
          (λ i. 0x10_0000 + i % 16 * 16)
          (exception_gates (λ i. 0x20_0000 + i % 32 * 16) (idt_init old_idt))
          33))
    ≡ record { handler = 0x10_0010; segment = 0x08; present = true }
gates-gate_of_example =
    gates-gate_of (λ i. 0x20_0000 + i % 32 * 16) (λ i. 0x10_0000 + i % 16 * 16) old_idt 33
      (λ i. omega arith) (λ i. omega arith) (omega arith)
