-- ===== src/InterruptHandler.antt =====
-- MP6_Sources/interrupts.{H,C} (MP3, MP4 and MP5 have the same text): class InterruptHandler. The table holds addresses
-- of handlers, 0 for none. The rest of the kernel is a state `S`, which the handlers change; `handle h` is
-- `handle_interrupt` of the object at `h`. The bytes that go out on a port are a list, the first one first.
pub mod Dispatch
mod Tests
use csce410_611_spring2026_p.Base.Run.{Run, ok, halted, ◌>>=◌}
use csce410_611_spring2026_p.Base.{
  [], put, ◌∷◌, copy, ltb, List, Bool, ℕ, ◌+◌, ◌-◌, ◌%◌, ◌/◌, ◌^◌, ◌==◌, ◌&&◌, ◌++◌, ◌≡◌, word_size,
  if◌then◌else◌,
}

abbrev pub irq_table_size : ℕ
irq_table_size = 16

abbrev pub irq_base : ℕ
irq_base = 32

-- `handler_table`
abbrev pub Handlers : Type 0
Handlers = ℕ → ℕ

-- The part of `init_dispatcher` behind the gates of the processor: no entry of the table has a handler.
unfoldable pub init_dispatcher : Handlers → Handlers
init_dispatcher table = copy irq_table_size (λ i. 0) table

unfoldable pub generated_by_slave_pic : ℕ → Bool
generated_by_slave_pic int_no = ltb 7 int_no

unfoldable pub register_handler : Handlers → (irq_code handler : ℕ) → Run Handlers
register_handler table irq_code handler =
    if ltb irq_code irq_table_size then ok (put table irq_code handler) else halted

unfoldable pub deregister_handler : Handlers → (irq_code : ℕ) → Run Handlers
deregister_handler table irq_code =
    if ltb irq_code irq_table_size then ok (put table irq_code 0) else halted

-- The end-of-interrupt signals: to the second controller if the interrupt came from it, then to the first
unfoldable pub end_of_interrupt : ℕ → List (ℕ × ℕ)
end_of_interrupt int_no =
    (if generated_by_slave_pic int_no then (0xa0, 0x20) ∷ [] else []) ++ ((0x20, 0x20) ∷ [])

module _ {S : Type 0} (handle : ℕ → S → Run S) where
  -- `vector` is the number in the registers; the difference has 32 bits.
  unfoldable pub dispatch_interrupt : Handlers → (vector : ℕ) → S → Run (S × List (ℕ × ℕ))
  dispatch_interrupt table vector s =
      let int_no = (word_size + vector - irq_base) % word_size in
      if ltb int_no irq_table_size
      then ((if table int_no == 0 then ok s else handle (table int_no) s)
          >>= (λ s'. ok (s', end_of_interrupt int_no)))
      else halted
