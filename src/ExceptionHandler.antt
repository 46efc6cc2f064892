-- ===== src/ExceptionHandler.antt =====
-- MP7_Sources/exceptions.C (the other folders have the same text): class ExceptionHandler. The table holds addresses of
-- handlers, 0 for none; `handle h` is `handle_exception` of the object at `h`, on the state `S` of the kernel.
pub mod Calls
use csce410_611_spring2026_p.Base.Run.{Run, ok, halted}
use csce410_611_spring2026_p.Base.{
  ℕ, zero, suc, ◌+◌, ◌-◌, ◌*◌, ◌%◌, ◌<◌, ◌≤◌, ◌≡◌, ◌≢◌, refl, sym, ap, ◌∙◌, inl, inr, ◌⊎◌, Bool,
  true, false, ◌&&◌, ◌||◌, ◌/◌, ◌^◌, Option, some, none, List, [], ◌∷◌, ◌++◌, arith, ltb, ◌==◌,
  if◌then◌else◌, put, put_ne, put_self, ℕ_discrete, dec_lt, copy, field_of, with_field,
  with_field-lt, field_of-with_field, field_of-put, length, Bool-cases, word_size, leb,
}

abbrev pub exception_table_size : ℕ
exception_table_size = 32

-- The end of `init_dispatcher`, behind the gates of DescriptorTables
unfoldable pub clear_handlers : (ℕ → ℕ) → ℕ → ℕ
clear_handlers table = copy exception_table_size (λ i. 0) table

unfoldable pub register_handler : (ℕ → ℕ) → (isr_code handler : ℕ) → Run (ℕ → ℕ)
register_handler table isr_code handler =
    if ltb isr_code exception_table_size then ok (put table isr_code handler) else halted

unfoldable pub deregister_handler : (ℕ → ℕ) → (isr_code : ℕ) → Run (ℕ → ℕ)
deregister_handler table isr_code =
    if ltb isr_code exception_table_size then ok (put table isr_code 0) else halted

-- Without a handler the dispatcher calls `abort`, which stops the kernel.
unfoldable pub dispatch_exception :
    {S : Type 0} → (handle : ℕ → S → Run S) → (table : ℕ → ℕ) (exc_no : ℕ) → S → Run S
dispatch_exception handle table exc_no s =
    if ltb exc_no exception_table_size
    then (if table exc_no == 0 then halted else handle (table exc_no) s)
    else halted
