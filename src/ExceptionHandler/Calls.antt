-- ===== src/ExceptionHandler/Calls.antt =====
-- MP7_Sources/exceptions.C: which handler an exception runs after any calls of `register_handler` and
-- `deregister_handler`.
use csce410_611_spring2026_p.Base.Run.{Run, ok, halted, ◌>>=◌}
use csce410_611_spring2026_p.ExceptionHandler.{
  exception_table_size, clear_handlers, register_handler, deregister_handler, dispatch_exception,
}
use csce410_611_spring2026_p.Base.{
  ℕ, ◌<◌, ◌≡◌, refl, ap, ◌∙◌, true, List, [], ◌∷◌, arith, ltb, ◌==◌, if◌then◌else◌, put,
}

data Call : Type 0 where
  registers : (isr_code handler : ℕ) → Call
  deregisters : (isr_code : ℕ) → Call

abbrev call : Call → (ℕ → ℕ) → Run (ℕ → ℕ)
call (registers isr_code handler) table = register_handler table isr_code handler
call (deregisters isr_code) table = deregister_handler table isr_code

abbrev calls : List Call → (ℕ → ℕ) → Run (ℕ → ℕ)
calls [] table = ok table
calls (c ∷ cs) table = call c table >>= calls cs

abbrev code_of : Call → ℕ
code_of (registers isr_code handler) = isr_code
code_of (deregisters isr_code) = isr_code

abbrev handler_of : Call → ℕ
handler_of (registers isr_code handler) = handler
handler_of (deregisters isr_code) = 0

abbrev AllCodes : List Call → Type 0
AllCodes [] = Unit {0}
AllCodes (c ∷ cs) = (code_of c < exception_table_size) × AllCodes cs

-- The handler of the last call for the exception, or the one before all calls
abbrev last_handler : List Call → (exc_no before : ℕ) → ℕ
last_handler [] exc_no before = before
last_handler (c ∷ cs) exc_no before =
    last_handler cs exc_no (if code_of c == exc_no then handler_of c else before)

call_lem :
    (c : Call) (table : ℕ → ℕ)
    → code_of c < exception_table_size
    → call c table ≡ ok (put table (code_of c) (handler_of c))
unfolding register_handler deregister_handler
call_lem (registers isr_code handler) table h =
    let inside : ltb isr_code exception_table_size ≡ true = ground arith in rw inside refl
call_lem (deregisters isr_code) table h =
    let inside : ltb isr_code exception_table_size ≡ true = ground arith in rw inside refl

calls_lem :
    (cs : List Call) (table : ℕ → ℕ)
    → AllCodes cs
    → (table' : ℕ → ℕ) × (calls cs table ≡ ok table')
      × ((exc_no : ℕ) → table' exc_no ≡ last_handler cs exc_no (table exc_no))
calls_lem [] table inside = (table, refl, λ exc_no. refl)
calls_lem (c ∷ cs) table (h, inside) =
    let (table', run, last) = calls_lem cs (put table (code_of c) (handler_of c)) inside in
    (table', rw (call_lem c table h) run, last)

-- After `init_dispatcher` and any calls with exception numbers below 32, an exception below 32 runs the handler of the
-- last call for it; if there was none, or it was removed, the kernel stops.
calls-dispatch_exception :
    {S : Type 0} (handle : ℕ → S → Run S) (table : ℕ → ℕ) (cs : List Call) (exc_no : ℕ) (s : S)
    → AllCodes cs
    → exc_no < exception_table_size
    → (table' : ℕ → ℕ) × (calls cs (clear_handlers table) ≡ ok table')
      × (dispatch_exception handle table' exc_no s
          ≡ (if last_handler cs exc_no 0 == 0 then halted else handle (last_handler cs exc_no 0) s))
unfolding clear_handlers dispatch_exception
calls-dispatch_exception handle table cs exc_no s inside h =
    let (table', run, last) = calls_lem cs (clear_handlers table) inside in
    let cleared : clear_handlers table exc_no ≡ 0 = ground arith in
    let known : ltb exc_no exception_table_size ≡ true = ground arith in
    let found : table' exc_no ≡ last_handler cs exc_no 0 =
      last exc_no ∙ ap (last_handler cs exc_no) cleared in
    (table', run, rw (known, found) refl)
