-- ===== src/InterruptHandler/Dispatch.antt =====
-- MP6_Sources/interrupts.C: what a dispatched interrupt runs and acknowledges.
use csce410_611_spring2026_p.Base.Run.{Run, ok, halted, ◌>>=◌}
use csce410_611_spring2026_p.InterruptHandler.{
  Handlers, irq_table_size, irq_base, init_dispatcher, generated_by_slave_pic, register_handler,
  deregister_handler, end_of_interrupt, dispatch_interrupt,
}
use csce410_611_spring2026_p.Base.{
  ℕ, ◌+◌, ◌-◌, ◌%◌, ◌<◌, ◌≤◌, ◌≡◌, refl, ap, ◌∙◌, ◌⊎◌, true, false, List, [], ◌∷◌, arith, ltb, ◌==◌,
  if◌then◌else◌, put, ℕ_discrete, dec_lt, word_size,
}

pub data Registration : Type 0 where
  registers : (irq handler : ℕ) → Registration
  deregisters : (irq : ℕ) → Registration

abbrev pub register : Registration → Handlers → Run Handlers
register (registers irq handler) table = register_handler table irq handler
register (deregisters irq) table = deregister_handler table irq

abbrev pub registrations : List Registration → Handlers → Run Handlers
registrations [] table = ok table
registrations (r ∷ rs) table = register r table >>= registrations rs

abbrev line_of : Registration → ℕ
line_of (registers irq handler) = irq
line_of (deregisters irq) = irq

abbrev pub AllInside : List Registration → Type 0
AllInside [] = Unit {0}
AllInside (r ∷ rs) = (line_of r < irq_table_size) × AllInside rs

-- The handler that the last registration for a line installs, if there is one, and `before` otherwise
abbrev pub last_for : List Registration → (irq before : ℕ) → ℕ
last_for [] irq before = before
last_for (registers i h ∷ rs) irq before = last_for rs irq (if i == irq then h else before)
last_for (deregisters i ∷ rs) irq before = last_for rs irq (if i == irq then 0 else before)

registrations-last_for :
    (rs : List Registration) (table : Handlers)
    → AllInside rs
    → (table' : Handlers) × (registrations rs table ≡ ok table')
      × ((irq : ℕ) → table' irq ≡ last_for rs irq (table irq))
unfolding register_handler deregister_handler
registrations-last_for [] table inside = (table, refl, λ irq. refl)
registrations-last_for (registers i h ∷ rs) table (inside, later) =
    let fits : ltb i irq_table_size ≡ true = ground arith in
    let (table', run, last) = registrations-last_for rs (put table i h) later in
    (table', rw fits run, last)
registrations-last_for (deregisters i ∷ rs) table (inside, later) =
    let fits : ltb i irq_table_size ≡ true = ground arith in
    let (table', run, last) = registrations-last_for rs (put table i 0) later in
    (table', rw fits run, last)

-- A line with no handler changes nothing.
abbrev pub serve : {S : Type 0} → (ℕ → S → Run S) → ℕ → S → Run S
serve handle h s = elim (ℕ_discrete h 0) [ yes e ↦ ok s | no ne ↦ handle h s ]

-- The second controller has the lines from 8 on, and both get the signal; the first has the others.
abbrev pub signals : ℕ → List (ℕ × ℕ)
signals irq = elim (dec_lt irq 8) [
  | yes e ↦ (0x20, 0x20) ∷ []
  | no ne ↦ (0xa0, 0x20) ∷ (0x20, 0x20) ∷ []
]

signals_lem : (irq : ℕ) → end_of_interrupt irq ≡ signals irq
unfolding end_of_interrupt generated_by_slave_pic
signals_lem irq = elim (dec_lt irq 8) [ yes e ↦ ground arith | no ne ↦ ground arith ]

module _ {S : Type 0} (handle : ℕ → S → Run S) where
  served : (h : ℕ) (s : S) → (if h == 0 then ok s else handle h s) ≡ serve handle h s
  served h s = ground arith

  dispatch-serve :
      (table : Handlers) (irq : ℕ) (s : S)
      → irq < irq_table_size
      → dispatch_interrupt handle table (irq + irq_base) s
        ≡ (serve handle (table irq) s >>= (λ s'. ok (s', signals irq)))
  unfolding dispatch_interrupt
  dispatch-serve table irq s inside =
      let line : (word_size + (irq + irq_base) - irq_base) % word_size ≡ irq = omega arith in
      let fits : ltb irq irq_table_size ≡ true = ground arith in
      rw (line, fits, signals_lem irq)
        (ap (λ r. r >>= (λ s'. ok (s', signals irq))) (served (table irq) s))

  -- After `init_dispatcher` and any registrations, an interrupt on a line runs the handler of the last registration
  -- for that line, and none if there is none or it was removed; then the end of the interrupt is signalled, to the
  -- second controller too if the line is one of its own. If the handler fails, so does the dispatcher.
  pub registrations-dispatch :
      (table : Handlers) (rs : List Registration) (irq : ℕ) (s : S)
      → AllInside rs
      → irq < irq_table_size
      → (table' : Handlers) × (registrations rs (init_dispatcher table) ≡ ok table')
        × (dispatch_interrupt handle table' (irq + irq_base) s
            ≡ (serve handle (last_for rs irq 0) s >>= (λ s'. ok (s', signals irq))))
  unfolding init_dispatcher
  registrations-dispatch table rs irq s inside small =
      let (table', run, last) = registrations-last_for rs (init_dispatcher table) inside in
      let none_yet : init_dispatcher table irq ≡ 0 = ground arith in
      let handler : table' irq ≡ last_for rs irq 0 = last irq ∙ ap (last_for rs irq) none_yet in
      (
        table',
        run,
        dispatch-serve table' irq s small
            ∙ ap (λ h. serve handle h s >>= (λ s'. ok (s', signals irq))) handler,
      )

  -- A vector that is not one of the sixteen interrupt lines' fails the assertion.
  pub dispatch-outside :
      (table : Handlers) (vector : ℕ) (s : S)
      → vector < word_size
      → (vector < irq_base) ⊎ (irq_base + irq_table_size ≤ vector)
      → dispatch_interrupt handle table vector s ≡ halted
  unfolding dispatch_interrupt
  dispatch-outside table vector s small outside =
      let beyond : ltb ((word_size + vector - irq_base) % word_size) irq_table_size ≡ false =
        ground arith in
      rw beyond refl
