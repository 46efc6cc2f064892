-- ===== src/InterruptHandler/Tests.antt =====
-- The timer as the handler of line 0, as kernel.C installs it: runs, and the theorems at it.
use csce410_611_spring2026_p.Base.Run.{Run, ok, halted, ◌>>=◌}
use csce410_611_spring2026_p.SimpleTimer.{SimpleTimer, tick}
use csce410_611_spring2026_p.InterruptHandler.{
  Handlers, init_dispatcher, dispatch_interrupt, end_of_interrupt, generated_by_slave_pic,
}
use csce410_611_spring2026_p.InterruptHandler.Dispatch.{
  Registration, registers, deregisters, registrations, last_for, serve, signals,
  registrations-dispatch,
}
use csce410_611_spring2026_p.Base.{ℕ, ◌≡◌, refl, List, [], ◌∷◌, arith, ◌==◌, if◌then◌else◌}

abbrev timer_address : ℕ
timer_address = 0x4000

-- The only object of the kernel that handles interrupts is the timer.
abbrev handle : ℕ → SimpleTimer → Run SimpleTimer
handle h t = if h == timer_address then ok (tick t) else halted

abbrev timer : SimpleTimer
timer = record { seconds = 7; ticks = 99; hz = 100 }

abbrev script : List Registration
script =
    registers 0 4 ∷ registers 0 timer_address ∷ registers 14 timer_address ∷ deregisters 14 ∷ []

dispatched :
    dispatch_interrupt handle (λ i. timer_address) 32 timer
    ≡ ok (record { seconds = 8; ticks = 0; hz = 100 }, (0x20, 0x20) ∷ [])
unfolding tick dispatch_interrupt end_of_interrupt generated_by_slave_pic
dispatched = refl

registrations-dispatch_example :
    (table : Handlers) × (registrations script (init_dispatcher (λ i. 99)) ≡ ok table)
    × (dispatch_interrupt handle table 46 timer
        ≡ (serve handle (last_for script 14 0) timer >>= (λ t. ok (t, signals 14))))
registrations-dispatch_example =
    registrations-dispatch handle (λ i. 99) script 14 timer
      (omega arith, (omega arith, (omega arith, (omega arith, tt)))) (omega arith)
