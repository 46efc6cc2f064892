-- ===== src/Scheduler/Rounds.antt =====
-- MP6_Sources/scheduler.C: the turns of threads that only pass the processor on.
use csce410_611_spring2026_p.Base.Run.{Run, ok, halted, out_of_fuel, ◌>>=◌}
use mathlib.Core.List.{append_assoc}
use csce410_611_spring2026_p.Scheduler.{Scheduler, max_threads, pass_on, resume, yield}
use csce410_611_spring2026_p.Scheduler.Fifo.{
  Fifo, view, push, switch, Refines, Refines-bind, enqueue-push, yield-switch,
}
use csce410_611_spring2026_p.Scheduler.Ring.{IsValid, length}
use csce410_611_spring2026_p.Base.{
  ℕ, zero, suc, ◌+◌, ◌<◌, ◌≡◌, refl, sym, ap, ◌∙◌, true, List, [], ◌∷◌, ◌++◌, arith, ltb,
}

-- Each thread that runs passes the processor on, `n` times.
abbrev pub rounds : ℕ → Scheduler → Run Scheduler
rounds zero s = ok s
rounds (suc n) s = pass_on s >>= rounds n

Refines-ok :
    (r : Run Scheduler) (f : Fifo)
    → Refines r (ok f)
    → (s : Scheduler) × (r ≡ ok s) × IsValid s × (view s ≡ f)
Refines-ok (ok s) f (v, e) = (s, refl, v, e)
Refines-ok halted f h = elim h [ ]
Refines-ok out_of_fuel f h = elim h [ ]

abbrev fifo : List ℕ → ℕ → Fifo
fifo ts r = record { waiting = ts; running = r }

pass_on-switch :
    (s : Scheduler)
    → IsValid s
    → Refines (pass_on s) (push (view s) s.current_thread >>= (λ f. switch f.waiting))
unfolding pass_on resume
pass_on-switch s v =
    Refines-bind (resume s s.current_thread) (push (view s) s.current_thread) yield
      (λ f. switch f.waiting) (enqueue-push s s.current_thread v) yield-switch

pass_on-fifo :
    (s : Scheduler) (t r : ℕ) (ts : List ℕ)
    → IsValid s
    → view s ≡ fifo (t ∷ ts) r
    → suc (length ts) < max_threads
    → (s' : Scheduler) × (pass_on s ≡ ok s') × IsValid s' × (view s' ≡ fifo (ts ++ (r ∷ [])) t)
pass_on-fifo s t r ts v e room =
    let fits : ltb (suc (length ts)) max_threads ≡ true = ground arith in
    let both = pass_on-switch s v in
    let one : (push (view s) s.current_thread >>= (λ f. switch f.waiting))
        ≡ ok (fifo (ts ++ (r ∷ [])) t) =
      ap (λ f. push f f.running >>= (λ g. switch g.waiting)) e ∙ rw fits in
    Refines-ok (pass_on s) (fifo (ts ++ (r ∷ [])) t) (rw (sym one) both)

length-append : (xs ys : List ℕ) → length (xs ++ ys) ≡ length xs + length ys
length-append [] ys = omega arith
length-append (x ∷ xs) ys = omega (arith, length-append xs ys)

-- When fewer than ten threads wait, and all threads that run only pass the processor on, a thread behind `n` others
-- gets it in round `n + 1`: the threads before it, in their order, wait behind the one that ran at first, and no other
-- thread has moved. No round fails.
pub rounds-fifo :
    (xs ys : List ℕ) (s : Scheduler) (y r : ℕ)
    → IsValid s
    → view s ≡ fifo (xs ++ (y ∷ ys)) r
    → length xs + suc (length ys) < max_threads
    → (s' : Scheduler) × (rounds (suc (length xs)) s ≡ ok s')
      × IsValid s'
      × (view s' ≡ fifo (ys ++ (r ∷ xs)) y)
rounds-fifo [] ys s y r v e room =
    let (s', run, v', e') = pass_on-fifo s y r ys v e (omega arith) in (s', rw run refl, v', e')
rounds-fifo (x ∷ xs) ys s y r v e room =
    let one = length-append xs (y ∷ ys) in
    let two = length-append ys (r ∷ []) in
    let (s1, run1, v1, e1) = pass_on-fifo s x r (xs ++ (y ∷ ys)) v e (omega (arith, one)) in
    let (s2, run2, v2, e2) =
      rounds-fifo xs (ys ++ (r ∷ [])) s1 y x v1
        (e1 ∙ ap (λ l. fifo l x) (append_assoc xs (y ∷ ys) (r ∷ []))) (omega (arith, two)) in
    (s2, rw run1 run2, v2, e2 ∙ ap (λ l. fifo l y) (append_assoc ys (r ∷ []) (x ∷ xs)))
