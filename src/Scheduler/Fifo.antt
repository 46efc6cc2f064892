-- ===== src/Scheduler/Fifo.antt =====
-- MP6_Sources/scheduler.C: the ring is a queue of at most ten threads, first in, first out.
use csce410_611_spring2026_p.Base.Run.{Run, ok, halted, out_of_fuel, ◌>>=◌}
use csce410_611_spring2026_p.Scheduler.Ring.{
  length, contents, IsValid, length-contents, contents-enqueue,
}
use csce410_611_spring2026_p.Scheduler.{
  Scheduler, max_threads, enqueue, dequeue, dispatch_to, yield, resume, add, terminate,
  new_scheduler,
}
use csce410_611_spring2026_p.Base.{
  ℕ, zero, suc, ◌+◌, ◌-◌, ◌%◌, ◌<◌, ◌≡◌, refl, sym, ap, ◌∙◌, inl, inr, true, false, List, [], ◌∷◌,
  ◌++◌, arith, ltb, ◌==◌, if◌then◌else◌, put, Bool-cases,
}

-- The queue that the scheduler promises: the threads that wait, the oldest first, and the one that runs
pub record Fifo : Type 0 where
  pub waiting : List ℕ
  pub running : ℕ

abbrev pub view : Scheduler → Fifo
view s = record {
  waiting = contents s.ready_queue s.queue_head s.queue_size;
  running = s.current_thread;
}

-- What scheduler and thread code ask of the scheduler
pub data Call : Type 0 where
  resumes adds terminates : ℕ → Call
  yields : Call

abbrev pub push : Fifo → ℕ → Run Fifo
push f t =
    if ltb (length f.waiting) max_threads
    then ok (record f { waiting = f.waiting ++ (t ∷ []) })
    else halted

-- The oldest thread goes on.
abbrev pub switch : List ℕ → Run Fifo
switch [] = halted
switch (t ∷ ts) = ok (record { waiting = ts; running = t })

abbrev pub leave : List ℕ → Run Fifo
leave [] = out_of_fuel
leave (t ∷ ts) = ok (record { waiting = ts; running = t })

abbrev pub fifo_call : Call → Fifo → Run Fifo
fifo_call (resumes t) f = push f t
fifo_call (adds t) f = push f t
fifo_call (terminates t) f = if t == f.running then leave f.waiting else ok f
fifo_call yields f = switch f.waiting

abbrev pub call : Call → Scheduler → Run Scheduler
call (resumes t) s = resume s t
call (adds t) s = add s t
call (terminates t) s = terminate s t
call yields s = yield s

abbrev pub calls : List Call → Scheduler → Run Scheduler
calls [] s = ok s
calls (c ∷ cs) s = call c s >>= calls cs

abbrev pub fifo_calls : List Call → Fifo → Run Fifo
fifo_calls [] f = ok f
fifo_calls (c ∷ cs) f = fifo_call c f >>= fifo_calls cs

-- The scheduler comes to a valid state that is the queue's, or both come to the same end.
abbrev pub Refines : Run Scheduler → Run Fifo → Type 0
Refines (ok s) (ok f) = IsValid s × (view s ≡ f)
Refines halted halted = Unit {0}
Refines out_of_fuel out_of_fuel = Unit {0}
Refines _ _ = ⊥

-- A scheduler, field by field
abbrev scheduler : (ℕ → ℕ) → (head tail n current : ℕ) → Scheduler
scheduler q head tail n current = record {
  ready_queue = q;
  queue_head = head;
  queue_tail = tail;
  queue_size = n;
  current_thread = current;
}

enqueue-push_at :
    (q : ℕ → ℕ) (t head tail n current : ℕ)
    → IsValid (scheduler q head tail n current)
    → Refines
        (enqueue (scheduler q head tail n current) t)
        (push (view (scheduler q head tail n current)) t)
unfolding enqueue
enqueue-push_at q t head tail n current v =
    let full = length-contents q head n in
    elim (Bool-cases (ltb n max_threads)) [
      | inl e ↦
          let small : n < max_threads = ground arith in
          let next : n + 1 ≡ suc n = omega arith in
          let more = contents-enqueue q t head n v.head_inside small in
          rw (full, e)
            (
              record {
                head_inside = v.head_inside;
                size_inside = omega arith;
                tail_behind = omega (arith, v.tail_behind);
              },
              ap (λ l. record { waiting = l; running = current })
                  (ap (λ m. contents (put q m t) head (n + 1)) v.tail_behind
                    ∙ (ap (contents (put q ((head + n) % max_threads) t) head) next ∙ more)),
            )
      | inr e ↦ rw (full, e) tt
    ]

pub enqueue-push : (s : Scheduler) (t : ℕ) → IsValid s → Refines (enqueue s t) (push (view s) t)
enqueue-push s t v =
    enqueue-push_at s.ready_queue t s.queue_head s.queue_tail s.queue_size s.current_thread v

dequeue-switch_at :
    (q : ℕ → ℕ) (head tail n current : ℕ)
    → IsValid (scheduler q head tail n current)
    → Refines
        (dequeue (scheduler q head tail n current)
          >>= (λ r. let (next, s') = r in ok (dispatch_to next s')))
        (switch (contents q head n))
unfolding dequeue
dequeue-switch_at q head tail zero current v = tt
dequeue-switch_at q head tail (suc n) current v =
    let less : suc n - 1 ≡ n = omega arith in
    let some_left : ltb 0 (suc n) ≡ true = ground arith in
    rw some_left (
      record {
        head_inside = omega arith;
        size_inside = omega (arith, v.size_inside);
        tail_behind = omega (arith, v.tail_behind);
      },
      ap (λ m. record { waiting = contents q ((head + 1) % max_threads) m; running = q head }) less,
    )

dequeue-switch :
    (s : Scheduler)
    → IsValid s
    → Refines
        (dequeue s >>= (λ r. let (next, s') = r in ok (dispatch_to next s')))
        (switch (view s).waiting)
dequeue-switch s v =
    dequeue-switch_at s.ready_queue s.queue_head s.queue_tail s.queue_size s.current_thread v

yield-switch_at :
    (q : ℕ → ℕ) (head tail n current : ℕ)
    → IsValid (scheduler q head tail n current)
    → Refines (yield (scheduler q head tail n current)) (switch (contents q head n))
unfolding yield
yield-switch_at q head tail zero current v = tt
yield-switch_at q head tail (suc n) current v =
    let some_left : (suc n == 0) ≡ false = ground arith in
    rw some_left (dequeue-switch_at q head tail (suc n) current v)

pub yield-switch : (s : Scheduler) → IsValid s → Refines (yield s) (switch (view s).waiting)
yield-switch s v =
    yield-switch_at s.ready_queue s.queue_head s.queue_tail s.queue_size s.current_thread v

terminate-leave_at :
    (q : ℕ → ℕ) (t head tail n current : ℕ)
    → IsValid (scheduler q head tail n current)
    → Refines
        (terminate (scheduler q head tail n current) t)
        (fifo_call (terminates t) (view (scheduler q head tail n current)))
unfolding terminate
terminate-leave_at q t head tail zero current v = elim (Bool-cases (t == current)) [
  | inl e ↦ rw e tt
  | inr e ↦ rw e (v, refl)
]
terminate-leave_at q t head tail (suc n) current v =
    let some_left : ltb 0 (suc n) ≡ true = ground arith in
    elim (Bool-cases (t == current)) [
      | inl e ↦ rw (e, some_left) (dequeue-switch_at q head tail (suc n) current v)
      | inr e ↦ rw e (v, refl)
    ]

terminate-leave :
    (s : Scheduler) (t : ℕ)
    → IsValid s
    → Refines (terminate s t) (fifo_call (terminates t) (view s))
terminate-leave s t v =
    terminate-leave_at s.ready_queue t s.queue_head s.queue_tail s.queue_size s.current_thread v

pub Refines-bind :
    (r : Run Scheduler) (f : Run Fifo) (k : Scheduler → Run Scheduler) (l : Fifo → Run Fifo)
    → Refines r f
    → ((s : Scheduler) → IsValid s → Refines (k s) (l (view s)))
    → Refines (r >>= k) (f >>= l)
Refines-bind (ok s) (ok f) k l (v, e) next = rw (sym e) (next s v)
Refines-bind (ok s) halted k l h next = elim h [ ]
Refines-bind (ok s) out_of_fuel k l h next = elim h [ ]
Refines-bind halted (ok f) k l h next = elim h [ ]
Refines-bind halted out_of_fuel k l h next = elim h [ ]
Refines-bind out_of_fuel (ok f) k l h next = elim h [ ]
Refines-bind out_of_fuel halted k l h next = elim h [ ]
Refines-bind halted halted k l h next = tt
Refines-bind out_of_fuel out_of_fuel k l h next = tt

call-fifo_call : (c : Call) (s : Scheduler) → IsValid s → Refines (call c s) (fifo_call c (view s))
unfolding resume add
call-fifo_call (resumes t) s v = enqueue-push s t v
call-fifo_call (adds t) s v = enqueue-push s t v
call-fifo_call (terminates t) s v = terminate-leave s t v
call-fifo_call yields s v = yield-switch s v

calls-fifo_calls :
    (cs : List Call) (s : Scheduler) → IsValid s → Refines (calls cs s) (fifo_calls cs (view s))
calls-fifo_calls [] s v = (v, refl)
calls-fifo_calls (c ∷ cs) s v =
    Refines-bind (call c s) (fifo_call c (view s)) (calls cs) (fifo_calls cs) (call-fifo_call c s v)
      (calls-fifo_calls cs)

-- After the constructor any sequence of calls of `resume`, `add`, `yield` and `terminate` comes to what a queue of at
-- most ten threads comes to, first in, first out: the same threads wait in the same order and the same thread runs, or
-- both fail an assertion (a thread more than ten, a `yield` with no thread ready), or both loop for ever (the only
-- thread ends itself). `terminate` of a thread other than the running one does nothing in both: the thread stays in the
-- queue, against scheduler.H, which says that `terminate` removes it.
pub calls-Refines :
    (cs : List Call) (s : Scheduler)
    → Refines
        (calls cs (new_scheduler s))
        (fifo_calls cs (record { waiting = []; running = s.current_thread }))
unfolding new_scheduler
calls-Refines cs s =
    calls-fifo_calls cs (new_scheduler s)
      (record { head_inside = omega arith; size_inside = omega arith; tail_behind = omega arith })
