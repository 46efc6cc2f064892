-- ===== src/NonblockingDisk/Wake.antt =====
-- MP6_Sources/nonblocking_disk.C: threads that wait for the disk are woken in the order in which they came.
use mathlib.Core.Path.{subst}
use csce410_611_spring2026_p.Base.Run.{Run, ok, halted, out_of_fuel, ◌>>=◌}
use csce410_611_spring2026_p.Scheduler.{enqueue, Scheduler, yield, resume}
use csce410_611_spring2026_p.Scheduler.Fifo.{
  Fifo, view, push, switch, Refines, Refines-bind, enqueue-push, yield-switch,
}
use csce410_611_spring2026_p.Scheduler.Ring.{IsValid}
use csce410_611_spring2026_p.NonblockingDisk.Promise.{
  Waiting, waiting, Event, waits, interrupts, passes, wait, wake, pass, promise, promises, react,
  reacts, Related, Keeps, Allowed, AllAllowed,
}
use csce410_611_spring2026_p.LinkedQueue.{Nodes, has}
use csce410_611_spring2026_p.NonblockingDisk.Queue.{
  enqueue_request-scheduler, Queued, enqueue_request-Queued, dequeue_request-nil,
  dequeue_request-cons,
}
use csce410_611_spring2026_p.NonblockingDisk.{
  NonblockingDisk, enqueue_request, new_disk, wait_while_busy, wake_first, check_and_resume,
  handle_interrupt, pass_on_cpu,
}
use csce410_611_spring2026_p.Base.{
  ℕ, ◌≡◌, ◌≢◌, refl, sym, ap, ◌∙◌, inl, inr, true, false, List, [], ◌∷◌, ◌++◌, arith, ◌==◌, put,
  Bool-cases,
}

Keeps-bind :
    (r : Run NonblockingDisk) (f : Run Waiting) (k : NonblockingDisk → Run NonblockingDisk)
    (l : Waiting → Run Waiting)
    → Keeps r f
    → ((d : NonblockingDisk) (w : Waiting) → f ≡ ok w → Related d w → Keeps (k d) (l w))
    → Keeps (r >>= k) (f >>= l)
Keeps-bind (ok d) (ok w) k l h next = next d w refl h
Keeps-bind (ok d) halted k l h next = elim h [ ]
Keeps-bind (ok d) out_of_fuel k l h next = elim h [ ]
Keeps-bind halted (ok w) k l h next = elim h [ ]
Keeps-bind halted out_of_fuel k l h next = elim h [ ]
Keeps-bind out_of_fuel (ok w) k l h next = elim h [ ]
Keeps-bind out_of_fuel halted k l h next = elim h [ ]
Keeps-bind halted halted k l h next = tt
Keeps-bind out_of_fuel out_of_fuel k l h next = tt

-- A step of the scheduler is one of the disk with its queue left as it is.
lift :
    (r : Run Scheduler) (f : Run Fifo) (d : NonblockingDisk) (rs : Nodes)
    → Queued d rs
    → Refines r f
    → Keeps (r >>= (λ s. ok (record d { scheduler = s }))) (f >>= (λ g. ok (waiting rs g)))
lift (ok s) (ok f) d rs q (v, e) = record {
  queued = record { chain = q.chain; ended = q.ended };
  valid = v;
  same = e;
}
lift (ok s) halted d rs q h = elim h [ ]
lift (ok s) out_of_fuel d rs q h = elim h [ ]
lift halted (ok f) d rs q h = elim h [ ]
lift halted out_of_fuel d rs q h = elim h [ ]
lift out_of_fuel (ok f) d rs q h = elim h [ ]
lift out_of_fuel halted d rs q h = elim h [ ]
lift halted halted d rs q h = tt
lift out_of_fuel out_of_fuel d rs q h = tt

wake_first-wake :
    (d : NonblockingDisk) (rs : Nodes)
    → Queued d rs
    → IsValid d.scheduler
    → Keeps (wake_first d) (wake rs (view d.scheduler))
unfolding wake_first resume
wake_first-wake d [] q v =
    rw (dequeue_request-nil d q) (record { queued = q; valid = v; same = refl })
wake_first-wake d ((r, t) ∷ rs) q v =
    let (d', left, q', same_threads, same_scheduler) = dequeue_request-cons d r t rs q in
    let (at, ne, by, out, rest) = q.chain in
    let some_left : (r == 0) ≡ false = ground arith in
    let its_thread : d'.thread r ≡ t = ap (λ h. h r) same_threads ∙ by in
    let at_old = enqueue-push d.scheduler t v in
    let ready : Refines (enqueue d'.scheduler (d'.thread r)) (push (view d.scheduler) t) =
      subst (λ u. Refines (enqueue d'.scheduler u) (push (view d.scheduler) t)) (sym its_thread)
        (subst (λ s. Refines (enqueue s t) (push (view d.scheduler) t)) (sym same_scheduler)
          at_old) in
    rw (left, some_left)
      (lift (enqueue d'.scheduler (d'.thread r)) (push (view d.scheduler) t) d' rs q' ready)

handle_interrupt-wake :
    (d : NonblockingDisk) (rs : Nodes)
    → Queued d rs
    → IsValid d.scheduler
    → Keeps (handle_interrupt d) (wake rs (view d.scheduler))
unfolding handle_interrupt
handle_interrupt-wake d [] q v =
    let null : (d.queue_head == 0) ≡ true = rw q.chain refl in
    rw null (record { queued = q; valid = v; same = refl })
handle_interrupt-wake d ((r, t) ∷ rs) q v =
    let (at, ne, by, out, rest) = q.chain in
    let some_left : (d.queue_head == 0) ≡ false = ground arith in
    rw some_left (wake_first-wake d ((r, t) ∷ rs) q v)

-- The disk is polled: it has finished, or it is busy and nothing happens.
check_and_resume-wake :
    (d : NonblockingDisk) (rs : Nodes)
    → Queued d rs
    → IsValid d.scheduler
    → Keeps (check_and_resume d false) (wake rs (view d.scheduler))
unfolding check_and_resume
check_and_resume-wake d [] q v =
    let null : (d.queue_head == 0) ≡ true = rw q.chain refl in
    rw null (record { queued = q; valid = v; same = refl })
check_and_resume-wake d ((r, t) ∷ rs) q v =
    let (at, ne, by, out, rest) = q.chain in
    let some_left : (d.queue_head == 0) ≡ false = ground arith in
    rw some_left (wake_first-wake d ((r, t) ∷ rs) q v)

check_and_resume-busy : (d : NonblockingDisk) → check_and_resume d true ≡ ok d
unfolding check_and_resume
check_and_resume-busy d = elim (Bool-cases (d.queue_head == 0)) [
  | inl e ↦ rw e refl
  | inr e ↦ rw e refl
]

-- The running thread is put back, and the next one goes on.
turn-pass :
    (d : NonblockingDisk) (w : Waiting)
    → Related d w
    → Keeps
        (resume d.scheduler d.scheduler.current_thread
          >>= yield
          >>= (λ s. ok (record d { scheduler = s })))
        (pass w)
unfolding resume
turn-pass d w h =
    let old = view d.scheduler in
    let turned =
      Refines-bind (enqueue d.scheduler d.scheduler.current_thread) (push old old.running) yield
        (λ f. switch f.waiting) (enqueue-push d.scheduler d.scheduler.current_thread h.valid)
        yield-switch in
    subst
      (λ f.
        Keeps
          (enqueue d.scheduler d.scheduler.current_thread
            >>= yield
            >>= (λ s. ok (record d { scheduler = s })))
          (pass (waiting w.requests f)))
      h.same
      (lift (enqueue d.scheduler d.scheduler.current_thread >>= yield)
        (push old old.running >>= (λ f. switch f.waiting)) d w.requests h.queued turned)

wait_while_busy-wait :
    (d : NonblockingDisk) (rs : Nodes) (req : ℕ)
    → Queued d rs
    → IsValid d.scheduler
    → has req rs ≡ false
    → req ≢ 0
    → Keeps (wait_while_busy d req) (wait req (waiting rs (view d.scheduler)))
unfolding wait_while_busy
wait_while_busy-wait d rs req q v free some_req =
    let entered = record d { thread = put d.thread req d.scheduler.current_thread } in
    let joined = enqueue_request-Queued d rs req d.scheduler.current_thread q free some_req in
    let switched =
      subst (λ s. Refines (yield s) (switch (view d.scheduler).waiting))
        (sym (enqueue_request-scheduler entered req)) (yield-switch d.scheduler v) in
    lift (yield (enqueue_request entered req).scheduler) (switch (view d.scheduler).waiting)
      (enqueue_request entered req) (rs ++ ((req, d.scheduler.current_thread) ∷ [])) joined switched

react-promise :
    (e : Event) (d : NonblockingDisk) (w : Waiting)
    → Related d w
    → Allowed e w
    → Keeps (react e d) (promise e w)
unfolding pass_on_cpu
react-promise (waits req) d w h (free, some_req) =
    subst (λ f. Keeps (wait_while_busy d req) (wait req (waiting w.requests f))) h.same
      (wait_while_busy-wait d w.requests req h.queued h.valid free some_req)
react-promise interrupts d w h allowed =
    subst (λ f. Keeps (handle_interrupt d) (wake w.requests f)) h.same
      (handle_interrupt-wake d w.requests h.queued h.valid)
react-promise (passes true) d w h allowed = rw (check_and_resume-busy d) (turn-pass d w h)
react-promise (passes false) d w h allowed =
    let polled =
      subst (λ f. Keeps (check_and_resume d false) (wake w.requests f)) h.same
        (check_and_resume-wake d w.requests h.queued h.valid) in
    Keeps-bind (check_and_resume d false) (wake w.requests w.fifo)
      (λ d'.
        resume d'.scheduler d'.scheduler.current_thread
        >>= yield
        >>= (λ s. ok (record d' { scheduler = s })))
      pass polled (λ d' w' e r. turn-pass d' w' r)

reacts-promises :
    (es : List Event) (d : NonblockingDisk) (w : Waiting)
    → Related d w
    → AllAllowed es w
    → Keeps (reacts es d) (promises es w)
reacts-promises [] d w h allowed = h
reacts-promises (e ∷ es) d w h (now, later) =
    Keeps-bind (react e d) (promise e w) (reacts es) (promises es) (react-promise e d w h now)
      (λ d' w' eq r. reacts-promises es d' w' r (later w' eq))

-- A new disk keeps its promise in any sequence of events: a thread that waits enters the queue of requests and the next
-- ready thread goes on; an interrupt makes the thread that has waited longest the last of the ready threads, and so
-- does, before the processor is passed on, a poll of a disk that is not busy. The requests, their threads and the
-- ready threads are those of the two queues, in their order, or both fail an assertion. A request that enters stands at
-- an address that is not null and no other waiting request's.
pub reacts-Keeps :
    (es : List Event) (d : NonblockingDisk)
    → IsValid d.scheduler
    → AllAllowed es (waiting [] (view d.scheduler))
    → Keeps (reacts es (new_disk d)) (promises es (waiting [] (view d.scheduler)))
unfolding new_disk
reacts-Keeps es d v allowed =
    reacts-promises es (new_disk d) (waiting [] (view d.scheduler))
      (record { queued = record { chain = refl; ended = refl }; valid = v; same = refl }) allowed
