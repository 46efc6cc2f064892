-- ===== src/NonblockingDisk/Promise.antt =====
-- MP6_Sources/nonblocking_disk.C: what the disk promises, as a queue of requests and a queue of threads.
use csce410_611_spring2026_p.Base.Run.{Run, ok, halted, out_of_fuel, ◌>>=◌}
use csce410_611_spring2026_p.Scheduler.Fifo.{Fifo, view, push, switch}
use csce410_611_spring2026_p.Scheduler.Ring.{IsValid}
use csce410_611_spring2026_p.LinkedQueue.{Nodes, has}
use csce410_611_spring2026_p.NonblockingDisk.Queue.{Queued}
use csce410_611_spring2026_p.NonblockingDisk.{
  NonblockingDisk, wait_while_busy, handle_interrupt, pass_on_cpu,
}
use csce410_611_spring2026_p.Base.{ℕ, ◌≡◌, ◌≢◌, Bool, true, false, List, [], ◌∷◌, ◌++◌}

-- What the disk promises: a queue of requests and a queue of threads
pub record Waiting : Type 0 where
  pub requests : Nodes
  pub fifo : Fifo

abbrev pub waiting : Nodes → Fifo → Waiting
waiting rs f = record { requests = rs; fifo = f }

pub data Event : Type 0 where
  waits : ℕ → Event
  interrupts : Event
  passes : Bool → Event

-- The running thread waits with its request at `req`, and the next thread goes on.
abbrev pub wait : ℕ → Waiting → Run Waiting
wait req w =
    switch w.fifo.waiting >>= (λ f. ok (waiting (w.requests ++ ((req, w.fifo.running) ∷ [])) f))

-- The thread that has waited longest becomes the last of the ready threads.
abbrev pub wake : Nodes → Fifo → Run Waiting
wake [] f = ok (waiting [] f)
wake ((r, t) ∷ rs) f = push f t >>= (λ g. ok (waiting rs g))

abbrev pub pass : Waiting → Run Waiting
pass w = push w.fifo w.fifo.running >>= (λ f. switch f.waiting) >>= (λ f. ok (waiting w.requests f))

abbrev pub promise : Event → Waiting → Run Waiting
promise (waits req) w = wait req w
promise interrupts w = wake w.requests w.fifo
promise (passes true) w = pass w
promise (passes false) w = wake w.requests w.fifo >>= pass

abbrev pub promises : List Event → Waiting → Run Waiting
promises [] w = ok w
promises (e ∷ es) w = promise e w >>= promises es

abbrev pub react : Event → NonblockingDisk → Run NonblockingDisk
react (waits req) d = wait_while_busy d req
react interrupts d = handle_interrupt d
react (passes busy) d = pass_on_cpu d busy

abbrev pub reacts : List Event → NonblockingDisk → Run NonblockingDisk
reacts [] d = ok d
reacts (e ∷ es) d = react e d >>= reacts es

pub record Related (d : NonblockingDisk) (w : Waiting) : Type 0 where
  pub queued : Queued d w.requests
  pub valid : IsValid d.scheduler
  pub same : view d.scheduler ≡ w.fifo

abbrev pub Keeps : Run NonblockingDisk → Run Waiting → Type 0
Keeps (ok d) (ok w) = Related d w
Keeps halted halted = Unit {0}
Keeps out_of_fuel out_of_fuel = Unit {0}
Keeps _ _ = ⊥

-- A request stands at an address that is not null and no other waiting request's.
abbrev pub Allowed : Event → Waiting → Type 0
Allowed (waits req) w = (has req w.requests ≡ false) × (req ≢ 0)
Allowed _ w = Unit {0}

abbrev pub AllAllowed : List Event → Waiting → Type 0
AllAllowed [] w = Unit {0}
AllAllowed (e ∷ es) w = Allowed e w × ((w' : Waiting) → promise e w ≡ ok w' → AllAllowed es w')
