-- ===== src/NonblockingDisk/Tests.antt =====
-- A disk with three threads: runs, and the theorem at it.
use csce410_611_spring2026_p.Base.Run.{Run, ok}
use csce410_611_spring2026_p.Scheduler.Fifo.{view}
use csce410_611_spring2026_p.Scheduler.Ring.{IsValid}
use csce410_611_spring2026_p.NonblockingDisk.{NonblockingDisk, new_disk}
use csce410_611_spring2026_p.NonblockingDisk.Promise.{
  Waiting, Event, waits, interrupts, passes, waiting, promises, reacts, Keeps, AllAllowed,
}
use csce410_611_spring2026_p.LinkedQueue.{Nodes, has}
use csce410_611_spring2026_p.NonblockingDisk.Wake.{reacts-Keeps}
use csce410_611_spring2026_p.Base.{
  ◌≡◌, refl, sym, ap, true, List, [], ◌∷◌, arith, ◌==◌, if◌then◌else◌,
}

-- Thread 100 runs, 200 and 300 are ready; memory is arbitrary.
abbrev disk : NonblockingDisk
disk = record {
  thread = λ a. 77;
  next = λ a. 88;
  queue_head = 5;
  queue_tail = 6;
  scheduler = record {
    ready_queue = λ i. if i == 0 then 200 else 300;
    queue_head = 0;
    queue_tail = 2;
    queue_size = 2;
    current_thread = 100;
  };
}

-- The threads 100 and 200 wait; the disk wakes 100, and 300 passes the processor on to it while the disk is busy.
abbrev events : List Event
events = waits 4096 ∷ waits 8192 ∷ interrupts ∷ passes true ∷ []

events_end :
    promises events (waiting [] (view disk.scheduler))
    ≡ ok (waiting ((8192, 200) ∷ []) (record { waiting = 300 ∷ []; running = 100 }))
events_end = refl

scheduler-IsValid : IsValid disk.scheduler
scheduler-IsValid = record {
  head_inside = omega arith;
  size_inside = omega arith;
  tail_behind = refl;
}

abbrev requests_of : Run Waiting → Nodes
requests_of (ok w) = w.requests
requests_of r = []

events-AllAllowed : AllAllowed events (waiting [] (view disk.scheduler))
events-AllAllowed = (
  (refl, omega arith),
  λ w e. (
    (ap (λ r. has 8192 (requests_of r)) (sym e), omega arith),
    λ w1 e1. (tt, λ w2 e2. (tt, λ w3 e3. tt)),
  ),
)

reacts-Keeps_example :
    Keeps (reacts events (new_disk disk)) (promises events (waiting [] (view disk.scheduler)))
reacts-Keeps_example = reacts-Keeps events disk scheduler-IsValid events-AllAllowed
