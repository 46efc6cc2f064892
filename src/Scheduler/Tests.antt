-- ===== src/Scheduler/Tests.antt =====
-- A scheduler with threads at 100, 200 and 300: runs, and the theorems at it.
use csce410_611_spring2026_p.Base.Run.{ok}
use csce410_611_spring2026_p.Scheduler.{Scheduler, new_scheduler}
use csce410_611_spring2026_p.Scheduler.Fifo.{
  view, Call, resumes, adds, terminates, yields, calls, fifo_calls, Refines, calls-Refines,
}
use csce410_611_spring2026_p.Scheduler.Ring.{IsValid}
use csce410_611_spring2026_p.Scheduler.Rounds.{rounds, rounds-fifo}
use csce410_611_spring2026_p.Base.{◌≡◌, refl, List, [], ◌∷◌, arith, ◌==◌, if◌then◌else◌}

abbrev idle : Scheduler
idle = record {
  ready_queue = λ i. 0;
  queue_head = 7;
  queue_tail = 3;
  queue_size = 2;
  current_thread = 100;
}

-- The ring has wrapped around: thread 200 stands in its last entry.
abbrev busy : Scheduler
busy = record {
  ready_queue = λ i. if i == 9 then 200 else 300;
  queue_head = 9;
  queue_tail = 1;
  queue_size = 2;
  current_thread = 100;
}

abbrev script : List Call
script = adds 200 ∷ adds 300 ∷ resumes 100 ∷ yields ∷ terminates 200 ∷ []

calls_end :
    fifo_calls script (record { waiting = []; running = 100 })
    ≡ ok (record { waiting = 100 ∷ []; running = 300 })
calls_end = refl

calls-Refines_example :
    Refines
      (calls script (new_scheduler idle))
      (fifo_calls script (record { waiting = []; running = 100 }))
calls-Refines_example = calls-Refines script idle

busy-IsValid : IsValid busy
busy-IsValid = record { head_inside = omega arith; size_inside = omega arith; tail_behind = refl }

rounds-fifo_example :
    (s' : Scheduler) × (rounds 2 busy ≡ ok s')
    × IsValid s'
    × (view s' ≡ record { waiting = 100 ∷ 200 ∷ []; running = 300 })
rounds-fifo_example = rounds-fifo (200 ∷ []) [] busy 300 100 busy-IsValid refl (omega arith)
