-- ===== src/Scheduler.antt =====
-- MP6_Sources/scheduler.C, and what it uses of MP6_Sources/thread.C: the ready queue, a ring of ten entries.
-- A thread is the address of its control block. The variables of the two files are one record. What happens behind
-- the context switch is not modelled: `dispatch_to` gives the state in which the next thread goes on.
pub mod Ring
pub mod Fifo
pub mod Rounds
mod Tests
use csce410_611_spring2026_p.Base.Run.{Run, ok, halted, out_of_fuel, ◌>>=◌}
use csce410_611_spring2026_p.Base.{◌-◌, ◌%◌, put, ◌+◌, ltb, ◌==◌, if◌then◌else◌, ℕ}

abbrev pub max_threads : ℕ
max_threads = 10

-- The variables of scheduler.C, and `current_thread` of thread.C
pub record Scheduler : Type 0 where
  pub ready_queue : ℕ → ℕ
  pub queue_head : ℕ
  pub queue_tail : ℕ
  pub queue_size : ℕ
  pub current_thread : ℕ

unfoldable pub enqueue : Scheduler → ℕ → Run Scheduler
enqueue s t =
    if ltb s.queue_size max_threads
    then ok (record s {
      ready_queue = put s.ready_queue s.queue_tail t;
      queue_tail = (s.queue_tail + 1) % max_threads;
      queue_size = s.queue_size + 1;
    })
    else halted

unfoldable pub dequeue : Scheduler → Run (ℕ × Scheduler)
dequeue s =
    if ltb 0 s.queue_size
    then ok (
      s.ready_queue s.queue_head,
      record s { queue_head = (s.queue_head + 1) % max_threads; queue_size = s.queue_size - 1 },
    )
    else halted

-- `Scheduler::Scheduler`
unfoldable pub new_scheduler : Scheduler → Scheduler
new_scheduler s = record s { queue_head = 0; queue_tail = 0; queue_size = 0 }

-- `Thread::dispatch_to`, up to the context switch
abbrev pub dispatch_to : ℕ → Scheduler → Scheduler
dispatch_to t s = record s { current_thread = t }

unfoldable pub yield : Scheduler → Run Scheduler
yield s =
    if s.queue_size == 0
    then halted
    else (dequeue s >>= (λ r. let (next, s') = r in ok (dispatch_to next s')))

unfoldable pub resume : Scheduler → ℕ → Run Scheduler
resume s t = enqueue s t

unfoldable pub add : Scheduler → ℕ → Run Scheduler
add s t = resume s t

-- A call of `terminate` goes on in the next thread, or it loops for ever, or it returns.
unfoldable pub terminate : Scheduler → ℕ → Run Scheduler
terminate s t =
    if t == s.current_thread
    then (if ltb 0 s.queue_size
        then (dequeue s >>= (λ r. let (next, s') = r in ok (dispatch_to next s')))
        else out_of_fuel)
    else ok s

-- `pass_on_CPU` of kernel.C: the thread that runs is put back, and the next one goes on.
unfoldable pub pass_on : Scheduler → Run Scheduler
pass_on s = resume s s.current_thread >>= yield
