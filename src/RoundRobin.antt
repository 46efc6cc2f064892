-- ===== src/RoundRobin.antt =====
-- MP5_Sources/scheduler.{H,C}: the ready queue as nodes in memory, and the timer that ends a quantum.
-- A node is its address; its two fields are functions of the address. `new` and `delete` are those of kernel.C, over
-- the memory pool. Behind a context switch the next thread is the current one, as in MP5_Sources/thread.C.
pub mod Promise
pub mod Queue
mod Tests
use csce410_611_spring2026_p.Base.Run.{Run, ok, halted, out_of_fuel, ◌>>=◌}
use csce410_611_spring2026_p.MemPool.{MemPool, allocate, release}
use csce410_611_spring2026_p.SimpleTimer.{SimpleTimer, tick}
use csce410_611_spring2026_p.Base.{
  ℕ, zero, suc, ◌+◌, ◌-◌, ◌*◌, ◌%◌, ◌<◌, ◌≤◌, ◌≡◌, ◌≢◌, refl, sym, ap, ◌∙◌, inl, inr, ◌⊎◌, Bool,
  true, false, ◌&&◌, ◌||◌, ◌/◌, ◌^◌, Option, some, none, List, [], ◌∷◌, ◌++◌, arith, ltb, ◌==◌,
  if◌then◌else◌, put, put_ne, put_self, ℕ_discrete, dec_lt, copy, field_of, with_field,
  with_field-lt, field_of-with_field, field_of-put, length, Bool-cases, word_size, leb,
}

pub record Scheduler : Type 0 where
  pub pool : MemPool
  pub thread : ℕ → ℕ
  pub next : ℕ → ℕ
  pub head : ℕ
  pub tail : ℕ
  pub current_thread : ℕ
  pub interrupts : Bool

-- `sizeof(QueueNode)`: two pointers
abbrev pub node_size : ℕ
node_size = 8

unfoldable pub new_scheduler : Scheduler → Scheduler
new_scheduler s = record s { head = 0; tail = 0 }

-- The body of `yield` between the two switches of the interrupts, with a thread in the queue; then `dispatch_to`
unfoldable pub take_first : Scheduler → Scheduler
take_first s = record s {
  head = s.next s.head;
  tail = if s.next s.head == 0 then 0 else s.tail;
  pool = release s.pool s.head;
  current_thread = s.thread s.head;
}

unfoldable pub yield : Scheduler → Scheduler
yield s =
    let off = record s { interrupts = false } in
    if s.head == 0
    then record off { interrupts = true }
    else record (take_first off) { interrupts = true }

unfoldable pub resume : Scheduler → ℕ → Scheduler
resume s t =
    let (node, pool) = allocate s.pool node_size in
    let filled = record s {
      interrupts = true;
      pool = pool;
      thread = put s.thread node t;
      next = put s.next node 0;
    } in
    if s.tail == 0
    then record filled { head = node; tail = node }
    else record filled { next = put (put s.next node 0) s.tail node; tail = node }

unfoldable pub add : Scheduler → ℕ → Scheduler
add s t = resume s t

unfoldable pub terminate : Scheduler → ℕ → Run Scheduler
terminate s t = halted

pub record EoqTimer : Type 0 where
  pub timer : SimpleTimer
  pub scheduler : Scheduler

-- `EOQTimer::handle_interrupt`
unfoldable pub handle_interrupt : EoqTimer → EoqTimer
handle_interrupt e = record {
  timer = tick e.timer;
  scheduler =
      if e.scheduler.current_thread == 0
      then e.scheduler
      else yield (resume e.scheduler e.scheduler.current_thread);
}
