-- ===== src/RoundRobin/Promise.antt =====
-- MP5_Sources/scheduler.C: what the scheduler promises, as a queue of threads.
use csce410_611_spring2026_p.Base.Run.{Run, ok, halted, ◌>>=◌}
use csce410_611_spring2026_p.LinkedQueue.{Nodes, Chain, tail_of}
use csce410_611_spring2026_p.Scheduler.Fifo.{Fifo}
use csce410_611_spring2026_p.RoundRobin.{
  Scheduler, EoqTimer, node_size, yield, resume, add, terminate, handle_interrupt,
}
use csce410_611_spring2026_p.Base.{
  ℕ, ◌+◌, ◌*◌, ◌<◌, ◌≡◌, List, [], ◌∷◌, ◌++◌, ◌==◌, if◌then◌else◌, word_size,
}

pub data Call : Type 0 where
  resumes adds terminates : ℕ → Call
  yields quantum_ends : Call

abbrev pub fifo : List ℕ → ℕ → Fifo
fifo ts r = record { waiting = ts; running = r }

abbrev pub push : Fifo → ℕ → Fifo
push f t = fifo (f.waiting ++ (t ∷ [])) f.running

-- The oldest thread goes on, if there is one.
abbrev pub switch : List ℕ → ℕ → Fifo
switch [] r = fifo [] r
switch (t ∷ ts) r = fifo ts t

abbrev pub turn : Fifo → Fifo
turn f = if f.running == 0 then f else switch (f.waiting ++ (f.running ∷ [])) f.running

abbrev pub fifo_call : Call → Fifo → Run Fifo
fifo_call (resumes t) f = ok (push f t)
fifo_call (adds t) f = ok (push f t)
fifo_call (terminates t) f = halted
fifo_call yields f = ok (switch f.waiting f.running)
fifo_call quantum_ends f = ok (turn f)

abbrev pub fifo_calls : List Call → Fifo → Run Fifo
fifo_calls [] f = ok f
fifo_calls (c ∷ cs) f = fifo_call c f >>= fifo_calls cs

abbrev pub with_scheduler : EoqTimer → Run Scheduler → Run EoqTimer
with_scheduler e r = r >>= (λ s. ok (record e { scheduler = s }))

abbrev pub call : Call → EoqTimer → Run EoqTimer
call (resumes t) e = ok (record e { scheduler = resume e.scheduler t })
call (adds t) e = ok (record e { scheduler = add e.scheduler t })
call (terminates t) e = with_scheduler e (terminate e.scheduler t)
call yields e = ok (record e { scheduler = yield e.scheduler })
call quantum_ends e = ok (handle_interrupt e)

abbrev pub calls : List Call → EoqTimer → Run EoqTimer
calls [] e = ok e
calls (c ∷ cs) e = call c e >>= calls cs

abbrev pub threads_of : Nodes → List ℕ
threads_of [] = []
threads_of ((r, t) ∷ rs) = t ∷ threads_of rs

-- Every node is memory that was handed out before.
abbrev pub AllBelow : ℕ → Nodes → Type 0
AllBelow top [] = Unit {0}
AllBelow top ((r, t) ∷ rs) = (r < top) × AllBelow top rs

-- The nodes `rs` in memory hold the queue.
pub record Holds (s : Scheduler) (f : Fifo) (rs : Nodes) : Type 0 where
  pub chain : Chain s.thread s.next s.head rs
  pub ended : s.tail ≡ tail_of rs
  pub below : AllBelow s.pool rs
  pub waiting : threads_of rs ≡ f.waiting
  pub running : s.current_thread ≡ f.running

-- Both come to the same end, with memory left for `room` more nodes.
abbrev pub Keeps : ℕ → Run EoqTimer → Run Fifo → Type 0
Keeps room (ok e) (ok f) =
    (0 < e.scheduler.pool)
    × (e.scheduler.pool + node_size * room < word_size)
    × ((rs : Nodes) × Holds e.scheduler f rs)
Keeps room halted halted = Unit {0}
Keeps room _ _ = ⊥
