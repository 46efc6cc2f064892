-- ===== src/RoundRobin/Queue.antt =====
-- MP5_Sources/scheduler.C: the nodes in memory are the queue.
use mathlib.Core.Path.{subst}
use csce410_611_spring2026_p.Base.Run.{Run, ok, halted, out_of_fuel, ◌>>=◌}
use csce410_611_spring2026_p.MemPool.{allocate, release}
use csce410_611_spring2026_p.LinkedQueue.{
  Nodes, Chain, Chain-snoc, has, last-snoc, last_some, tail_after,
}
use csce410_611_spring2026_p.Scheduler.Fifo.{Fifo}
use csce410_611_spring2026_p.RoundRobin.{
  Scheduler, EoqTimer, node_size, new_scheduler, take_first, yield, resume, add, terminate,
  handle_interrupt,
}
use csce410_611_spring2026_p.RoundRobin.Promise.{
  Call, resumes, adds, terminates, yields, quantum_ends, fifo, push, switch, fifo_call, fifo_calls,
  call, calls, threads_of, AllBelow, Holds, Keeps,
}
use csce410_611_spring2026_p.Base.{
  ℕ, suc, ◌+◌, ◌*◌, ◌%◌, ◌<◌, ◌≡◌, ◌≢◌, refl, sym, ap, ◌∙◌, inl, inr, true, false, List, [], ◌∷◌,
  ◌++◌, arith, ◌==◌, put, length, Bool-cases, word_size,
}

has-AllBelow : (top : ℕ) (rs : Nodes) → AllBelow top rs → has top rs ≡ false
has-AllBelow top [] b = refl
has-AllBelow top ((r, t) ∷ rs) (b, rest) = ground (arith, has-AllBelow top rs rest)

AllBelow-snoc :
    (top top' : ℕ) (rs : Nodes) (t : ℕ)
    → AllBelow top rs
    → top < top'
    → AllBelow top' (rs ++ ((top, t) ∷ []))
AllBelow-snoc top top' [] t b h = (h, tt)
AllBelow-snoc top top' ((r, u) ∷ rs) t (b, rest) h =
    (omega arith, AllBelow-snoc top top' rs t rest h)

threads_of-snoc :
    (rs : Nodes) (r t : ℕ) → threads_of (rs ++ ((r, t) ∷ [])) ≡ threads_of rs ++ (t ∷ [])
threads_of-snoc [] r t = refl
threads_of-snoc ((q, u) ∷ rs) r t = ap (λ l. u ∷ l) (threads_of-snoc rs r t)

resume-Holds :
    (s : Scheduler) (f : Fifo) (rs : Nodes) (t : ℕ)
    → Holds s f rs
    → 0 < s.pool
    → s.pool + node_size < word_size
    → Holds (resume s t) (push f t) (rs ++ ((s.pool, t) ∷ []))
      × ((resume s t).pool ≡ s.pool + node_size)
unfolding resume allocate
resume-Holds s f [] t h some_room fits =
    let null : (s.tail == 0) ≡ true = rw h.ended refl in
    let top : (s.pool + node_size) % word_size ≡ s.pool + node_size = omega arith in
    let some_node : s.pool ≢ 0 = omega arith in
    rw (null, top)
      (
        record {
          chain = (refl, some_node, ground arith, refl, ground arith);
          ended = refl;
          below = (omega arith, tt);
          waiting = ap (λ l. l ++ (t ∷ [])) h.waiting;
          running = h.running;
        },
        refl,
      )
resume-Holds s f (x ∷ rs) t h some_room fits =
    let not_null : s.tail ≢ 0 = rw h.ended (last_some s.thread s.next s.head x rs h.chain) in
    let some_yet : (s.tail == 0) ≡ false = ground arith in
    let top : (s.pool + node_size) % word_size ≡ s.pool + node_size = omega arith in
    let fresh = has-AllBelow s.pool (x ∷ rs) h.below in
    let linked = Chain-snoc s.thread s.next s.head x rs s.pool t h.chain fresh (omega arith) in
    let linked' =
      subst
        (λ l.
          Chain (put s.thread s.pool t) (put (put s.next s.pool 0) l s.pool) s.head
            (x ∷ (rs ++ ((s.pool, t) ∷ []))))
        (sym h.ended) linked in
    rw (some_yet, top)
      (
        record {
          chain = linked';
          ended = sym (last-snoc x (s.pool, t) rs);
          below = AllBelow-snoc s.pool (s.pool + node_size) (x ∷ rs) t h.below (omega arith);
          waiting = threads_of-snoc (x ∷ rs) s.pool t ∙ ap (λ l. l ++ (t ∷ [])) h.waiting;
          running = h.running;
        },
        refl,
      )

yield-Holds :
    (s : Scheduler) (ts : List ℕ) (r : ℕ) (rs : Nodes)
    → Holds s (fifo ts r) rs
    → (rs' : Nodes) × Holds (yield s) (switch ts r) rs' × ((yield s).pool ≡ s.pool)
unfolding yield take_first release
yield-Holds s ts r [] h =
    let null : (s.head == 0) ≡ true = rw h.chain refl in
    subst (λ l. (rs' : Nodes) × Holds (yield s) (switch l r) rs' × ((yield s).pool ≡ s.pool))
      h.waiting
      (rw null (
        [],
        record {
          chain = h.chain;
          ended = h.ended;
          below = tt;
          waiting = refl;
          running = h.running;
        },
        refl,
      ))
yield-Holds s ts r ((q, t) ∷ rs) h =
    let (at, ne, by, out, rest) = h.chain in
    let (first_below, below) = h.below in
    let some_left : (s.head == 0) ≡ false = ground arith in
    let next_at : s.next s.head ≡ s.next q = ap s.next at in
    subst (λ l. (rs' : Nodes) × Holds (yield s) (switch l r) rs' × ((yield s).pool ≡ s.pool))
      h.waiting
      (rw some_left (
        rs,
        record {
          chain = rw next_at rest;
          ended = rw next_at (tail_after s.thread s.next (s.next q) s.tail q t rs rest h.ended);
          below = below;
          waiting = refl;
          running = ap s.thread at ∙ by;
        },
        refl,
      ))

-- The node memory that a call uses
turn-Holds :
    (s : Scheduler) (f : Fifo) (rs : Nodes)
    → Holds s f rs
    → 0 < s.pool
    → s.pool + node_size < word_size
    → (rs' : Nodes) × Holds
        (yield (resume s s.current_thread))
        (switch (f.waiting ++ (f.running ∷ [])) f.running)
        rs'
      × ((yield (resume s s.current_thread)).pool ≡ s.pool + node_size)
turn-Holds s f rs h some_room fits =
    let (back, top) = resume-Holds s f rs s.current_thread h some_room fits in
    let back' =
      subst
        (λ r.
          Holds (resume s s.current_thread) (fifo (f.waiting ++ (r ∷ [])) f.running)
            (rs ++ ((s.pool, s.current_thread) ∷ [])))
        h.running back in
    let (rs', on, kept) =
      yield-Holds (resume s s.current_thread) (f.waiting ++ (f.running ∷ [])) f.running _ back' in
    (rs', on, kept ∙ top)

call-Keeps :
    (c : Call) (room : ℕ) (e : EoqTimer) (f : Fifo)
    → Keeps (suc room) (ok e) (ok f)
    → Keeps room (call c e) (fifo_call c f)
unfolding add terminate handle_interrupt
call-Keeps (resumes t) room e f (some_room, fits, (rs, h)) =
    let (h', top) = resume-Holds e.scheduler f rs t h some_room (omega arith) in
    (omega arith, omega arith, (_, h'))
call-Keeps (adds t) room e f (some_room, fits, (rs, h)) =
    let (h', top) = resume-Holds e.scheduler f rs t h some_room (omega arith) in
    (omega arith, omega arith, (_, h'))
call-Keeps (terminates t) room e f k = tt
call-Keeps yields room e f (some_room, fits, (rs, h)) =
    let (rs', h', top) = yield-Holds e.scheduler f.waiting f.running rs h in
    (omega arith, omega arith, (rs', h'))
call-Keeps quantum_ends room e f (some_room, fits, (rs, h)) =
    elim (Bool-cases (e.scheduler.current_thread == 0)) [
      | inl none_runs ↦
          let none_runs' : (f.running == 0) ≡ true = ground (arith, h.running) in
          rw (none_runs, none_runs') (some_room, omega arith, (rs, h))
      | inr runs ↦
          let runs' : (f.running == 0) ≡ false = ground (arith, h.running) in
          let (rs', h', top) = turn-Holds e.scheduler f rs h some_room (omega arith) in
          rw (runs, runs') (omega arith, omega arith, (rs', h'))
    ]

Keeps-bind :
    (room room' : ℕ) (r : Run EoqTimer) (f : Run Fifo) (k : EoqTimer → Run EoqTimer)
    (l : Fifo → Run Fifo)
    → Keeps room r f
    → ((e : EoqTimer) (g : Fifo) → Keeps room (ok e) (ok g) → Keeps room' (k e) (l g))
    → Keeps room' (r >>= k) (f >>= l)
Keeps-bind room room' (ok e) (ok g) k l h next = next e g h
Keeps-bind room room' (ok e) halted k l h next = elim h [ ]
Keeps-bind room room' (ok e) out_of_fuel k l h next = elim h [ ]
Keeps-bind room room' halted (ok g) k l h next = elim h [ ]
Keeps-bind room room' halted halted k l h next = tt
Keeps-bind room room' halted out_of_fuel k l h next = elim h [ ]
Keeps-bind room room' out_of_fuel (ok g) k l h next = elim h [ ]
Keeps-bind room room' out_of_fuel halted k l h next = elim h [ ]
Keeps-bind room room' out_of_fuel out_of_fuel k l h next = elim h [ ]

calls-fifo_calls :
    (cs : List Call) (room : ℕ) (e : EoqTimer) (f : Fifo)
    → Keeps (length cs + room) (ok e) (ok f)
    → Keeps room (calls cs e) (fifo_calls cs f)
calls-fifo_calls [] room e f k =
    let (some_room, fits, (rs, h)) = k in (some_room, omega arith, (rs, h))
calls-fifo_calls (c ∷ cs) room e f (some_room, fits, (rs, h)) =
    Keeps-bind (length cs + room) room (call c e) (fifo_call c f) (calls cs) (fifo_calls cs)
      (call-Keeps c (length cs + room) e f (some_room, omega arith, (rs, h)))
      (λ e' g k. calls-fifo_calls cs room e' g k)

-- From the constructor on, any sequence of calls of `resume`, `add`, `yield` and `terminate` and of ends of a quantum
-- comes to what a queue of threads comes to, first in, first out: the same threads wait in the same order and the same
-- thread runs, or both fail an assertion, which `terminate` does for any thread (against scheduler.H, which says that
-- it removes the thread) and no other call. `yield` with no thread ready changes nothing; the end of a quantum puts the
-- running thread last and lets the first one run. The memory pool has 8 bytes left for each call.
pub calls-Keeps :
    (cs : List Call) (e : EoqTimer)
    → 0 < e.scheduler.pool
    → e.scheduler.pool + node_size * length cs < word_size
    → Keeps 0
        (calls cs (record e { scheduler = new_scheduler e.scheduler }))
        (fifo_calls cs (fifo [] e.scheduler.current_thread))
unfolding new_scheduler
calls-Keeps cs e some_room fits =
    let empty : Holds (new_scheduler e.scheduler) (fifo [] e.scheduler.current_thread) [] = record {
      chain = refl;
      ended = refl;
      below = tt;
      waiting = refl;
      running = refl;
    } in
    calls-fifo_calls cs 0 (record e { scheduler = new_scheduler e.scheduler })
      (fifo [] e.scheduler.current_thread) (some_room, omega arith, ([], empty))
