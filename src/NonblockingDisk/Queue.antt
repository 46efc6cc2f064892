-- ===== src/NonblockingDisk/Queue.antt =====
-- MP6_Sources/nonblocking_disk.C: the requests are linked through `next`, from `queue_head` to `queue_tail`.
use mathlib.Core.Path.{subst}
use csce410_611_spring2026_p.LinkedQueue.{
  Nodes, has, tail_of, Chain, last-snoc, Chain-snoc, last_some, tail_after,
}
use csce410_611_spring2026_p.NonblockingDisk.{NonblockingDisk, enqueue_request, dequeue_request}
use csce410_611_spring2026_p.Base.{
  ℕ, ◌≡◌, ◌≢◌, refl, sym, ap, inl, inr, true, false, [], ◌∷◌, ◌++◌, arith, ◌==◌, if◌then◌else◌, put,
  Bool-cases,
}

pub record Queued (d : NonblockingDisk) (rs : Nodes) : Type 0 where
  pub chain : Chain d.thread d.next d.queue_head rs
  pub ended : d.queue_tail ≡ tail_of rs

-- A request at an address of its own joins the queue as its last one.
pub enqueue_request-Queued :
    (d : NonblockingDisk) (rs : Nodes) (req t : ℕ)
    → Queued d rs
    → has req rs ≡ false
    → req ≢ 0
    → Queued
        (enqueue_request (record d { thread = put d.thread req t }) req)
        (rs ++ ((req, t) ∷ []))
unfolding enqueue_request
enqueue_request-Queued d [] req t q free some_req =
    let none_yet : (d.queue_tail == 0) ≡ true = rw q.ended refl in
    rw none_yet
      (record { chain = (refl, some_req, ground arith, refl, ground arith); ended = refl })
enqueue_request-Queued d (x ∷ rs) req t q free some_req =
    let not_null : d.queue_tail ≢ 0 =
      rw q.ended (last_some d.thread d.next d.queue_head x rs q.chain) in
    let some_yet : (d.queue_tail == 0) ≡ false = ground arith in
    let from_last = Chain-snoc d.thread d.next d.queue_head x rs req t q.chain free some_req in
    let linked =
      subst
        (λ l.
          Chain (put d.thread req t) (put (put d.next req 0) l req) d.queue_head
            (x ∷ (rs ++ ((req, t) ∷ []))))
        (sym q.ended) from_last in
    rw some_yet (record { chain = linked; ended = sym (last-snoc x (req, t) rs) })

pub enqueue_request-scheduler :
    (d : NonblockingDisk) (req : ℕ) → (enqueue_request d req).scheduler ≡ d.scheduler
unfolding enqueue_request
enqueue_request-scheduler d req = elim (Bool-cases (d.queue_tail == 0)) [
  | inl e ↦ rw e refl
  | inr e ↦ rw e refl
]

pub dequeue_request-nil : (d : NonblockingDisk) → Queued d [] → dequeue_request d ≡ (0, d)
unfolding dequeue_request
dequeue_request-nil d q = let null : (d.queue_head == 0) ≡ true = rw q.chain refl in rw null

-- The first request leaves the queue, and nothing else changes.
pub dequeue_request-cons :
    (d : NonblockingDisk) (r t : ℕ) (rs : Nodes)
    → Queued d ((r, t) ∷ rs)
    → (d' : NonblockingDisk) × (dequeue_request d ≡ (r, d'))
      × Queued d' rs
      × (d'.thread ≡ d.thread)
      × (d'.scheduler ≡ d.scheduler)
unfolding dequeue_request
dequeue_request-cons d r t rs q =
    let (at, ne, by, out, rest) = q.chain in
    let some_left : (d.queue_head == 0) ≡ false = ground arith in
    (
      record d { queue_head = d.next r; queue_tail = if d.next r == 0 then 0 else d.queue_tail },
      rw some_left (
          ap
            (λ m. (
              m,
              record d {
                queue_head = d.next m;
                queue_tail = if d.next m == 0 then 0 else d.queue_tail;
              },
            ))
            at),
      record {
        chain = rest;
        ended = tail_after d.thread d.next (d.next r) d.queue_tail r t rs rest q.ended;
      },
      refl,
      refl,
    )
