-- ===== src/LinkedQueue.antt =====
-- A queue of threads that is linked through memory, as the disk of MP6 and the scheduler of MP5 keep it: the fields of
-- the nodes are two functions of the address, and null is 0.
use csce410_611_spring2026_p.Base.{
  ℕ, ◌≡◌, ◌≢◌, refl, ◌∙◌, Bool, true, false, ◌||◌, List, [], ◌∷◌, ◌++◌, arith, ◌==◌, if◌then◌else◌,
  put,
}

-- The nodes of a queue, the oldest first: the address of each, with its thread
abbrev pub Nodes : Type 0
Nodes = List (ℕ × ℕ)

abbrev pub has : ℕ → Nodes → Bool
has a [] = false
has a ((r, t) ∷ rs) = (a == r) || has a rs

abbrev pub last : ℕ × ℕ → Nodes → ℕ
last (r, t) [] = r
last x (y ∷ rs) = last y rs

abbrev pub tail_of : Nodes → ℕ
tail_of [] = 0
tail_of (x ∷ rs) = last x rs

-- From `p` the fields `next` lead through these nodes, each at an address of its own, to null.
abbrev pub Chain : (thread next : ℕ → ℕ) → ℕ → Nodes → Type 0
Chain thread next p [] = p ≡ 0
Chain thread next p ((r, t) ∷ rs) =
    (p ≡ r) × (r ≢ 0) × (thread r ≡ t) × (has r rs ≡ false) × Chain thread next (next r) rs

pub has-last : (x : ℕ × ℕ) (rs : Nodes) → has (last x rs) (x ∷ rs) ≡ true
has-last (r, t) [] = ground arith
has-last (r, t) (y ∷ rs) = ground (arith, has-last y rs)

pub has-snoc :
    (a r t : ℕ) (rs : Nodes) → a ≢ r → has a rs ≡ false → has a (rs ++ ((r, t) ∷ [])) ≡ false
has-snoc a r t [] ne out = ground arith
has-snoc a r t ((q, u) ∷ rs) ne out = ground (arith, has-snoc a r t rs ne)

pub last-snoc : (x y : ℕ × ℕ) (rs : Nodes) → last x (rs ++ (y ∷ [])) ≡ y.0
last-snoc x (r, t) [] = refl
last-snoc x y (z ∷ rs) = last-snoc z y rs

-- A change of a node that is not in the chain does not matter to it.
pub Chain-frame :
    (th nx th' nx' : ℕ → ℕ) (p : ℕ) (rs : Nodes)
    → Chain th nx p rs
    → ((a : ℕ) → has a rs ≡ true → (th' a ≡ th a) × (nx' a ≡ nx a))
    → Chain th' nx' p rs
Chain-frame th nx th' nx' p [] c same = c
Chain-frame th nx th' nx' p ((r, t) ∷ rs) (at, ne, by, out, rest) same =
    let (thread_same, next_same) = same r (ground arith) in
    (
      at,
      ne,
      thread_same ∙ by,
      out,
      rw next_same (Chain-frame th nx th' nx' (nx r) rs rest (λ a i. same a (ground arith))),
    )

pub Chain-snoc :
    (th nx : ℕ → ℕ) (p : ℕ) (x : ℕ × ℕ) (rs : Nodes) (req t : ℕ)
    → Chain th nx p (x ∷ rs)
    → has req (x ∷ rs) ≡ false
    → req ≢ 0
    → Chain (put th req t) (put (put nx req 0) (last x rs) req) p (x ∷ (rs ++ ((req, t) ∷ [])))
Chain-snoc th nx p (r, u) [] req t (at, ne, by, out, rest) free some_req =
    let other : req ≢ r = ground arith in
    (at, ne, ground arith, ground arith, (ground arith, some_req, ground arith, refl, ground arith))
Chain-snoc th nx p (r, u) (y ∷ rs) req t (at, ne, by, out, rest) free some_req =
    let other : req ≢ r = ground arith in
    let inner : has req (y ∷ rs) ≡ false = ground arith in
    let not_last : last y rs ≢ r = ground (arith, has-last y rs) in
    let same : put (put nx req 0) (last y rs) req r ≡ nx r = ground arith in
    (
      at,
      ne,
      ground arith,
      has-snoc r req t (y ∷ rs) (ground arith) out,
      rw same (Chain-snoc th nx (nx r) y rs req t rest inner some_req),
    )

pub last_some :
    (th nx : ℕ → ℕ) (p : ℕ) (x : ℕ × ℕ) (rs : Nodes) → Chain th nx p (x ∷ rs) → last x rs ≢ 0
last_some th nx p (r, t) [] (at, ne, by, out, rest) = ne
last_some th nx p (r, t) (y ∷ rs) (at, ne, by, out, rest) = last_some th nx (nx r) y rs rest

pub tail_after :
    (th nx : ℕ → ℕ) (p tail r t : ℕ) (rs : Nodes)
    → Chain th nx p rs
    → tail ≡ last (r, t) rs
    → (if p == 0 then 0 else tail) ≡ tail_of rs
tail_after th nx p tail r t [] c e = ground arith
tail_after th nx p tail r t ((q, u) ∷ rs) (at, ne, by, out, rest) e = ground arith
