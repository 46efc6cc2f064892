-- ===== src/Scheduler/Ring.antt =====
-- MP6_Sources/scheduler.C: the entries of the ring, from the head on.
use csce410_611_spring2026_p.Scheduler.{Scheduler, max_threads}
use csce410_611_spring2026_p.Base.{
  ℕ, zero, suc, ◌+◌, ◌-◌, ◌%◌, ◌<◌, ◌≤◌, ◌≡◌, refl, sym, ap, ◌∙◌, List, [], ◌∷◌, ◌++◌, arith, put,
  put_ne, put_self,
}

abbrev pub length : List ℕ → ℕ
length [] = 0
length (x ∷ xs) = suc (length xs)

-- The `n` entries of the ring from `head` on
abbrev pub contents : (ℕ → ℕ) → (head n : ℕ) → List ℕ
contents q head zero = []
contents q head (suc n) = q head ∷ contents q ((head + 1) % max_threads) n

-- The indices are within the ring, and the tail stands behind the last entry.
pub record IsValid (s : Scheduler) : Type 0 where
  pub head_inside : s.queue_head < max_threads
  pub size_inside : s.queue_size ≤ max_threads
  pub tail_behind : s.queue_tail ≡ (s.queue_head + s.queue_size) % max_threads

pub length-contents : (q : ℕ → ℕ) (head n : ℕ) → length (contents q head n) ≡ n
length-contents q head zero = refl
length-contents q head (suc n) = ap suc (length-contents q ((head + 1) % max_threads) n)

-- An entry behind the first `n` does not matter to them.
contents-put :
    (q : ℕ → ℕ) (t head n k : ℕ)
    → head < max_threads
    → n ≤ k
    → k < max_threads
    → contents (put q ((head + k) % max_threads) t) head n ≡ contents q head n
contents-put q t head zero k h le small = refl
contents-put q t head (suc n) k h le small =
    let at : ((head + 1) % max_threads + (k - 1)) % max_threads ≡ (head + k) % max_threads =
      omega arith in
    let rest =
      contents-put q t ((head + 1) % max_threads) n (k - 1) (omega arith) (omega arith)
        (omega arith) in
    let same = put_ne q ((head + k) % max_threads) head t (omega arith) in
    rw same (
      ap (λ l. q head ∷ l)
        (ap (λ m. contents (put q m t) ((head + 1) % max_threads) n) (sym at) ∙ rest))

contents-snoc :
    (q : ℕ → ℕ) (head n : ℕ)
    → head < max_threads
    → contents q head (suc n) ≡ contents q head n ++ (q ((head + n) % max_threads) ∷ [])
contents-snoc q head zero h = let at : (head + 0) % max_threads ≡ head = omega arith in rw at
contents-snoc q head (suc n) h =
    let at : ((head + 1) % max_threads + n) % max_threads ≡ (head + suc n) % max_threads =
      omega arith in
    let rest = contents-snoc q ((head + 1) % max_threads) n (omega arith) in
    ap (λ l. q head ∷ l) (rest ∙ ap (λ k. contents q ((head + 1) % max_threads) n ++ (q k ∷ [])) at)

pub contents-enqueue :
    (q : ℕ → ℕ) (t head n : ℕ)
    → head < max_threads
    → n < max_threads
    → contents (put q ((head + n) % max_threads) t) head (suc n) ≡ contents q head n ++ (t ∷ [])
contents-enqueue q t head n h small =
    contents-snoc (put q ((head + n) % max_threads) t) head n h
    ∙ rw (contents-put q t head n n h (omega arith) small, put_self q ((head + n) % max_threads) t)
