-- ===== src/FrameStates/Outcome.antt =====
-- What `get_frames` of a pool may come to.
use csce410_611_spring2026_p.FrameStates.{
  FirstFit-unique, FirstFit-cong, AllFree, free_state, used_state, FirstFit, with_sequence,
}
use csce410_611_spring2026_p.Base.{
  ℕ, zero, suc, ◌+◌, ◌<◌, ◌≤◌, ◌≡◌, ◌≢◌, refl, sym, some, none, arith,
}

-- It hands out the first fit and marks it, or there is no fit, the result is 0, and the pool is as it was.
pub data Got {P : Type 0} (get : P → ℕ → ℕ) (Ok : P → Type 0) (lo hi n : ℕ) (p : P)
    : ℕ × P → Type 0 where
  got :
      (i : ℕ) (p' : P)
      → FirstFit (get p) lo hi n (some i)
      → Ok p'
      → ((g : ℕ) → lo ≤ g → g < hi → get p' g ≡ with_sequence (get p) i n g)
      → Got get Ok lo hi n p (i, p')
  none_left : FirstFit (get p) lo hi n none → Got get Ok lo hi n p (0, p)

-- The frames that a call handed out, if its result is not 0
pub Got-found :
    {P : Type 0} (get : P → ℕ → ℕ) (Ok : P → Type 0) (lo hi n : ℕ) (p : P) (r : ℕ × P)
    → Got get Ok lo hi n p r
    → r.0 ≢ 0
    → FirstFit (get p) lo hi n (some r.0)
      × Ok r.1
      × ((g : ℕ) → lo ≤ g → g < hi → get r.1 g ≡ with_sequence (get p) r.0 n g)
Got-found get Ok lo hi n p r (got i p' fit fine marked) some_frame = (fit, fine, marked)
Got-found get Ok lo hi n p r (none_left f) some_frame = absurd (some_frame refl)

-- No used frame follows a free one: a sequence begins with its head.
abbrev pub IsChained : (states : ℕ → ℕ) (lo hi : ℕ) → Type 0
IsChained states lo hi =
    (f : ℕ) → lo ≤ f → suc f < hi → states f ≡ free_state → states (suc f) ≢ used_state

pub IsChained-end :
    (states : ℕ → ℕ) (lo hi i n : ℕ)
    → IsChained states lo hi
    → 0 < n
    → lo ≤ i
    → AllFree states i (i + n)
    → i + n < hi
    → states (i + n) ≢ used_state
IsChained-end states lo hi i zero chained some_frames from free below = absurd (omega arith)
IsChained-end states lo hi i (suc n) chained some_frames from free below =
    let next : suc (i + n) ≡ i + suc n = omega arith in
    rw (sym next)
      (chained (i + n) (omega arith) (omega arith) (free (i + n) (omega arith) (omega arith)))

absurd_fit :
    (states : ℕ → ℕ) (lo hi n i : ℕ)
    → FirstFit states lo hi n none
    → FirstFit states lo hi n (some i)
    → ⊥
absurd_fit states lo hi n i none_fits (from, inside, free, first) = none_fits i from inside free

-- Two pools with the same states hand out the same frames and have the same states afterwards.
pub Got-same :
    {P Q : Type 0} (get : P → ℕ → ℕ) (get' : Q → ℕ → ℕ) (Ok : P → Type 0) (Ok' : Q → Type 0)
    (lo hi n : ℕ) (p : P) (q : Q) (r : ℕ × P) (s : ℕ × Q)
    → ((j : ℕ) → lo ≤ j → j < hi → get p j ≡ get' q j)
    → Got get Ok lo hi n p r
    → Got get' Ok' lo hi n q s
    → (r.0 ≡ s.0) × ((j : ℕ) → lo ≤ j → j < hi → get r.1 j ≡ get' s.1 j)
Got-same get get' Ok Ok' lo hi n p q r s same (got i p' fit fine marked)
      (got k q' fit' fine' marked') =
    let one =
      FirstFit-unique (get' q) lo hi n (some i) (some k)
        (FirstFit-cong (get p) (get' q) lo hi n (some i) same fit) fit' in
    let equal : i ≡ k = cc one in (equal, λ j a b. ground (arith, marked j, marked' j, same j))
Got-same get get' Ok Ok' lo hi n p q r s same (got i p' fit fine marked) (none_left none_fits) =
    absurd (
      absurd_fit (get' q) lo hi n i none_fits
        (FirstFit-cong (get p) (get' q) lo hi n (some i) same fit))
Got-same get get' Ok Ok' lo hi n p q r s same (none_left none_fits) (got k q' fit' fine' marked') =
    absurd (
      absurd_fit (get' q) lo hi n k (FirstFit-cong (get p) (get' q) lo hi n none same none_fits)
        fit')
Got-same get get' Ok Ok' lo hi n p q r s same (none_left f) (none_left g) = (refl, same)
