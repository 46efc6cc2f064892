-- ===== src/FrameStates.antt =====
-- What the frame pools of MP2 and MP3 share: each frame of a pool is free, used, or the head of a sequence, and
-- `get_frames` looks for the first run of free frames. The pool is any type with a state for each frame number.
pub mod Loops
pub mod Outcome
use csce410_611_spring2026_p.Base.{
  ℕ, zero, suc, ◌+◌, ◌-◌, ◌*◌, ◌%◌, ◌<◌, ◌≤◌, ◌≡◌, ◌≢◌, refl, sym, ap, ◌∙◌, inl, inr, ◌⊎◌, Bool,
  true, false, ◌&&◌, ◌||◌, ◌/◌, ◌^◌, Option, some, none, List, [], ◌∷◌, ◌++◌, arith, ltb, ◌==◌,
  if◌then◌else◌, put, put_ne, put_self, ℕ_discrete, dec_lt, Bool-cases, word_size, leb,
}

-- `enum class FrameState { Free, Used, HoS }`
abbrev pub free_state : ℕ
free_state = 0

abbrev pub used_state : ℕ
used_state = 1

abbrev pub head_state : ℕ
head_state = 2

-- The frames from `i` up to `e` are free.
abbrev pub AllFree : (ℕ → ℕ) → ℕ → ℕ → Type 0
AllFree states i e = (k : ℕ) → i ≤ k → k < e → states k ≡ free_state

-- The first run of `n` free frames from `lo` up to `hi`, if there is one
abbrev pub FirstFit : (states : ℕ → ℕ) (lo hi n : ℕ) → Option ℕ → Type 0
FirstFit states lo hi n none = (k : ℕ) → lo ≤ k → k + n ≤ hi → AllFree states k (k + n) → ⊥
FirstFit states lo hi n (some i) =
    (lo ≤ i)
    × (i + n ≤ hi)
    × AllFree states i (i + n)
    × ((k : ℕ) → lo ≤ k → k < i → AllFree states k (k + n) → ⊥)

-- The states with a sequence of `n` frames at `i`
abbrev pub with_sequence : (ℕ → ℕ) → (i n : ℕ) → ℕ → ℕ
with_sequence states i n j =
    if i == j then head_state else if leb i j && ltb j (i + n) then used_state else states j

-- The states with the frames from `i` up to `e` free
abbrev pub with_free : (ℕ → ℕ) → (i e : ℕ) → ℕ → ℕ
with_free states i e j = if leb i j && ltb j e then free_state else states j

-- There is one first fit.
pub FirstFit-unique :
    (states : ℕ → ℕ) (lo hi n : ℕ) (r s : Option ℕ)
    → FirstFit states lo hi n r
    → FirstFit states lo hi n s
    → r ≡ s
FirstFit-unique states lo hi n none none f g = refl
FirstFit-unique states lo hi n none (some i) f (from, inside, free, first) =
    absurd (f i from inside free)
FirstFit-unique states lo hi n (some i) none (from, inside, free, first) g =
    absurd (g i from inside free)
FirstFit-unique states lo hi n (some i) (some j) (fi, ii, freei, firsti) (fj, ij, freej, firstj) =
    elim (ℕ_discrete i j) [
      | yes e ↦ ap some e
      | no ne ↦ elim (dec_lt i j) [
        | yes l ↦ absurd (firstj i fi l freei)
        | no nl ↦ absurd (firsti j fj (omega arith) freej)
      ]
    ]

-- A first fit for some states is one for states that are the same in the range.
pub FirstFit-cong :
    (states states' : ℕ → ℕ) (lo hi n : ℕ) (r : Option ℕ)
    → ((j : ℕ) → lo ≤ j → j < hi → states j ≡ states' j)
    → FirstFit states lo hi n r
    → FirstFit states' lo hi n r
FirstFit-cong states states' lo hi n none same f =
    λ k from inside free. f k from inside (λ j a b. same j (omega arith) (omega arith) ∙ free j a b)
FirstFit-cong states states' lo hi n (some i) same (from, inside, free, first) = (
  from,
  inside,
  (λ j a b. sym (same j (omega arith) (omega arith)) ∙ free j a b),
  λ k fk lk fr. first k fk lk (λ j a b. same j (omega arith) (omega arith) ∙ fr j a b),
)

-- No fit begins at `lo`.
pub FirstFit-step :
    (states : ℕ → ℕ) (lo hi n : ℕ) (r : Option ℕ)
    → (AllFree states lo (lo + n) → ⊥)
    → FirstFit states (lo + 1) hi n r
    → FirstFit states lo hi n r
FirstFit-step states lo hi n none taken f = λ k from inside free. elim (ℕ_discrete lo k) [
  | yes e ↦ taken (rw e free)
  | no ne ↦ f k (omega arith) inside free
]
FirstFit-step states lo hi n (some i) taken (from, inside, free, first) = (
  omega arith,
  inside,
  free,
  λ k fk lk fr. elim (ℕ_discrete lo k) [
    | yes e ↦ taken (rw e fr)
    | no ne ↦ first k (omega arith) lk fr
  ],
)
