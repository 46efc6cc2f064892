-- ===== src/MemoryTest/Pass.antt =====
-- MP2_Sources/kernel.C: the recursive test passes, and leaves the pool as it was.
use csce410_611_spring2026_p.Base.Run.{ok}
use csce410_611_spring2026_p.FrameStates.{AllFree, free_state, with_sequence}
use csce410_611_spring2026_p.FrameStates.Outcome.{Got, got, none_left, IsChained}
use csce410_611_spring2026_p.BitmapPool.{ContFramePool, max_frames, get_state, get_frames}
use csce410_611_spring2026_p.BitmapPool.States.{IsPool}
use csce410_611_spring2026_p.BitmapPool.Get.{get_frames-Got}
use csce410_611_spring2026_p.BitmapPool.Release.{release_frames-sequence}
use csce410_611_spring2026_p.MemoryTest.{
  array_at, write_all, all_hold, check_and_release, test_memory,
}
use csce410_611_spring2026_p.Base.{
  ℕ, zero, suc, ◌+◌, ◌*◌, ◌%◌, ◌<◌, ◌≤◌, ◌≡◌, ◌≢◌, refl, ◌∙◌, true, ◌&&◌, ◌/◌, ◌^◌, [], arith, ltb,
  if◌then◌else◌, put, dec_lt, leb,
}

write_all_lem :
    (k at value : ℕ) (memory : ℕ → ℕ) (j : ℕ)
    → write_all k at value memory j ≡ (if leb at j && ltb j (at + k) then value else memory j)
unfolding write_all
write_all_lem zero at value memory j = ground arith
write_all_lem (suc k) at value memory j =
    write_all_lem k (at + 1) value (put memory at value) j ∙ ground arith

all_hold_lem :
    (k at value : ℕ) (memory : ℕ → ℕ)
    → ((j : ℕ) → at ≤ j → j < at + k → memory j ≡ value)
    → all_hold k at value memory ≡ true
unfolding all_hold
all_hold_lem zero at value memory same = refl
all_hold_lem (suc k) at value memory same =
    let rest =
      all_hold_lem k (at + 1) value memory (λ j lo hi. same j (omega arith) (omega arith)) in
    ground (arith, same at (omega arith) (omega arith))

-- The frames that the test takes at its deepest
abbrev pub needed : ℕ → ℕ
needed zero = 0
needed (suc k) = suc k % 4 + 1 + needed k

IsChained-with_sequence :
    (states : ℕ → ℕ) (lo hi i n : ℕ)
    → 0 < n
    → IsChained states lo hi
    → IsChained (with_sequence states i n) lo hi
IsChained-with_sequence states lo hi i n some_frames chained f from below free used =
    ground (arith, chained f from below)

-- What a part of the test leaves: the states of all frames, and the words of the frames that were not free
pub record Passed (base total : ℕ) (p : ContFramePool) (memory : ℕ → ℕ) (p' : ContFramePool)
    (memory' : ℕ → ℕ) : Type 0 where
  pub pool : IsPool base total p'
  pub same_states : (g : ℕ) → base ≤ g → g < base + total → get_state p' g ≡ get_state p g
  pub same_words :
      (j : ℕ)
      → (base ≤ j / 1024 → j / 1024 < base + total → get_state p (j / 1024) ≢ free_state)
      → memory' j ≡ memory j

module _ (base total : ℕ) (small : total ≤ max_frames) (above : 0 < base)
    (fits : base + total ≤ 2 ^ 20) where
  -- A run that is longer than the frames asked for lets `get_frames` succeed, and its rest stays free.
  get_from_run :
      (p : ContFramePool) (n more r : ℕ)
      → IsPool base total p
      → 0 < n
      → base ≤ r
      → r + (n + more) ≤ base + total
      → AllFree (get_state p) r (r + (n + more))
      → let (frame, p') = get_frames p n in
        (base ≤ frame)
        × (frame + n ≤ base + total)
        × AllFree (get_state p) frame (frame + n)
        × IsPool base total p'
        × ((g : ℕ)
            → base ≤ g
            → g < base + total
            → get_state p' g ≡ with_sequence (get_state p) frame n g)
        × AllFree (get_state p') (r + n) (r + n + more)
  get_from_run p n more r pool pos from inside free =
      cases (get_frames p n)
        (get_frames-Got base total p n pool small (omega arith) pos (omega arith))
    where
      cases :
          (q : ℕ × ContFramePool)
          → Got get_state (IsPool base total) base (base + total) n p q
          → (base ≤ q.0)
            × (q.0 + n ≤ base + total)
            × AllFree (get_state p) q.0 (q.0 + n)
            × IsPool base total q.1
            × ((g : ℕ)
                → base ≤ g
                → g < base + total
                → get_state q.1 g ≡ with_sequence (get_state p) q.0 n g)
            × AllFree (get_state q.1) (r + n) (r + n + more)
      cases q (got i p' (lo, hi, empty, first) fine marked) =
          let early : i ≤ r = elim (dec_lt r i) [
            | yes h ↦ absurd (first r from h (λ j a b. free j a (omega arith)))
            | no h ↦ omega arith
          ] in
          (
            lo,
            hi,
            empty,
            fine,
            marked,
            λ g a b.
                marked g (omega arith) (omega arith)
                ∙ ground (arith, free g (omega arith) (omega arith)),
          )
      cases q (none_left none_fits) =
          absurd (none_fits r from (omega arith) (λ j a b. free j a (omega arith)))

  -- The check after the recursion, for a pool and memory that the recursion left
  checked_lem :
      (p p' q : ContFramePool) (frame n value : ℕ) (memory memory' : ℕ → ℕ)
      → IsChained (get_state p) base (base + total)
      → 0 < n
      → base ≤ frame
      → frame + n ≤ base + total
      → AllFree (get_state p) frame (frame + n)
      → ((g : ℕ)
          → base ≤ g
          → g < base + total
          → get_state p' g ≡ with_sequence (get_state p) frame n g)
      → Passed base total p' (write_all (1024 * n) (array_at frame) value memory) q memory'
      → (r : ContFramePool) × (check_and_release frame n value (q, memory') ≡ ok (r, memory'))
        × Passed base total p memory r memory'
  unfolding check_and_release
  checked_lem p p' q frame n value memory memory' chained pos lo hi free marked passed =
      let held = all_hold_lem (1024 * n) (array_at frame) value memory' (λ j a b.
        passed.same_words j (λ c d. ground (arith, marked (j / 1024) c d))
        ∙ write_all_lem (1024 * n) (array_at frame) value memory j
        ∙ ground arith) in
      let (r, released, pool, restored) =
        release_frames-sequence [] [] base total p q frame n chained small (omega arith) pos
          passed.pool lo hi free (λ g a b. passed.same_states g a b ∙ marked g a b) tt in
      (
        r,
        rw (held, released) refl,
        record {
          pool = pool;
          same_states = restored;
          same_words = λ j kept.
              passed.same_words j (λ c d. ground (arith, marked (j / 1024) c d, kept c d))
              ∙ write_all_lem (1024 * n) (array_at frame) value memory j
              ∙ ground (arith, kept, free (j / 1024));
        },
      )

  test_memory_lem :
      (k r : ℕ) (p : ContFramePool) (memory : ℕ → ℕ)
      → IsPool base total p
      → IsChained (get_state p) base (base + total)
      → base ≤ r
      → r + needed k ≤ base + total
      → AllFree (get_state p) r (r + needed k)
      → (q : ContFramePool) × (memory' : ℕ → ℕ) × (test_memory k (p, memory) ≡ ok (q, memory'))
        × Passed base total p memory q memory'
  unfolding test_memory
  test_memory_lem zero r p memory pool chained from inside free = (
    p,
    memory,
    refl,
    record { pool = pool; same_states = λ g a b. refl; same_words = λ j kept. refl },
  )
  test_memory_lem (suc k) r p memory pool chained from inside free =
      let n = suc k % 4 + 1 in
      let (lo, hi, empty, fine, marked, rest) =
        get_from_run p n (needed k) r pool (omega arith) from inside free in
      let frame = (get_frames p n).0 in
      let p' = (get_frames p n).1 in
      let memory₁ = write_all (1024 * n) (array_at frame) (suc k) memory in
      let linked =
        IsChained-with_sequence (get_state p) base (base + total) frame n (omega arith) chained in
      let chained' : IsChained (get_state p') base (base + total) =
        λ f a b. rw (marked f a (omega arith), marked (suc f) (omega arith) b) (linked f a b) in
      let (q, memory₂, below, passed) =
        test_memory_lem k (r + n) p' memory₁ fine chained' (omega arith) (omega arith) rest in
      let (q', done, all) =
        checked_lem p p' q frame n (suc k) memory memory₂ chained (omega arith) lo hi empty marked
          passed in
      (q', memory₂, rw below done, all)

-- On a pool with a run of free frames that is long enough for all recursive allocations, the test ends without the
-- endless loop and without a failed assertion; every frame of the pool has its state of before, and the words of
-- frames that were not free have their values. The pool has no used frame behind a free one.
pub test_memory-Passed :
    (allocs base total r : ℕ) (p : ContFramePool) (memory : ℕ → ℕ)
    → total ≤ max_frames
    → 0 < base
    → base + total ≤ 2 ^ 20
    → IsPool base total p
    → IsChained (get_state p) base (base + total)
    → base ≤ r
    → r + needed allocs ≤ base + total
    → AllFree (get_state p) r (r + needed allocs)
    → (q : ContFramePool) × (memory' : ℕ → ℕ) × (test_memory allocs (p, memory) ≡ ok (q, memory'))
      × Passed base total p memory q memory'
test_memory-Passed allocs base total r p memory small above fits pool chained from inside free =
    test_memory_lem base total small above fits allocs r p memory pool chained from inside free
