-- ===== src/BitmapPool/Release.antt =====
-- MP2_Sources/cont_frame_pool.C: `release_frames` takes back what `get_frames` handed out.
use csce410_611_spring2026_p.Base.Run.{ok}
use csce410_611_spring2026_p.FrameStates.{AllFree, with_sequence, free_state, head_state}
use csce410_611_spring2026_p.FrameStates.Loops.{release_used, release-sequence}
use csce410_611_spring2026_p.FrameStates.Outcome.{Got-found, IsChained, IsChained-end}
use csce410_611_spring2026_p.BitmapPool.{
  ContFramePool, Pools, max_frames, get_state, set_state, get_frames, owns_frame, release_in,
  release_frames,
}
use csce410_611_spring2026_p.BitmapPool.States.{IsPool, set_state-SetsStates}
use csce410_611_spring2026_p.BitmapPool.Get.{get_frames-Got}
use csce410_611_spring2026_p.Base.{
  ℕ, ◌+◌, ◌-◌, ◌<◌, ◌≤◌, ◌≡◌, ◌≢◌, refl, ap, true, false, [], ◌∷◌, ◌++◌, arith, ◌==◌, word_size,
}

abbrev pub NoneOwns : Pools → ℕ → Type 0
NoneOwns [] f = Unit {0}
NoneOwns (p ∷ ps) f = (owns_frame p f ≡ false) × NoneOwns ps f

release_frames-owner :
    (before after : Pools) (p q : ContFramePool) (f : ℕ)
    → NoneOwns before f
    → owns_frame p f ≡ true
    → release_in p f ≡ ok q
    → release_frames (before ++ (p ∷ after)) f ≡ ok (before ++ (q ∷ after))
unfolding release_frames
release_frames-owner [] after p q f none_owns owns released = rw (owns, released) refl
release_frames-owner (b ∷ before) after p q f (not_b, rest) owns released =
    rw (not_b, release_frames-owner before after p q f rest owns released) refl

release_in-owned :
    (base total : ℕ) (q : ContFramePool) (i : ℕ)
    → IsPool base total q
    → base ≤ i
    → i < base + total
    → get_state q i ≡ head_state
    → (owns_frame q i ≡ true)
      × (release_in q i
          ≡ ok (
              release_used get_state set_state
                (base + total - (i + 1))
                (i + 1)
                (set_state q i free_state)))
unfolding release_in owns_frame
release_in-owned base total q i pool from below is_head =
    let head_test : (get_state q i == head_state) ≡ true = ground arith in
    let bound : q.base_frame_no + q.n_frames - (i + 1) ≡ base + total - (i + 1) =
      omega (arith, pool.at_base, pool.size) in
    (
      ground (arith, pool.at_base, pool.size),
      rw head_test (
          ap (λ k. ok (release_used get_state set_state k (i + 1) (set_state q i free_state)))
            bound),
    )

-- A sequence that stands in free frames of `p` is released: the pool has the states of `p` again.
pub release_frames-sequence :
    (before after : Pools) (base total : ℕ) (p q : ContFramePool) (i n : ℕ)
    → IsChained (get_state p) base (base + total)
    → total ≤ max_frames
    → base + total < word_size
    → 0 < n
    → IsPool base total q
    → base ≤ i
    → i + n ≤ base + total
    → AllFree (get_state p) i (i + n)
    → ((g : ℕ) → base ≤ g → g < base + total → get_state q g ≡ with_sequence (get_state p) i n g)
    → NoneOwns before i
    → (q' : ContFramePool) × (release_frames (before ++ (q ∷ after)) i
        ≡ ok (before ++ (q' ∷ after)))
      × IsPool base total q'
      × ((g : ℕ) → base ≤ g → g < base + total → get_state q' g ≡ get_state p g)
release_frames-sequence before after base total p q i n chained small fits some_frames fine from
      inside free marked none_owns =
    let law = set_state-SetsStates base total small fits in
    let (fine', restored) =
      release-sequence get_state set_state base (base + total) (IsPool base total) law i n p q fine
        from some_frames inside free
        (IsChained-end (get_state p) base (base + total) i n chained some_frames from free)
        marked in
    let (owns, released) =
      release_in-owned base total q i fine from (omega arith) (ground (arith, marked i)) in
    (
      release_used get_state set_state (base + total - (i + 1)) (i + 1) (set_state q i free_state),
      release_frames-owner before after q _ i none_owns owns released,
      fine',
      restored,
    )

-- What `get_frames` took from a pool, `release_frames` gives back to that pool: each frame has its state of before,
-- and the other pools do not change. The pool holds no used frame behind a free one, and no pool before it in the
-- list has the frame.
pub get_frames-release_frames :
    (before after : Pools) (base total : ℕ) (p : ContFramePool) (n : ℕ)
    → IsPool base total p
    → IsChained (get_state p) base (base + total)
    → total ≤ max_frames
    → base + total < word_size
    → 0 < n
    → n ≤ total
    → (get_frames p n).0 ≢ 0
    → NoneOwns before (get_frames p n).0
    → (q : ContFramePool) × (release_frames
          (before ++ ((get_frames p n).1 ∷ after))
          (get_frames p n).0
        ≡ ok (before ++ (q ∷ after)))
      × IsPool base total q
      × ((g : ℕ) → base ≤ g → g < base + total → get_state q g ≡ get_state p g)
get_frames-release_frames before after base total p n pool chained small fits some_frames enough
      taken none_owns =
    let ((from, inside, free, first), fine, marked) =
      Got-found get_state (IsPool base total) base (base + total) n p (get_frames p n)
        (get_frames-Got base total p n pool small fits some_frames enough) taken in
    release_frames-sequence before after base total p (get_frames p n).1 (get_frames p n).0 n
      chained small fits some_frames fine from inside free marked none_owns
