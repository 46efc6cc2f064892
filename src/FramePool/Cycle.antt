-- ===== src/FramePool/Cycle.antt =====
-- MP4_Sources/cont_frame_pool.C: `release_frames` over all pools, and the release of what
-- `get_frames` took.
use mathlib.Core.Path.{subst}
use csce410_611_spring2026_p.Base.{
  ℕ, suc, ◌+◌, ◌-◌, ◌<◌, ◌≤◌, ◌≡◌, ◌∙◌, refl, true, false, [], ◌∷◌, ◌++◌, arith, dec_lt,
}
use csce410_611_spring2026_p.Base.Run.{Run, ok, halted, out_of_fuel, ◌>>=◌}
use csce410_611_spring2026_p.FramePool.{
  ContFramePool, Pools, allocated_state, is_used, get_frames, release_frame, release_frames,
  owns_frame,
}
use csce410_611_spring2026_p.FramePool.Get.{
  IsValid, AllFree, Taken, GetOutcome, got, refused, get_frames_outcome,
}
use csce410_611_spring2026_p.FramePool.Release.{
  IsSequence, Released, ReleaseOutcome, not_head, released, release_frame_outcome,
}

-- No pool of the list has the frame.
abbrev pub Unowned : Pools → ℕ → Type 0
Unowned [] frame = Unit {0}
Unowned (p ∷ ps) frame = (owns_frame p frame ≡ false) × Unowned ps frame

-- `release_frames` releases the frame in the first pool that has it, and leaves the other pools.
pub release_frames-owner :
    (before : Pools) (p : ContFramePool) (after : Pools) (frame : ℕ)
    → Unowned before frame
    → owns_frame p frame ≡ true
    → release_frames (before ++ (p ∷ after)) frame
      ≡ (release_frame p frame >>= (λ p'. ok (before ++ (p' ∷ after))))
unfolding release_frames
release_frames-owner [] p after frame none_before own = rw own
release_frames-owner (q ∷ qs) p after frame (other, none_before) own =
    rw (other, release_frames-owner qs p after frame none_before own) (join (release_frame p frame))
  where
    join :
        (r : Run ContFramePool)
        → ((r >>= (λ p'. ok (qs ++ (p' ∷ after)))) >>= (λ ps'. ok (q ∷ ps')))
          ≡ (r >>= (λ p'. ok (q ∷ (qs ++ (p' ∷ after)))))
    join (ok a) = refl
    join halted = refl
    join out_of_fuel = refl

-- A frame that no pool has is not released.
pub release_frames-Unowned :
    (ps : Pools) (frame : ℕ) → Unowned ps frame → release_frames ps frame ≡ ok ps
unfolding release_frames
release_frames-Unowned [] frame free = refl
release_frames-Unowned (p ∷ ps) frame (other, free) =
    rw (other, release_frames-Unowned ps frame free)

-- Two pools with the same bitmap, count and frames
pub record SamePool (p q : ContFramePool) : Type 0 where
  pub bitmap : (j : ℕ) → p.bitmap j ≡ q.bitmap j
  pub count : p.n_free_frames ≡ q.n_free_frames
  pub same_base : p.base_frame_no ≡ q.base_frame_no
  pub same_size : p.nframes ≡ q.nframes

module _ (p : ContFramePool) (n i : ℕ) (p' : ContFramePool) (v : IsValid p) (pos : 0 < n)
    (h : i + n ≤ p.nframes) (free : AllFree p.bitmap i (i + n)) (t : Taken p i n p') where
  -- The sequence that was taken ends where the run ended.
  taken_end : (e : ℕ) → IsSequence p'.bitmap p'.nframes i e → e ≡ i + n
  taken_end e q =
      let size = t.same_size in
      let some_frame = q.some_frame in
      elim (dec_lt e (i + n)) [
        | yes short ↦ absurd (ground (arith, q.ends, t.sequence e))
        | no long ↦ elim (dec_lt (i + n) e) [
          | yes over ↦ absurd (past over)
          | no exact ↦ omega arith
        ]
      ]
    where
      past : i + n < e → ⊥
      past over =
          let size = t.same_size in
          let in_pool = q.in_pool in
          let at : suc (i + n - 1) ≡ i + n = omega arith in
          let kept = t.sequence (i + n) in
          let inner : p'.bitmap (i + n) ≡ allocated_state = q.inner (i + n) (omega arith) over in
          let last : p.bitmap (i + n) ≡ allocated_state = ground arith in
          v.chained (i + n - 1) (omega arith) (rw at last)
            (free (i + n - 1) (omega arith) (omega arith))

  back : (e : ℕ) (p'' : ContFramePool) → e ≡ i + n → Released p' i e p'' → SamePool p'' p
  back e p'' same r = record {
    bitmap = λ j. ground (arith, r.frames j, t.sequence j, free j);
    count = omega (arith, r.count, t.count);
    same_base = r.same_base ∙ t.same_base;
    same_size = r.same_size ∙ t.same_size;
  }

  taken-release :
      (p'' : ContFramePool) × (release_frame p' (p.base_frame_no + i) ≡ ok p'') × SamePool p'' p
  taken-release =
      let size = t.same_size in
      let frame : p.base_frame_no + i ≡ p'.base_frame_no + i =
        let base = t.same_base in omega arith in
      let (p'', e, same) = from (release_frame_outcome p' i t.valid (omega arith)) in
      (p'', rw frame e, same)
    where
      from :
          {r : Run ContFramePool}
          → ReleaseOutcome p' i r
          → (p'' : ContFramePool) × (r ≡ ok p'') × SamePool p'' p
      from (not_head ne) = absurd (ne (ground (arith, t.sequence i)))
      from (released e p'' head q r) = (p'', refl, back e p'' (taken_end e q) r)

  taken-owned : owns_frame p' (p.base_frame_no + i) ≡ true
  taken-owned = let size = t.same_size in let base = t.same_base in ground arith

-- What `get_frames` took from a valid pool, with at least one frame asked for, a stop for the search
-- at `z` and enough fuel, `release_frames` gives back: the pool has its bitmap and its count of
-- before, and the other pools do not change. No pool in front of it in the list has the frame.
pub release_frames-get_frames :
    (before after : Pools) (p : ContFramePool) (n fuel z start : ℕ) (p' : ContFramePool)
    → IsValid p
    → 0 < n
    → p.nframes ≤ z
    → is_used (p.bitmap z) ≡ false
    → z < fuel
    → get_frames fuel p n ≡ ok (start, p')
    → Unowned before start
    → (p'' : ContFramePool) × (release_frames (before ++ (p' ∷ after)) start
        ≡ ok (before ++ (p'' ∷ after)))
      × SamePool p'' p
release_frames-get_frames before after p n fuel z start p' v pos behind stop enough e others =
    from (get_frames_outcome p n v pos fuel z behind stop enough) e
  where
    from :
        {r : Run (ℕ × ContFramePool)}
        → GetOutcome p n r
        → r ≡ ok (start, p')
        → (p'' : ContFramePool) × (release_frames (before ++ (p' ∷ after)) start
            ≡ ok (before ++ (p'' ∷ after)))
          × SamePool p'' p
    from (refused none_free) same = cc
    from (got i q h free first t) same =
        let frame : p.base_frame_no + i ≡ start = cc in
        let pool : q ≡ p' = cc in
        let taken : Taken p i n p' = subst (λ x. Taken p i n x) pool t in
        let (p'', done, restored) = taken-release p n i p' v pos h free taken in
        (
          p'',
          rw (← frame) (
              release_frames-owner before p' after (p.base_frame_no + i) (rw frame others)
                (taken-owned p n i p' v pos h free taken)
              ∙ rw done),
          restored,
        )
