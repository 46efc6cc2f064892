-- ===== src/FramePool/Tests.antt =====
-- A pool of 16 frames from frame 512 on: runs, and the theorems at it.
use csce410_611_spring2026_p.Base.{◌+◌, ℕ, ◌≡◌, refl, [], ◌∷◌, arith, ltb, ◌==◌, if◌then◌else◌}
use csce410_611_spring2026_p.Base.Run.{Run, ok}
use csce410_611_spring2026_p.FramePool.{
  mark_inaccessible, ContFramePool, Pools, free_state, head_state, allocated_state, new_pool,
  get_frames, release_frames, release_frame,
}
use csce410_611_spring2026_p.FramePool.Get.{with_state, IsValid, GetOutcome, get_frames_outcome}
use csce410_611_spring2026_p.FramePool.Release.{ReleaseOutcome, release_frame_outcome}
use csce410_611_spring2026_p.FramePool.Cycle.{SamePool, release_frames-get_frames}
use csce410_611_spring2026_p.FramePool.Setup.{New, new_pool-New, mark_inaccessible-free}

-- The frames 512 and 513 are one sequence, 516 is another; memory behind the bitmap is zero.
abbrev pool : ContFramePool
pool = record {
  bitmap = λ i.
      if i == 0
      then head_state
      else if i == 1
      then allocated_state
      else if i == 4
      then head_state
      else if ltb i 16
      then free_state
      else 0;
  n_free_frames = 13;
  base_frame_no = 512;
  nframes = 16;
  info_frame_no = 0;
}

-- A pool of frames below 512
abbrev front : ContFramePool
front = record pool { base_frame_no = 256; nframes = 8 }

pool-IsValid : IsValid pool
pool-IsValid = record {
  states = λ i h. ground arith;
  chained = λ i h. ground arith;
  counted = refl;
}

get_frames_outcome_example : GetOutcome pool 3 (get_frames 40 pool 3)
get_frames_outcome_example =
    get_frames_outcome pool 3 pool-IsValid (omega arith) 40 16 (omega arith) refl (omega arith)

release_frame_outcome_example : ReleaseOutcome pool 0 (release_frame pool 512)
release_frame_outcome_example = release_frame_outcome pool 0 pool-IsValid (omega arith)

pool_of : Run (ℕ × ContFramePool) → ContFramePool
pool_of (ok (start, p)) = p
pool_of r = pool

get_frames_runs : get_frames 40 pool 3 ≡ ok (517, pool_of (get_frames 40 pool 3))
unfolding pool_of get_frames
get_frames_runs = refl

release_frames-get_frames_example :
    (p' : ContFramePool) × (release_frames (pool_of (get_frames 40 pool 3) ∷ []) 517 ≡ ok (p' ∷ []))
    × SamePool p' pool
release_frames-get_frames_example =
    release_frames-get_frames [] [] pool 3 40 16 517 (pool_of (get_frames 40 pool 3)) pool-IsValid
      (omega arith) (omega arith) refl (omega arith) get_frames_runs tt

new_pool-New_example :
    (p : ContFramePool) × (pools' : Pools) × (new_pool 512 16 0 (λ i. 0) (pool ∷ [])
      ≡ ok (p, pools'))
    × New 512 16 0 (pool ∷ []) p pools'
new_pool-New_example =
    new_pool-New 512 16 0 (λ i. 0) (pool ∷ []) refl (omega arith) (omega arith) (λ e. omega arith)
      (λ ne. absurd (ne refl))

mark_inaccessible-free_example :
    (p' : ContFramePool) × (mark_inaccessible pool 520 2 ≡ ok p')
    × ((j : ℕ) → p'.bitmap j ≡ with_state pool.bitmap head_state 8 10 j)
    × (p'.n_free_frames + 2 ≡ 13)
    × IsValid p'
mark_inaccessible-free_example =
    mark_inaccessible-free pool 8 2 pool-IsValid (omega arith) (omega arith) (λ k a b. ground arith)
