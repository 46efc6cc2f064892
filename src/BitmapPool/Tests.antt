-- ===== src/BitmapPool/Tests.antt =====
-- A pool of 16 frames from frame 512 on: runs, and the theorems at it.
use csce410_611_spring2026_p.Base.Run.{ok}
use csce410_611_spring2026_p.Base.TwoBits.{holds_below, holds_at, field_of}
use csce410_611_spring2026_p.FrameStates.{free_state, used_state}
use csce410_611_spring2026_p.FrameStates.Outcome.{Got, IsChained}
use csce410_611_spring2026_p.BitmapPool.{
  ContFramePool, get_state, all_free, find_frames, mark_found, get_frames, owns_frame,
  release_frames,
}
use csce410_611_spring2026_p.BitmapPool.States.{IsPool}
use csce410_611_spring2026_p.BitmapPool.Get.{get_frames-Got}
use csce410_611_spring2026_p.BitmapPool.Release.{get_frames-release_frames}
use csce410_611_spring2026_p.Base.{
  ℕ, suc, ◌+◌, ◌-◌, ◌<◌, ◌≤◌, ◌≡◌, refl, Bool, true, false, ◌&&◌, [], ◌∷◌, ◌++◌, arith, ◌==◌,
  if◌then◌else◌, not,
}

-- The frames 512 and 513 are a sequence.
abbrev pool : ContFramePool
pool = record {
  bitmap = λ i. if i == 0 then 6 else 0;
  base_frame_no = 512;
  n_frames = 16;
  info_frame_no = 0;
}

-- A pool of frames below 512
abbrev front : ContFramePool
front = record pool { base_frame_no = 256; n_frames = 8 }

pool-IsPool : IsPool 512 16 pool
pool-IsPool = record { at_base = refl; size = refl; bytes = λ i. ground arith }

no_gap : ℕ → Bool
no_gap k =
    not (get_state pool (512 + k) == free_state && get_state pool (512 + k + 1) == used_state)

no_gaps : holds_below 16 no_gap ≡ true
unfolding holds_below no_gap get_state field_of
no_gaps = refl

pool-IsChained : IsChained (get_state pool) 512 528
unfolding no_gap
pool-IsChained = λ f from below free used.
    let k : ℕ = f - 512 in
    let at : 512 + k ≡ f = omega arith in
    let next : f + 1 ≡ suc f = omega arith in
    let checked = rw (at, next) at (holds_at 16 no_gap k (omega arith) no_gaps) in
    ground (arith, checked)

get_frames-Got_example : Got get_state (IsPool 512 16) 512 528 3 pool (get_frames pool 3)
get_frames-Got_example =
    get_frames-Got 512 16 pool 3 pool-IsPool (omega arith) (omega arith) (omega arith) (omega arith)

first_frame : (get_frames pool 3).0 ≡ 514
unfolding get_frames mark_found find_frames all_free get_state field_of
first_frame = refl

front_not_owner : owns_frame front (get_frames pool 3).0 ≡ false
unfolding owns_frame
front_not_owner = rw first_frame refl

get_frames-release_frames_example :
    (q : ContFramePool) × (release_frames
        ((front ∷ []) ++ ((get_frames pool 3).1 ∷ []))
        (get_frames pool 3).0
      ≡ ok ((front ∷ []) ++ (q ∷ [])))
    × IsPool 512 16 q
    × ((g : ℕ) → 512 ≤ g → g < 528 → get_state q g ≡ get_state pool g)
get_frames-release_frames_example =
    get_frames-release_frames (front ∷ []) [] 512 16 pool 3 pool-IsPool pool-IsChained (omega arith)
      (omega arith) (omega arith) (omega arith) (rw first_frame (omega arith)) (front_not_owner, tt)
