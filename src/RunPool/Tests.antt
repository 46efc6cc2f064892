-- ===== src/RunPool/Tests.antt =====
-- The pool of the tests of BitmapPool, as MP3 keeps it: runs, and the theorem at it.
use csce410_611_spring2026_p.Base.TwoBits.{holds_below, holds_at, field_of}
use csce410_611_spring2026_p.BitmapPool
use csce410_611_spring2026_p.BitmapPool.States as BitmapStates
use csce410_611_spring2026_p.RunPool.{ContFramePool, get_state, find_run, mark_found, get_frames}
use csce410_611_spring2026_p.RunPool.States.{IsPool}
use csce410_611_spring2026_p.RunPool.Same.{get_frames-same}
use csce410_611_spring2026_p.Base.{
  ℕ, ◌+◌, ◌-◌, ◌<◌, ◌≤◌, ◌≡◌, refl, Bool, true, arith, ◌==◌, if◌then◌else◌, ==_iff,
}

abbrev bitmap_pool : BitmapPool.ContFramePool
bitmap_pool = record {
  bitmap = λ i. if i == 0 then 6 else 0;
  base_frame_no = 512;
  n_frames = 16;
  info_frame_no = 0;
}

abbrev run_pool : ContFramePool
run_pool = record {
  bitmap = λ i. if i == 0 then 144 else 0;
  base_frame_no = 512;
  n_frames = 16;
  n_info_frames = 1;
}

bitmap_pool-IsPool : BitmapStates.IsPool 512 16 bitmap_pool
bitmap_pool-IsPool = record { at_base = refl; size = refl; bytes = λ i. ground arith }

run_pool-IsPool : IsPool 512 16 run_pool
run_pool-IsPool = record { at_base = refl; size = refl; bytes = λ i. ground arith }

same_state : ℕ → Bool
same_state k = BitmapPool.get_state bitmap_pool (512 + k) == get_state run_pool (512 + k)

same_states : holds_below 16 same_state ≡ true
unfolding holds_below same_state get_state BitmapPool.get_state field_of
same_states = refl

same_at : (f : ℕ) → 512 ≤ f → f < 528 → BitmapPool.get_state bitmap_pool f ≡ get_state run_pool f
unfolding same_state
same_at f from below =
    let k : ℕ = f - 512 in
    let at : 512 + k ≡ f = omega arith in
    (==_iff _ _).0 (rw at at (holds_at 16 same_state k (omega arith) same_states))

first_frame : (get_frames run_pool 3).0 ≡ 514
unfolding get_frames mark_found find_run get_state field_of
first_frame = refl

get_frames-same_example :
    ((BitmapPool.get_frames bitmap_pool 3).0 ≡ (get_frames run_pool 3).0)
    × ((f : ℕ)
        → 512 ≤ f
        → f < 528
        → BitmapPool.get_state (BitmapPool.get_frames bitmap_pool 3).1 f
          ≡ get_state (get_frames run_pool 3).1 f)
get_frames-same_example =
    get_frames-same 512 16 bitmap_pool run_pool 3 bitmap_pool-IsPool run_pool-IsPool same_at
      (omega arith) (omega arith) (omega arith) (omega arith)
