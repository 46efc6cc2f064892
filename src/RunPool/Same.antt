-- ===== src/RunPool/Same.antt =====
-- MP2_Sources/cont_frame_pool.C and MP3_Sources/cont_frame_pool.C: two searches, one result.
use csce410_611_spring2026_p.FrameStates.Outcome.{Got-same}
use csce410_611_spring2026_p.BitmapPool
use csce410_611_spring2026_p.BitmapPool.{max_frames}
use csce410_611_spring2026_p.BitmapPool.States as BitmapStates
use csce410_611_spring2026_p.BitmapPool.Get as BitmapGet
use csce410_611_spring2026_p.RunPool.{ContFramePool, get_state, get_frames}
use csce410_611_spring2026_p.RunPool.States.{IsPool}
use csce410_611_spring2026_p.RunPool.Get.{get_frames-Got}
use csce410_611_spring2026_p.Base.{ℕ, ◌+◌, ◌<◌, ◌≤◌, ◌≡◌, word_size}

-- The pools of MP2, which tries each window of frames, and of MP3, which counts a run of free frames in one pass, are
-- the same allocator: from the same states `get_frames` returns the same number in both and leaves the same states.
-- At least one frame is asked for and at most as many as the pools have, and the pool of MP2 has at most 8192 frames.
pub get_frames-same :
    (base total : ℕ) (p : BitmapPool.ContFramePool) (q : ContFramePool) (n : ℕ)
    → BitmapStates.IsPool base total p
    → IsPool base total q
    → ((f : ℕ) → base ≤ f → f < base + total → BitmapPool.get_state p f ≡ get_state q f)
    → total ≤ max_frames
    → base + total < word_size
    → 0 < n
    → n ≤ total
    → ((BitmapPool.get_frames p n).0 ≡ (get_frames q n).0)
      × ((f : ℕ)
          → base ≤ f
          → f < base + total
          → BitmapPool.get_state (BitmapPool.get_frames p n).1 f ≡ get_state (get_frames q n).1 f)
get_frames-same base total p q n pool pool' same small fits some_frames enough =
    Got-same BitmapPool.get_state get_state (BitmapStates.IsPool base total) (IsPool base total)
      base (base + total) n p q (BitmapPool.get_frames p n) (get_frames q n) same
      (BitmapGet.get_frames-Got base total p n pool small fits some_frames enough)
      (get_frames-Got base total q n pool' fits some_frames)
