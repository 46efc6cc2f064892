-- ===== src/RunPool/States.antt =====
-- MP3_Sources/cont_frame_pool.C: `set_state` sets the state of one frame.
use native.Mathlib.Nat.{mul_comm}
use csce410_611_spring2026_p.FrameStates.Loops.{SetsStates}
use csce410_611_spring2026_p.RunPool.{
  bits_at, value_of, ContFramePool, index, shift, get_state, set_state,
}
use csce410_611_spring2026_p.Base.{
  ℕ, ◌+◌, ◌-◌, ◌%◌, ◌<◌, ◌≤◌, ◌≡◌, refl, ◌∙◌, ◌&&◌, ◌/◌, arith, ◌==◌, if◌then◌else◌, with_field-lt,
  field_of-put, word_size,
}

-- A pool whose frame numbers do not wrap and that holds bytes
pub record IsPool (base n : ℕ) (p : ContFramePool) : Type 0 where
  pub at_base : p.base_frame_no ≡ base
  pub size : p.n_frames ≡ n
  pub bytes : (i : ℕ) → p.bitmap i < 256

index-in :
    (base n : ℕ) (p : ContFramePool) (f : ℕ)
    → base + n < word_size
    → p.base_frame_no ≡ base
    → base ≤ f
    → f < base + n
    → index p f ≡ f - base
index-in base n p f fits at_base from below = omega arith

set_state-IsPool :
    (base n : ℕ) (p : ContFramePool) (f v : ℕ) → IsPool base n p → IsPool base n (set_state p f v)
unfolding set_state
set_state-IsPool base n p f v pool = record {
  at_base = pool.at_base;
  size = pool.size;
  bytes = λ i.
      ground
        (arith, pool.bytes i, with_field-lt (p.bitmap (index p f / 4)) (shift p f) (value_of v));
}

bits_at-set_state :
    (base n : ℕ) (p : ContFramePool) (f g v : ℕ)
    → base + n < word_size
    → IsPool base n p
    → base ≤ f
    → f < base + n
    → base ≤ g
    → g < base + n
    → bits_at (set_state p f v) g ≡ (if f == g then value_of v else bits_at p g)
unfolding set_state
bits_at-set_state base n p f g v fits pool from below fg bg =
    let f_index = index-in base n p f fits pool.at_base from below in
    let g_index = index-in base n p g fits pool.at_base fg bg in
    let i = f - base in
    let j = g - base in
    let law =
      field_of-put p.bitmap (value_of v) (i / 4) (3 - i % 4) (j / 4) (3 - j % 4)
        (pool.bytes (i / 4)) (ground arith) (omega arith) (omega arith) in
    let same : (i / 4 == j / 4 && 3 - i % 4 == 3 - j % 4) ≡ (f == g) = ground arith in
    rw (f_index, g_index, mul_comm (3 - i % 4) 2, mul_comm (3 - j % 4) 2) (law ∙ rw same refl)

pub set_state-SetsStates :
    (base n : ℕ)
    → base + n < word_size
    → SetsStates get_state set_state base (base + n) (IsPool base n)
unfolding get_state
set_state-SetsStates base n fits = λ p f v pool from below value. (
  set_state-IsPool base n p f v pool,
  λ g fg bg. ground (arith, bits_at-set_state base n p f g v fits pool from below fg bg),
)
