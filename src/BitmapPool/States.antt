-- ===== src/BitmapPool/States.antt =====
-- MP2_Sources/cont_frame_pool.C: `set_state` sets the state of one frame.
use csce410_611_spring2026_p.FrameStates.Loops.{SetsStates}
use csce410_611_spring2026_p.BitmapPool.{ContFramePool, max_frames, bit_pos, get_state, set_state}
use csce410_611_spring2026_p.Base.{
  ℕ, ◌+◌, ◌-◌, ◌*◌, ◌%◌, ◌<◌, ◌≤◌, ◌≡◌, refl, ◌∙◌, ◌&&◌, ◌/◌, arith, ◌==◌, with_field-lt,
  field_of-put, word_size,
}

-- A pool of at most 8192 frames, whose numbers do not wrap, that holds bytes
pub record IsPool (base n : ℕ) (p : ContFramePool) : Type 0 where
  pub at_base : p.base_frame_no ≡ base
  pub size : p.n_frames ≡ n
  pub bytes : (i : ℕ) → p.bitmap i < 256

-- The place of the state of a frame
bit_pos-in :
    (base n : ℕ) (p : ContFramePool) (f : ℕ)
    → n ≤ max_frames
    → base + n < word_size
    → p.base_frame_no ≡ base
    → base ≤ f
    → f < base + n
    → (bit_pos p f / 8 ≡ (f - base) / 4) × (bit_pos p f % 8 ≡ 2 * ((f - base) % 4))
bit_pos-in base n p f small fits at_base from below = omega arith

pub set_state-SetsStates :
    (base n : ℕ)
    → n ≤ max_frames
    → base + n < word_size
    → SetsStates get_state set_state base (base + n) (IsPool base n)
unfolding get_state set_state
set_state-SetsStates base n small fits = λ p f v pool from below value.
    let (f_byte, f_bit) = bit_pos-in base n p f small fits pool.at_base from below in
    (
      record {
        at_base = pool.at_base;
        size = pool.size;
        bytes = λ i.
            ground
              (arith, pool.bytes i, with_field-lt (p.bitmap (bit_pos p f / 8)) (bit_pos p f % 8) v);
      },
      λ g fg bg.
          let (g_byte, g_bit) = bit_pos-in base n p g small fits pool.at_base fg bg in
          let law =
            field_of-put p.bitmap v ((f - base) / 4) ((f - base) % 4) ((g - base) / 4)
              ((g - base) % 4) (pool.bytes _) (omega arith) (omega arith) (omega arith) in
          let same : ((f - base) / 4 == (g - base) / 4 && (f - base) % 4 == (g - base) % 4)
              ≡ (f == g) =
            ground arith in
          rw (f_byte, f_bit, g_byte, g_bit) (law ∙ rw same refl),
    )
