-- ===== src/BitmapPool.antt =====
-- MP2_Sources/cont_frame_pool.{H,C}: class ContFramePool with two bits of state for each frame, in an array of the
-- object. `unsigned long` has 32 bits. The list of pools is a list, its head first; `prev` is not read.
pub mod States
pub mod Get
pub mod Release
mod Tests
use csce410_611_spring2026_p.Base.Run.{Run, ok, halted, out_of_fuel, ◌>>=◌}
use csce410_611_spring2026_p.FrameStates.{free_state, used_state, head_state}
use csce410_611_spring2026_p.FrameStates.Loops.{set_all, release_used}
use csce410_611_spring2026_p.Base.{
  ℕ, zero, suc, ◌+◌, ◌-◌, ◌*◌, ◌%◌, ◌<◌, ◌≤◌, ◌≡◌, ◌≢◌, refl, sym, ap, ◌∙◌, inl, inr, ◌⊎◌, Bool,
  true, false, ◌&&◌, ◌||◌, ◌/◌, ◌^◌, Option, some, none, List, [], ◌∷◌, ◌++◌, arith, ltb, ◌==◌,
  if◌then◌else◌, put, put_ne, put_self, ℕ_discrete, dec_lt, copy, field_of, with_field,
  with_field-lt, field_of-with_field, Bool-cases, word_size, leb,
}

abbrev pub bits_per_frame : ℕ
bits_per_frame = 2

abbrev pub max_frames : ℕ
max_frames = 8192

pub record ContFramePool : Type 0 where
  pub bitmap : ℕ → ℕ
  pub base_frame_no : ℕ
  pub n_frames : ℕ
  pub info_frame_no : ℕ

abbrev pub Pools : Type 0
Pools = List ContFramePool

-- `bit_pos`
abbrev pub bit_pos : ContFramePool → ℕ → ℕ
bit_pos p frame_no =
    (word_size + frame_no - p.base_frame_no) % word_size * bits_per_frame % word_size

unfoldable pub get_state : ContFramePool → ℕ → ℕ
get_state p frame_no = field_of (p.bitmap (bit_pos p frame_no / 8)) (bit_pos p frame_no % 8)

unfoldable pub set_state : ContFramePool → (frame_no state : ℕ) → ContFramePool
set_state p frame_no state = record p {
  bitmap =
      put p.bitmap (bit_pos p frame_no / 8)
        (with_field (p.bitmap (bit_pos p frame_no / 8)) (bit_pos p frame_no % 8) state);
}

-- The constructor: the pool, and the list with it at its end. `memory` is what stood in the array.
unfoldable pub new_pool : (base n info : ℕ) → (ℕ → ℕ) → Pools → Run (ContFramePool × Pools)
new_pool base n info memory pools =
    let p : ContFramePool = record {
      bitmap = copy ((n * bits_per_frame + 7) / 8) (λ i. free_state) memory;
      base_frame_no = base;
      n_frames = n;
      info_frame_no = info;
    } in
    if leb n max_frames then ok (p, pools ++ (p ∷ [])) else halted

-- The inner loop of `get_frames`: `found` for the frames from `frame_no` on
unfoldable pub all_free : (rounds frame_no : ℕ) → ContFramePool → Bool
all_free zero frame_no p = true
all_free (suc k) frame_no p =
    let rest = all_free k (frame_no + 1) p in
    if get_state p frame_no == free_state then rest else false

-- The outer loop, with the rounds that are left
unfoldable pub find_frames : (rounds : ℕ) → ContFramePool → (n frame_no : ℕ) → Option ℕ
find_frames zero p n frame_no = none
find_frames (suc k) p n frame_no =
    let rest = find_frames k p n (frame_no + 1) in
    if all_free n frame_no p then some frame_no else rest

-- The frames that the search found are marked; the result is the number of the first one, or 0.
unfoldable pub mark_found : ContFramePool → ℕ → Option ℕ → ℕ × ContFramePool
mark_found p n none = (0, p)
mark_found p n (some frame_no) = (
  frame_no,
  set_all set_state used_state (n - 1) (frame_no + 1) (set_state p frame_no head_state),
)

-- The bound of the outer loop wraps if more frames are asked for than there are.
unfoldable pub get_frames : ContFramePool → ℕ → ℕ × ContFramePool
get_frames p n =
    mark_found p n (find_frames ((word_size + p.n_frames - n) % word_size + 1) p n p.base_frame_no)

unfoldable pub mark_inaccessible : ContFramePool → (frame_no n : ℕ) → ContFramePool
mark_inaccessible p frame_no n =
    set_all set_state used_state (n - 1) (frame_no + 1) (set_state p frame_no head_state)

-- `find_pool_by_frame`, as the test of a pool
unfoldable pub owns_frame : ContFramePool → ℕ → Bool
owns_frame p frame_no = leb p.base_frame_no frame_no && ltb frame_no (p.base_frame_no + p.n_frames)

-- What `release_frames` does in the pool that it found
unfoldable pub release_in : ContFramePool → ℕ → Run ContFramePool
release_in p frame_no =
    if get_state p frame_no == head_state
    then ok (
        release_used get_state set_state (p.base_frame_no + p.n_frames - (frame_no + 1))
          (frame_no + 1) (set_state p frame_no free_state))
    else halted

unfoldable pub release_frames : Pools → ℕ → Run Pools
release_frames [] frame_no = halted
release_frames (p ∷ ps) frame_no =
    let rest = release_frames ps frame_no in
    if owns_frame p frame_no
    then (release_in p frame_no >>= (λ p'. ok (p' ∷ ps)))
    else (rest >>= (λ ps'. ok (p ∷ ps')))

unfoldable pub needed_info_frames : ℕ → ℕ
needed_info_frames n = (n * bits_per_frame + 4096 - 1) % word_size / 4096
