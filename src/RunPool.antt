-- ===== src/RunPool.antt =====
-- MP3_Sources/cont_frame_pool.{H,C}: class ContFramePool with two bits of state for each frame, in frames of memory.
-- The bitmap is the array at the address that the constructor takes. The list of pools is a list of at most eight.
pub mod States
pub mod Get
pub mod Same
mod Tests
use csce410_611_spring2026_p.Base.Run.{Run, ok, halted, out_of_fuel, ◌>>=◌}
use csce410_611_spring2026_p.FrameStates.{free_state, used_state, head_state}
use csce410_611_spring2026_p.FrameStates.Loops.{set_all, release_used}
use csce410_611_spring2026_p.Base.{
  ℕ, zero, suc, ◌+◌, ◌-◌, ◌*◌, ◌%◌, ◌<◌, ◌≤◌, ◌≡◌, ◌≢◌, refl, sym, ap, ◌∙◌, inl, inr, ◌⊎◌, Bool,
  true, false, ◌&&◌, ◌||◌, ◌/◌, ◌^◌, Option, some, none, List, [], ◌∷◌, ◌++◌, arith, ltb, ◌==◌,
  if◌then◌else◌, put, put_ne, put_self, ℕ_discrete, dec_lt, copy, field_of, with_field,
  with_field-lt, field_of-with_field, field_of-put, length, Bool-cases, word_size, leb,
}

abbrev pub max_pools : ℕ
max_pools = 8

-- `n_info_frames` is set by the constructor and read by it only.
pub record ContFramePool : Type 0 where
  pub bitmap : ℕ → ℕ
  pub base_frame_no : ℕ
  pub n_frames : ℕ
  pub n_info_frames : ℕ

abbrev pub Pools : Type 0
Pools = List ContFramePool

abbrev pub index : ContFramePool → ℕ → ℕ
index p frame_no = (word_size + frame_no - p.base_frame_no) % word_size

abbrev pub shift : ContFramePool → ℕ → ℕ
shift p frame_no = (3 - index p frame_no % 4) * 2

abbrev pub bits_at : ContFramePool → ℕ → ℕ
bits_at p frame_no = field_of (p.bitmap (index p frame_no / 4)) (shift p frame_no)

-- Both values that are neither free nor used are the head's.
abbrev pub state_of : ℕ → ℕ
state_of bits = if bits == 0 then free_state else if bits == 1 then used_state else head_state

abbrev pub value_of : ℕ → ℕ
value_of state = if state == free_state then 0 else if state == used_state then 1 else 2

unfoldable pub get_state : ContFramePool → ℕ → ℕ
get_state p frame_no = state_of (bits_at p frame_no)

unfoldable pub set_state : ContFramePool → (frame_no state : ℕ) → ContFramePool
set_state p frame_no state = record p {
  bitmap =
      put p.bitmap (index p frame_no / 4)
        (with_field (p.bitmap (index p frame_no / 4)) (shift p frame_no) (value_of state));
}

unfoldable pub needed_info_frames : ℕ → ℕ
needed_info_frames n = n / (4096 * 4) + (if ltb 0 (n % (4096 * 4)) then 1 else 0)

-- The states after the constructor; `memory` is what stood where the bitmap is.
unfoldable pub initial_pool : (base n info : ℕ) → (ℕ → ℕ) → ContFramePool
initial_pool base n info memory =
    let empty : ContFramePool = record {
      bitmap = memory;
      base_frame_no = base;
      n_frames = n;
      n_info_frames = needed_info_frames n;
    } in
    let free = set_all set_state free_state n base empty in
    if info == 0
    then set_all set_state used_state (needed_info_frames n - 1) (base + 1)
        (set_state free base head_state)
    else free

unfoldable pub new_pool : (base n info : ℕ) → (ℕ → ℕ) → Pools → Run (ContFramePool × Pools)
new_pool base n info memory pools =
    if ltb (length pools) max_pools
    then ok (initial_pool base n info memory, pools ++ (initial_pool base n info memory ∷ []))
    else halted

-- The loop of `get_frames`, with the rounds that are left; the run of free frames before `frame_no` has `run_len`.
unfoldable pub find_run :
    (rounds : ℕ) → ContFramePool → (n frame_no run_start run_len : ℕ) → Option ℕ
find_run zero p n frame_no run_start run_len = none
find_run (suc k) p n frame_no run_start run_len =
    let start = if run_len == 0 then frame_no else run_start in
    let longer = find_run k p n (frame_no + 1) start (run_len + 1) in
    let anew = find_run k p n (frame_no + 1) run_start 0 in
    if get_state p frame_no == free_state
    then (if run_len + 1 == n then some start else longer)
    else anew

unfoldable pub mark_found : ContFramePool → ℕ → Option ℕ → ℕ × ContFramePool
mark_found p n none = (0, p)
mark_found p n (some run_start) = (
  run_start,
  set_all set_state used_state (n - 1) (run_start + 1) (set_state p run_start head_state),
)

unfoldable pub get_frames : ContFramePool → ℕ → ℕ × ContFramePool
get_frames p n = mark_found p n (find_run p.n_frames p n p.base_frame_no 0 0)

unfoldable pub mark_inaccessible : ContFramePool → (frame_no n : ℕ) → ContFramePool
mark_inaccessible p frame_no n =
    set_all set_state used_state (n - 1) (frame_no + 1) (set_state p frame_no head_state)

abbrev pub owns_frame : ContFramePool → ℕ → Bool
owns_frame p frame_no = leb p.base_frame_no frame_no && ltb frame_no (p.base_frame_no + p.n_frames)

unfoldable pub release_in : ContFramePool → ℕ → Run ContFramePool
release_in p frame_no =
    if get_state p frame_no == head_state
    then ok (
        release_used get_state set_state (p.base_frame_no + p.n_frames - (frame_no + 1))
          (frame_no + 1) (set_state p frame_no free_state))
    else halted

unfoldable pub release_frames : Pools → ℕ → Run Pools
release_frames [] frame_no = halted
release_frames (p ∷ ps) frame_no =
    let rest = release_frames ps frame_no in
    if owns_frame p frame_no
    then (release_in p frame_no >>= (λ p'. ok (p' ∷ ps)))
    else (rest >>= (λ ps'. ok (p ∷ ps')))
