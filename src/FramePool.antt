-- ===== src/FramePool.antt =====
-- MP4_Sources/cont_frame_pool.H and cont_frame_pool.C: class ContFramePool, contiguous physical
-- frames with one byte of state for each. `bitmap` is the memory from the pool's bitmap on: a read
-- past the last frame of the pool reads what stands behind it. Frame numbers are below 2 ^ 20, so
-- the sums of the code do not wrap.
pub mod Cycle
pub mod Get
pub mod Release
pub mod Scan
pub mod Setup
mod Tests
use Prim.Native.Nat.{bit_and, bit_or, bit_xor}
use csce410_611_spring2026_p.Base.{
  ℕ, zero, suc, ◌+◌, ◌-◌, ◌*◌, ◌/◌, ◌%◌, Bool, true, false, ◌&&◌, ◌||◌, not, Option, none, some,
  List, [], ◌∷◌, ◌++◌, ltb, leb, ◌==◌, if◌then◌else◌, put, copy, word_size,
}
use csce410_611_spring2026_p.Base.Run.{Run, ok, halted, out_of_fuel, ◌>>=◌}

-- The states of a frame in the bitmap
abbrev pub free_state : ℕ
free_state = 0xff

abbrev pub head_state : ℕ
head_state = 0x3f

abbrev pub allocated_state : ℕ
allocated_state = 0x7f

-- `class ContFramePool`, without the pointer to the next pool
pub record ContFramePool : Type 0 where
  pub bitmap : ℕ → ℕ
  pub n_free_frames : ℕ
  pub base_frame_no : ℕ
  pub nframes : ℕ
  pub info_frame_no : ℕ

-- The list that starts at the static `head`, in order
abbrev pub Pools : Type 0
Pools = List ContFramePool

-- The number of the frame in which the byte `j` of the bitmap lies, as the constructor places it
abbrev pub bitmap_frame : (base info j : ℕ) → ℕ
bitmap_frame base info j = (if info == 0 then base else info) + j / 4096

-- The pool that the constructor sets up, over what the memory of the bitmap held. The bitmap is kept apart from the
-- frames that the pool hands out; the theorems on the constructor ask that it lies in none of them.
unfoldable pub initial_pool : (base n info : ℕ) (memory : ℕ → ℕ) → ContFramePool
initial_pool base n info memory =
    let cleared = copy n (λ i. free_state) memory in
    record {
      bitmap = if info == 0 then put cleared 0 allocated_state else cleared;
      n_free_frames = if info == 0 then (word_size + n - 1) % word_size else n;
      base_frame_no = base;
      nframes = n;
      info_frame_no = info;
    }

-- The constructor: the pool, and the list with the pool at its end. Its assertion comes before any
-- write to the bitmap.
unfoldable pub new_pool : (base n info : ℕ) (memory : ℕ → ℕ) → Pools → Run (ContFramePool × Pools)
new_pool base n info memory pools =
    if n % 8 == 0
    then ok (initial_pool base n info memory, pools ++ (initial_pool base n info memory ∷ []))
    else halted

-- `bitmap[i] == 0x7F || bitmap[i] == 0x3F`
abbrev pub is_used : ℕ → Bool
is_used state = state == allocated_state || state == head_state

-- `while (bitmap[i] is used) i++`, on fuel
unfoldable pub skip_used : (fuel : ℕ) → (ℕ → ℕ) → ℕ → Option ℕ
skip_used zero bitmap i = none
skip_used (suc fuel) bitmap i = elim (is_used (bitmap i)) [
  | true ↦ skip_used fuel bitmap (i + 1)
  | false ↦ some i
]

-- How the loop over the window of `get_frames` ends
pub data Window : Type 0 where
  clear : Window
  no_room : Window
  used_at : ℕ → Window

-- The loop over the window of `_n_frames` frames from `i`, with `k` rounds left, at index `j`
unfoldable pub scan_window : ContFramePool → (n i k j : ℕ) → Window
scan_window p n i zero j = clear
scan_window p n i (suc k) j =
    let rest = scan_window p n i k (j + 1) in
    if not (leb (p.base_frame_no + i + n) (p.base_frame_no + p.nframes))
    then no_room
    else if is_used (p.bitmap j)
    then (if ltb j (p.base_frame_no + p.nframes) then used_at j else no_room)
    else rest

-- The search of `get_frames` from the label `x` on: the index of the first frame. Each `goto x`
-- takes fuel.
unfoldable pub search_frames : (fuel : ℕ) → ContFramePool → (n i : ℕ) → Run ℕ
unfolding skip_used scan_window
search_frames zero p n i = out_of_fuel
search_frames (suc fuel) p n i = elim (skip_used (suc fuel) p.bitmap i) [
  | none ↦ out_of_fuel
  | some i' ↦ elim (scan_window p n i' n i') [
    | clear ↦ ok i'
    | no_room ↦ halted
    | used_at j ↦ search_frames fuel p n j
  ]
]

-- The loop of `setBitMap`: `first` says that `k == _n_frames`. `get_frames` calls it only with as
-- many free frames as it takes, so the count does not wrap.
unfoldable pub set_bitmap_from : (k i : ℕ) (first : Bool) → ContFramePool → ContFramePool
set_bitmap_from zero i first p = p
set_bitmap_from (suc k) i first p = set_bitmap_from k (i + 1) false (record p {
  bitmap = put p.bitmap i (bit_xor (p.bitmap i) (if first then 0xc0 else 0x80));
  n_free_frames = p.n_free_frames - 1;
})

-- `setBitMap`
unfoldable pub set_bitmap : ContFramePool → (i n : ℕ) → ContFramePool
unfolding set_bitmap_from
set_bitmap p i n = set_bitmap_from n i true p

-- `get_frames`: the number of the first frame, and the pool
unfoldable pub get_frames : (fuel : ℕ) → ContFramePool → ℕ → Run (ℕ × ContFramePool)
unfolding search_frames set_bitmap
get_frames fuel p n =
    if leb n p.nframes && leb n p.n_free_frames
    then search_frames fuel p n 0 >>= (λ i. ok (p.base_frame_no + i, set_bitmap p i n))
    else halted

-- `mark_inaccessible` of one frame
unfoldable pub mark_frame : ContFramePool → ℕ → Run ContFramePool
mark_frame p frame =
    if leb p.base_frame_no frame && ltb frame (p.base_frame_no + p.nframes)
    then (let i = frame - p.base_frame_no in
        if bit_and (p.bitmap i) 0xc0 == 0
        then halted
        else ok (record p { bitmap = put p.bitmap i (bit_xor (p.bitmap i) 0xc0) }))
    else halted

-- The loop of `mark_inaccessible`, with `k` frames left
unfoldable pub mark_frames : (k frame : ℕ) → ContFramePool → Run ContFramePool
unfolding mark_frame
mark_frames zero frame p = ok p
mark_frames (suc k) frame p = mark_frame p frame >>= mark_frames k (frame + 1)

-- `mark_inaccessible`
unfoldable pub mark_inaccessible : ContFramePool → (base n : ℕ) → Run ContFramePool
unfolding mark_frames
mark_inaccessible p base n =
    mark_frames n base p
    >>= (λ p'. ok (record p' { n_free_frames = (word_size + p'.n_free_frames - n) % word_size }))

-- The loop of `release_frame`, with `k` frames of the pool left, at index `i`
unfoldable pub release_from : (k i : ℕ) → ContFramePool → ContFramePool
release_from zero i p = p
release_from (suc k) i p =
    let p' : ContFramePool = record p {
      bitmap = put p.bitmap i (bit_or (p.bitmap i) 0xc0);
      n_free_frames = p.n_free_frames + 1;
    } in
    let rest = release_from k (i + 1) p' in
    if bit_xor (p'.bitmap (i + 1)) 0xff == 0x80 then rest else p'

-- `release_frame`
unfoldable pub release_frame : ContFramePool → ℕ → Run ContFramePool
unfolding release_from
release_frame p first =
    let i = first - p.base_frame_no in
    if p.bitmap i == head_state then ok (release_from (p.nframes - i) i p) else halted

-- The range test of `release_frames`
abbrev pub owns_frame : ContFramePool → ℕ → Bool
owns_frame p first = leb p.base_frame_no first && leb first (p.base_frame_no + p.nframes - 1)

-- `release_frames`, a static function over all pools
unfoldable pub release_frames : Pools → ℕ → Run Pools
unfolding release_frame
release_frames [] first = ok []
release_frames (p ∷ ps) first =
    let rest = release_frames ps first in
    if owns_frame p first
    then release_frame p first >>= (λ p'. ok (p' ∷ ps))
    else rest >>= (λ ps'. ok (p ∷ ps'))

-- `needed_info_frames`; the product wraps.
unfoldable pub needed_info_frames : ℕ → ℕ
needed_info_frames n =
    let bits = n * 8 % word_size in bits / 32768 + (if ltb 0 (bits % 32768) then 1 else 0)
