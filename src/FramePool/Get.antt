-- ===== src/FramePool/Get.antt =====
-- MP4_Sources/cont_frame_pool.C: `get_frames` as a whole.
use Prim.Native.Nat.{bit_xor}
use csce410_611_spring2026_p.Base.{
  ℕ, zero, suc, ◌+◌, ◌-◌, ◌<◌, ◌≤◌, ◌≡◌, ◌≢◌, refl, inl, inr, ◌⊎◌, Bool, true, false, ◌&&◌, arith,
  min, leb, ltb, ◌==◌, if◌then◌else◌, put, Bool-cases,
}
use csce410_611_spring2026_p.Base.Run.{Run, ok, halted, ◌>>=◌}
use csce410_611_spring2026_p.FramePool.{
  ContFramePool, free_state, head_state, allocated_state, is_used, set_bitmap_from, set_bitmap,
  get_frames,
}
use csce410_611_spring2026_p.FramePool.Scan.{
  AllUnused, Found, found, none_found, search_frames-Found,
}

-- The number of free frames below `n`
abbrev pub count_free : (ℕ → ℕ) → ℕ → ℕ
count_free bitmap zero = 0
count_free bitmap (suc n) = count_free bitmap n + (if bitmap n == free_state then 1 else 0)

-- A pool: each frame is free, a head, or allocated; no allocated frame follows a free one; and the
-- number of free frames is that of the bitmap.
pub record IsValid (p : ContFramePool) : Type 0 where
  pub states : (i : ℕ) → i < p.nframes → (p.bitmap i ≡ free_state) ⊎ (is_used (p.bitmap i) ≡ true)
  pub chained :
      (i : ℕ) → suc i < p.nframes → p.bitmap (suc i) ≡ allocated_state → p.bitmap i ≢ free_state
  pub counted : p.n_free_frames ≡ count_free p.bitmap p.nframes

-- The bitmap with a sequence of `n` frames at `i`: its head, and the others allocated
abbrev pub with_sequence : (ℕ → ℕ) → (i n : ℕ) → ℕ → ℕ
with_sequence bitmap i n j =
    if leb i j && ltb j (i + n) then (if i == j then head_state else allocated_state) else bitmap j

-- The bitmap with frames of one state from `i` up to `e`
abbrev pub with_state : (ℕ → ℕ) → (state i e : ℕ) → ℕ → ℕ
with_state bitmap state i e j = if leb i j && ltb j e then state else bitmap j

-- All frames from `i` up to `e` are free.
abbrev pub AllFree : (ℕ → ℕ) → ℕ → ℕ → Type 0
AllFree bitmap i e = (k : ℕ) → i ≤ k → k < e → bitmap k ≡ free_state

set_rest :
    (k i : ℕ) (p : ContFramePool)
    → AllFree p.bitmap i (i + k)
    → (j : ℕ)
    → (set_bitmap_from k i false p).bitmap j ≡ with_state p.bitmap allocated_state i (i + k) j
unfolding set_bitmap_from
set_rest zero i p free j = ground arith
set_rest (suc k) i p free j =
    let now : bit_xor (p.bitmap i) 0x80 ≡ allocated_state =
      rw (free i (omega arith) (omega arith)) in
    let marked : ContFramePool = record p {
      bitmap = put p.bitmap i (bit_xor (p.bitmap i) 0x80);
      n_free_frames = p.n_free_frames - 1;
    } in
    let rest = set_rest k (i + 1) marked (λ m a b. ground (arith, free m)) j in ground (arith, rest)

-- What `setBitMap` leaves alone, and the count
set_bitmap_from-fields :
    (k i : ℕ) (first : Bool) (p : ContFramePool)
    → let p' = set_bitmap_from k i first p in
      (p'.n_free_frames ≡ p.n_free_frames - k)
      × (p'.base_frame_no ≡ p.base_frame_no)
      × (p'.nframes ≡ p.nframes)
      × (p'.info_frame_no ≡ p.info_frame_no)
unfolding set_bitmap_from
set_bitmap_from-fields zero i first p = (omega arith, refl, refl, refl)
set_bitmap_from-fields (suc k) i first p =
    let (count, base, frames, info) = set_bitmap_from-fields k (i + 1) false (record p {
      bitmap = put p.bitmap i (bit_xor (p.bitmap i) (if first then 0xc0 else 0x80));
      n_free_frames = p.n_free_frames - 1;
    }) in
    (omega arith, base, frames, info)

set_bitmap-with_sequence :
    (p : ContFramePool) (i n : ℕ)
    → 0 < n
    → AllFree p.bitmap i (i + n)
    → (j : ℕ) → (set_bitmap p i n).bitmap j ≡ with_sequence p.bitmap i n j
unfolding set_bitmap set_bitmap_from
set_bitmap-with_sequence p i zero pos free j = absurd (omega arith)
set_bitmap-with_sequence p i (suc k) pos free j =
    let now : bit_xor (p.bitmap i) 0xc0 ≡ head_state = rw (free i (omega arith) (omega arith)) in
    let marked : ContFramePool = record p {
      bitmap = put p.bitmap i (bit_xor (p.bitmap i) 0xc0);
      n_free_frames = p.n_free_frames - 1;
    } in
    let rest = set_rest k (i + 1) marked (λ m a b. ground (arith, free m)) j in ground (arith, rest)

-- Two bitmaps that differ in a range, free in the one and used in the other
module _ (full empty : ℕ → ℕ) (i n : ℕ) (free : AllFree empty i (i + n))
    (used : (k : ℕ) → i ≤ k → k < i + n → full k ≢ free_state)
    (same : (k : ℕ) → (k < i) ⊎ (i + n ≤ k) → full k ≡ empty k) where
  count_free-below : (m : ℕ) → count_free empty m ≡ count_free full m + (min m (i + n) - i)
  count_free-below zero = omega arith
  count_free-below (suc m) = ground (arith, count_free-below m, free m, used m, same m)

  pub count_free-range : (m : ℕ) → i + n ≤ m → count_free empty m ≡ count_free full m + n
  count_free-range m h = omega (arith, count_free-below m)

-- A run of free frames is counted.
run-counted :
    (bitmap : ℕ → ℕ) (s n m : ℕ) → AllFree bitmap s (s + n) → s + n ≤ m → n ≤ count_free bitmap m
run-counted bitmap s n m free h = omega (arith, below m)
  where
    below : (k : ℕ) → min k (s + n) - s ≤ count_free bitmap k
    below zero = omega arith
    below (suc k) = ground (arith, below k, free k)

module _ (p : ContFramePool) (v : IsValid p) where
  -- In a valid pool a frame is free exactly if it is not in use.
  AllFree-AllUnused : (i e : ℕ) → e ≤ p.nframes → AllUnused p.bitmap i e → AllFree p.bitmap i e
  AllFree-AllUnused i e h unused k a b = ground (arith, v.states k, unused k a b)

  AllUnused-AllFree : (i e : ℕ) → AllFree p.bitmap i e → AllUnused p.bitmap i e
  AllUnused-AllFree i e free k a b = rw (free k a b)

-- The frames from `i` on were taken as one sequence.
pub record Taken (p : ContFramePool) (i n : ℕ) (p' : ContFramePool) : Type 0 where
  pub sequence : (j : ℕ) → p'.bitmap j ≡ with_sequence p.bitmap i n j
  pub count : p'.n_free_frames + n ≡ p.n_free_frames
  pub same_base : p'.base_frame_no ≡ p.base_frame_no
  pub same_size : p'.nframes ≡ p.nframes
  pub valid : IsValid p'

-- The two outcomes of `get_frames`
pub data GetOutcome (p : ContFramePool) (n : ℕ) : Run (ℕ × ContFramePool) → Type 0 where
  got :
      (i : ℕ) (p' : ContFramePool)
      → i + n ≤ p.nframes
      → AllFree p.bitmap i (i + n)
      → ((s : ℕ) → s < i → ¬ AllFree p.bitmap s (s + n))
      → Taken p i n p'
      → GetOutcome p n (ok (p.base_frame_no + i, p'))
  refused : ((s : ℕ) → s + n ≤ p.nframes → ¬ AllFree p.bitmap s (s + n)) → GetOutcome p n halted

module _ (p : ContFramePool) (n : ℕ) (v : IsValid p) (pos : 0 < n) where
  module _ (i : ℕ) (h : i + n ≤ p.nframes) (free : AllFree p.bitmap i (i + n)) where
    set_bitmap-IsValid : IsValid (set_bitmap p i n)
    unfolding set_bitmap
    set_bitmap-IsValid =
        let (count, base, frames, info) = set_bitmap_from-fields n i true p in
        let at = set_bitmap-with_sequence p i n pos free in
        let taken_count =
          count_free-range (set_bitmap p i n).bitmap p.bitmap i n free
            (λ k a b. ground (arith, at k)) (λ k o. ground (arith, at k)) p.nframes h in
        record {
          states = λ j hj. ground (arith, at j, v.states j);
          chained = λ j hj. ground (arith, at j, at (suc j), v.chained j, free j, free (suc j));
          counted = rw frames (omega (arith, count, v.counted, taken_count));
        }

    set_bitmap-Taken : Taken p i n (set_bitmap p i n)
    unfolding set_bitmap
    set_bitmap-Taken =
        let (count, base, frames, info) = set_bitmap_from-fields n i true p in
        record {
          sequence = set_bitmap-with_sequence p i n pos free;
          count = omega (arith, count, v.counted, run-counted p.bitmap i n p.nframes free h);
          same_base = base;
          same_size = frames;
          valid = set_bitmap-IsValid;
        }

  after_search :
      {r : Run ℕ}
      → Found p n r
      → GetOutcome p n (r >>= (λ i. ok (p.base_frame_no + i, set_bitmap p i n)))
  after_search (found i h unused before) =
      let free = AllFree-AllUnused p v i (i + n) h unused in
      got i (set_bitmap p i n) h free
        (λ s less run. before s less (AllUnused-AllFree p v s (s + n) run))
        (set_bitmap-Taken i h free)
  after_search (none_found missing) =
      refused (λ s h run. missing s h (AllUnused-AllFree p v s (s + n) run))

  -- `get_frames` of `n > 0` frames from a valid pool, behind which a byte of memory at `z` is not one
  -- of the two states in use, and with fuel above `z`, ends. It takes the first run of `n` free
  -- frames, marks it as one sequence, lowers the count by `n` and leaves the pool valid; it fails
  -- its assertion exactly if the pool has no run of `n` free frames.
  pub get_frames_outcome :
      (fuel z : ℕ)
      → p.nframes ≤ z
      → is_used (p.bitmap z) ≡ false
      → z < fuel
      → GetOutcome p n (get_frames fuel p n)
  unfolding get_frames
  get_frames_outcome fuel z behind stop enough =
      elim (Bool-cases (leb n p.nframes && leb n p.n_free_frames)) [
        | inr many ↦
            rw (many, get_frames)
              (refused
                λ s h run. ground (arith, run-counted p.bitmap s n p.nframes run h, v.counted))
        | inl few ↦
            rw (few, get_frames)
              (after_search (
                search_frames-Found p n z pos stop behind fuel 0 (omega arith) (omega arith)
                  (λ s less. absurd (omega arith))))
      ]
