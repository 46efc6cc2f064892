-- ===== src/FramePool/Setup.antt =====
-- MP4_Sources/cont_frame_pool.C: the constructor, `mark_inaccessible` and `needed_info_frames`.
use Prim.Native.Nat.{bit_and, bit_xor}
use native.Mathlib.Nat.{add_assoc}
use csce410_611_spring2026_p.Base.{
  sym, ℕ, zero, suc, ◌+◌, ◌-◌, ◌*◌, ◌/◌, ◌%◌, inl, inr, ◌<◌, ◌≤◌, ◌≡◌, ◌≢◌, refl, ◌⊎◌, true, false,
  ◌&&◌, [], ◌∷◌, ◌++◌, arith, leb, ltb, ◌==◌, put, copy, ℕ_discrete, word_size,
}
use csce410_611_spring2026_p.Base.Run.{ok}
use csce410_611_spring2026_p.FramePool.{
  bitmap_frame, initial_pool, ContFramePool, Pools, free_state, head_state, allocated_state,
  is_used, new_pool, mark_frame, mark_frames, mark_inaccessible, needed_info_frames,
}
use csce410_611_spring2026_p.FramePool.Get.{
  count_free-range, IsValid, AllFree, with_state, count_free,
}

-- For fewer than 2 ^ 29 frames, `needed_info_frames` is the least number of frames of 4096 bytes
-- that hold a byte for each frame: they hold as many bytes, and any `m` frames that do are as many.
pub needed_info_frames_least :
    (n m : ℕ)
    → n < 0x2000_0000
    → n ≤ m * 4096
    → (n ≤ needed_info_frames n * 4096) × (needed_info_frames n ≤ m)
unfolding needed_info_frames
needed_info_frames_least n m h enough = (ground arith, ground arith)

count_free-all : (bitmap : ℕ → ℕ) (n : ℕ) → AllFree bitmap 0 n → count_free bitmap n ≡ n
count_free-all bitmap zero free = refl
count_free-all bitmap (suc n) free =
    ground (arith, count_free-all bitmap n (λ k a b. free k a (omega arith)), free n)

count_free-one :
    (bitmap : ℕ → ℕ) (n : ℕ)
    → bitmap 0 ≡ allocated_state
    → AllFree bitmap 1 (suc n)
    → count_free bitmap (suc n) ≡ n
count_free-one bitmap zero used free = ground arith
count_free-one bitmap (suc n) used free =
    ground (arith, count_free-one bitmap n used (λ k a b. free k a (omega arith)), free (suc n))

-- A new pool of at least one frame: it is valid, and all its frames are free, but for the first one if the pool keeps
-- its own bitmap there; it stands at the end of the list, and no frame of it in which its bitmap lies is free.
pub record New (base n info : ℕ) (pools : Pools) (p : ContFramePool) (pools' : Pools) : Type 0 where
  pub valid : IsValid p
  pub own_frame : info ≡ 0 → p.bitmap 0 ≡ allocated_state
  pub others : (i : ℕ) → i < n → (info ≢ 0) ⊎ (0 < i) → p.bitmap i ≡ free_state
  pub placed : (p.base_frame_no ≡ base) × (p.nframes ≡ n)
  pub listed : pools' ≡ pools ++ (p ∷ [])
  pub managed :
      (j : ℕ)
      → j < n
      → base ≤ bitmap_frame base info j
      → bitmap_frame base info j < base + n
      → p.bitmap (bitmap_frame base info j - base) ≢ free_state

own_info-IsValid :
    (base n : ℕ) (memory : ℕ → ℕ) → 0 < n → n < word_size → IsValid (initial_pool base n 0 memory)
unfolding initial_pool
own_info-IsValid base zero memory pos small = absurd (omega arith)
own_info-IsValid base (suc n) memory pos small = record {
  states = λ i h. ground arith;
  chained = λ i h. ground arith;
  counted = ground (
    arith,
    count_free-one (initial_pool base (suc n) 0 memory).bitmap n refl (λ k a b. ground arith),
  );
}

other_info-IsValid :
    (base n info : ℕ) (memory : ℕ → ℕ) → info ≢ 0 → IsValid (initial_pool base n info memory)
unfolding initial_pool
other_info-IsValid base n info memory other =
    let test : (info == 0) ≡ false = ground arith in
    rw test (record {
      states = λ i h. ground arith;
      chained = λ i h. ground arith;
      counted = sym (count_free-all (copy n (λ i. free_state) memory) n (λ k a b. ground arith));
    })

initial_pool-IsValid :
    (base n info : ℕ) (memory : ℕ → ℕ)
    → 0 < n
    → n < word_size
    → IsValid (initial_pool base n info memory)
initial_pool-IsValid base n info memory pos small = elim (ℕ_discrete info 0) [
  | yes e ↦ rw e (own_info-IsValid base n memory pos small)
  | no ne ↦ other_info-IsValid base n info memory ne
]

own_frame-used :
    (base n : ℕ) (memory : ℕ → ℕ) (j : ℕ)
    → n ≤ 4096
    → 0 < n
    → j < n
    → (initial_pool base n 0 memory).bitmap (bitmap_frame base 0 j - base) ≢ free_state
unfolding initial_pool
own_frame-used base n memory j one pos h =
    let at : base + j / 4096 - base ≡ 0 = omega arith in rw at (ground arith)

initial_pool-managed :
    (base n info : ℕ) (memory : ℕ → ℕ) (j : ℕ)
    → 0 < n
    → (info ≡ 0 → n ≤ 4096)
    → (info ≢ 0 → (info + (n - 1) / 4096 < base) ⊎ (base + n ≤ info))
    → j < n
    → base ≤ bitmap_frame base info j
    → bitmap_frame base info j < base + n
    → (initial_pool base n info memory).bitmap (bitmap_frame base info j - base) ≢ free_state
initial_pool-managed base n info memory j pos own apart h lo hi = elim (ℕ_discrete info 0) [
  | yes e ↦ rw e (own_frame-used base n memory j (own e) pos h)
  | no ne ↦
      let test : (info == 0) ≡ false = ground arith in
      let lo' : base ≤ info + j / 4096 = rw test at lo in
      let hi' : info + j / 4096 < base + n = rw test at hi in
      elim (apart ne) [ inl before ↦ absurd (omega arith) | inr behind ↦ absurd (omega arith) ]
]

-- The constructor with a positive number of frames below 2 ^ 32, a multiple of 8, makes a new pool, if its bitmap fits
-- into the first frame when the pool keeps it itself (at most 4096 frames), and else lies outside the pool. The code
-- checks neither: with more frames it leaves those that hold the rest of the bitmap free.
pub new_pool-New :
    (base n info : ℕ) (memory : ℕ → ℕ) (pools : Pools)
    → n % 8 ≡ 0
    → 0 < n
    → n < word_size
    → (info ≡ 0 → n ≤ 4096)
    → (info ≢ 0 → (info + (n - 1) / 4096 < base) ⊎ (base + n ≤ info))
    → (p : ContFramePool) × (pools' : Pools) × (new_pool base n info memory pools ≡ ok (p, pools'))
      × New base n info pools p pools'
unfolding new_pool initial_pool
new_pool-New base n info memory pools full pos small own apart = (
  initial_pool base n info memory,
  pools ++ (initial_pool base n info memory ∷ []),
  rw full,
  record {
    valid = initial_pool-IsValid base n info memory pos small;
    own_frame = λ e. ground arith;
    others = λ i h which. ground arith;
    placed = (refl, refl);
    listed = refl;
    managed = λ j h lo hi. initial_pool-managed base n info memory j pos own apart h lo hi;
  },
)

-- `mark_inaccessible` of a free frame of the pool makes it the head of a sequence of its own.
mark_frame-free :
    (p : ContFramePool) (i : ℕ)
    → i < p.nframes
    → p.bitmap i ≡ free_state
    → mark_frame p (p.base_frame_no + i)
      ≡ ok (record p { bitmap = put p.bitmap i (bit_xor (p.bitmap i) 0xc0) })
unfolding mark_frame
mark_frame-free p i h free =
    let at : p.base_frame_no + i - p.base_frame_no ≡ i = omega arith in
    let open_frame : (bit_and (p.bitmap i) 0xc0 == 0) ≡ false = rw free in
    let inside : (leb p.base_frame_no (p.base_frame_no + i)
          && ltb (p.base_frame_no + i) (p.base_frame_no + p.nframes))
        ≡ true =
      ground arith in
    rw (inside, at, open_frame)

-- `mark_inaccessible` of a frame that is allocated, not as a head, passes the check "already in use":
-- the frame gets the state 0xbf, which `get_frames` takes for a frame that is not in use.
pub mark_frame-allocated :
    (p : ContFramePool) (i : ℕ)
    → i < p.nframes
    → p.bitmap i ≡ allocated_state
    → (p' : ContFramePool) × (mark_frame p (p.base_frame_no + i) ≡ ok p')
      × (p'.bitmap i ≡ 0xbf)
      × (is_used (p'.bitmap i) ≡ false)
unfolding mark_frame
mark_frame-allocated p i h allocated =
    let at : p.base_frame_no + i - p.base_frame_no ≡ i = omega arith in
    let inside : (leb p.base_frame_no (p.base_frame_no + i)
          && ltb (p.base_frame_no + i) (p.base_frame_no + p.nframes))
        ≡ true =
      ground arith in
    let passes : (bit_and (p.bitmap i) 0xc0 == 0) ≡ false = rw allocated in
    let state : bit_xor (p.bitmap i) 0xc0 ≡ 0xbf = rw allocated in
    (
      record p { bitmap = put p.bitmap i (bit_xor (p.bitmap i) 0xc0) },
      rw (inside, at, passes),
      ground arith,
      ground arith,
    )

-- The loop of `mark_inaccessible` over free frames
mark_frames-free :
    (k i : ℕ) (p : ContFramePool)
    → i + k ≤ p.nframes
    → AllFree p.bitmap i (i + k)
    → (p' : ContFramePool) × (mark_frames k (p.base_frame_no + i) p ≡ ok p')
      × ((j : ℕ) → p'.bitmap j ≡ with_state p.bitmap head_state i (i + k) j)
      × (p'.n_free_frames ≡ p.n_free_frames)
      × (p'.nframes ≡ p.nframes)
unfolding mark_frames
mark_frames-free zero i p h free = (p, refl, λ j. ground arith, refl, refl)
mark_frames-free (suc k) i p h free =
    let now : bit_xor (p.bitmap i) 0xc0 ≡ head_state = rw (free i (omega arith) (omega arith)) in
    let marked : ContFramePool = record p { bitmap = put p.bitmap i (bit_xor (p.bitmap i) 0xc0) } in
    let (p', e, frames, count, size) =
      mark_frames-free k (i + 1) marked (omega arith) (λ m a b. ground (arith, free m)) in
    let first = mark_frame-free p i (omega arith) (free i (omega arith) (omega arith)) in
    (p', rw (first, add_assoc p.base_frame_no i 1) e, λ j. ground (arith, frames j), count, size)

-- `mark_inaccessible` of `n` free frames of a valid pool with fewer than 2 ^ 32 free frames makes each of them the head
-- of a sequence of one frame (against the comment on it, which makes the first one the head and the others allocated),
-- changes no other frame, lowers the count by `n`, and leaves the pool valid.
pub mark_inaccessible-free :
    (p : ContFramePool) (i n : ℕ)
    → IsValid p
    → p.n_free_frames < word_size
    → i + n ≤ p.nframes
    → AllFree p.bitmap i (i + n)
    → (p' : ContFramePool) × (mark_inaccessible p (p.base_frame_no + i) n ≡ ok p')
      × ((j : ℕ) → p'.bitmap j ≡ with_state p.bitmap head_state i (i + n) j)
      × (p'.n_free_frames + n ≡ p.n_free_frames)
      × IsValid p'
unfolding mark_inaccessible
mark_inaccessible-free p i n v small h free =
    let (q, e, frames, count, size) = mark_frames-free n i p h free in
    let fewer =
      count_free-range q.bitmap p.bitmap i n free (λ k a b. ground (arith, frames k))
        (λ k o. ground (arith, frames k)) p.nframes h in
    let left : (word_size + q.n_free_frames - n) % word_size + n ≡ p.n_free_frames =
      omega (arith, count, fewer, v.counted) in
    (
      record q { n_free_frames = (word_size + q.n_free_frames - n) % word_size },
      rw e,
      frames,
      left,
      record {
        states = λ j hj. ground (arith, frames j, v.states j);
        chained = λ j hj. ground (arith, frames j, frames (suc j), v.chained j);
        counted = rw size (omega (arith, left, fewer, v.counted));
      },
    )
