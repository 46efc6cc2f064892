-- ===== src/FramePool/Release.antt =====
-- MP4_Sources/cont_frame_pool.C: `release_frame` and `release_frames`.
use Prim.Native.Nat.{bit_or, bit_xor}
use csce410_611_spring2026_p.Base.{
  put_ne, ℕ, zero, suc, ◌+◌, ◌-◌, ◌<◌, ◌≤◌, ◌≡◌, ◌≢◌, refl, inl, inr, ◌⊎◌, true, false, arith, ◌==◌,
  put, ℕ_discrete,
}
use csce410_611_spring2026_p.Base.Run.{Run, ok, halted}
use csce410_611_spring2026_p.FramePool.{
  ContFramePool, free_state, head_state, allocated_state, is_used, release_from, release_frame,
}
use csce410_611_spring2026_p.FramePool.Get.{IsValid, with_state, count_free-range}

-- What the loop of `release_frame` has freed, started at `i`: the frames up to `e`
record Freed (p : ContFramePool) (i e : ℕ) (p' : ContFramePool) : Type 0 where
  bitmap : (j : ℕ) → p'.bitmap j ≡ with_state p.bitmap free_state i e j
  count : p'.n_free_frames ≡ p.n_free_frames + (e - i)
  same_base : p'.base_frame_no ≡ p.base_frame_no
  same_size : p'.nframes ≡ p.nframes

-- Setting the two high bits of a state in use frees the frame.
freed_state : (b : ℕ) → is_used b ≡ true → bit_or b 0xc0 ≡ free_state
freed_state b used = elim (ℕ_discrete b allocated_state) [
  | yes e ↦ rw e
  | no ne ↦ let e : b ≡ head_state = ground arith in rw e
]

-- The test of the loop, at a state
continues : (b : ℕ) → b ≡ allocated_state → (bit_xor b 0xff == 0x80) ≡ true
continues b e = rw e

stops :
    (b : ℕ)
    → (b ≡ free_state) ⊎ (is_used b ≡ true)
    → b ≢ allocated_state
    → (bit_xor b 0xff == 0x80) ≡ false
stops b (inl e) ne = rw e
stops b (inr used) ne = let e : b ≡ head_state = ground arith in rw e

-- The pool after the frame `i` was freed
abbrev step_freed : ContFramePool → ℕ → ContFramePool
step_freed p i = record p {
  bitmap = put p.bitmap i (bit_or (p.bitmap i) 0xc0);
  n_free_frames = p.n_free_frames + 1;
}

step-Freed :
    (p : ContFramePool) (i : ℕ) → is_used (p.bitmap i) ≡ true → Freed p i (i + 1) (step_freed p i)
step-Freed p i used = record {
  bitmap = λ j. ground (arith, freed_state (p.bitmap i) used);
  count = omega arith;
  same_base = refl;
  same_size = refl;
}

Freed-extend :
    (p : ContFramePool) (i e : ℕ) (p' : ContFramePool)
    → is_used (p.bitmap i) ≡ true
    → i < e
    → Freed (step_freed p i) (i + 1) e p'
    → Freed p i e p'
Freed-extend p i e p' used h f = record {
  bitmap = λ j. ground (arith, f.bitmap j, freed_state (p.bitmap i) used);
  count = omega (arith, f.count);
  same_base = f.same_base;
  same_size = f.same_size;
}

-- The frames that belong to the sequence at `i`, in a pool that ends at `last`
pub record IsSequence (bitmap : ℕ → ℕ) (last i e : ℕ) : Type 0 where
  pub some_frame : i < e
  pub in_pool : e ≤ last
  pub inner : (j : ℕ) → i < j → j < e → bitmap j ≡ allocated_state
  pub ends : e < last → bitmap e ≢ allocated_state

-- The loop frees a sequence: the frame `i`, in use, and the allocated ones behind it, up to a frame
-- that is not allocated, or the end of the pool.
release_from-Freed :
    (k i last : ℕ) (p : ContFramePool)
    → i + suc k ≡ last
    → is_used (p.bitmap i) ≡ true
    → ((j : ℕ) → j < last → (p.bitmap j ≡ free_state) ⊎ (is_used (p.bitmap j) ≡ true))
    → (e : ℕ) × IsSequence p.bitmap last i e × Freed p i e (release_from (suc k) i p)
unfolding release_from
release_from-Freed zero i last p end used states = (
  i + 1,
  record {
    some_frame = omega arith;
    in_pool = omega arith;
    inner = λ j a b. absurd (omega arith);
    ends = λ less. absurd (omega arith);
  },
  ground (arith, step-Freed p i used),
)
release_from-Freed (suc k) i last p end used states =
    elim (ℕ_discrete (p.bitmap (i + 1)) allocated_state) [
      | no ne ↦
          let stop : (bit_xor (put p.bitmap i (bit_or (p.bitmap i) 0xc0) (i + 1)) 0xff == 0x80)
              ≡ false =
            rw (put_ne p.bitmap i (i + 1) (bit_or (p.bitmap i) 0xc0) (omega arith))
              (stops (p.bitmap (i + 1)) (states (i + 1) (omega arith)) ne) in
          (
            i + 1,
            record {
              some_frame = omega arith;
              in_pool = omega arith;
              inner = λ j a b. absurd (omega arith);
              ends = λ less. ne;
            },
            rw stop (step-Freed p i used),
          )
      | yes same ↦
          let go : (bit_xor (put p.bitmap i (bit_or (p.bitmap i) 0xc0) (i + 1)) 0xff == 0x80)
              ≡ true =
            rw (put_ne p.bitmap i (i + 1) (bit_or (p.bitmap i) 0xc0) (omega arith))
              (continues (p.bitmap (i + 1)) same) in
          let (e, sequence, freed) =
            release_from-Freed k (i + 1) last (step_freed p i) (omega arith) (ground arith)
              (λ j h. ground (arith, states j h, freed_state (p.bitmap i) used)) in
          let some_frame = sequence.some_frame in
          (
            e,
            record {
              some_frame = omega arith;
              in_pool = sequence.in_pool;
              inner = λ j a b. elim (ℕ_discrete (i + 1) j) [
                | yes at ↦ ground arith
                | no ne ↦ ground (arith, sequence.inner j (omega arith) b)
              ];
              ends = λ less. ground (arith, sequence.ends less);
            },
            rw go (Freed-extend p i e _ used (omega arith) freed),
          )
    ]

-- A sequence was given back: the frames from `i` up to `e` are free, the others as they were.
pub record Released (p : ContFramePool) (i e : ℕ) (p' : ContFramePool) : Type 0 where
  pub frames : (j : ℕ) → p'.bitmap j ≡ with_state p.bitmap free_state i e j
  pub count : p'.n_free_frames ≡ p.n_free_frames + (e - i)
  pub same_base : p'.base_frame_no ≡ p.base_frame_no
  pub same_size : p'.nframes ≡ p.nframes
  pub valid : IsValid p'

-- The two outcomes of `release_frame`, for the frame at `i`
pub data ReleaseOutcome (p : ContFramePool) (i : ℕ) : Run ContFramePool → Type 0 where
  not_head : p.bitmap i ≢ head_state → ReleaseOutcome p i halted
  released :
      (e : ℕ) (p' : ContFramePool)
      → p.bitmap i ≡ head_state
      → IsSequence p.bitmap p.nframes i e
      → Released p i e p'
      → ReleaseOutcome p i (ok p')

Freed-Released :
    (p : ContFramePool) (i e : ℕ) (p' : ContFramePool)
    → IsValid p
    → is_used (p.bitmap i) ≡ true
    → IsSequence p.bitmap p.nframes i e
    → Freed p i e p'
    → Released p i e p'
Freed-Released p i e p' v used q f =
    let some_frame = q.some_frame in
    let in_pool = q.in_pool in
    let more =
      count_free-range p.bitmap p'.bitmap i (e - i) (λ k a b. ground (arith, f.bitmap k))
        (λ k a b. elim (ℕ_discrete i k) [
          | yes at ↦ ground arith
          | no ne ↦ ground (arith, q.inner k (omega arith) (omega arith))
        ])
        (λ k o. ground (arith, f.bitmap k)) p.nframes (omega arith) in
    record {
      frames = f.bitmap;
      count = f.count;
      same_base = f.same_base;
      same_size = f.same_size;
      valid = record {
        states = λ j h. ground (arith, f.bitmap j, v.states j, f.same_size);
        chained =
            λ j h. ground (arith, f.bitmap j, f.bitmap (suc j), v.chained j, f.same_size, ends j);
        counted = rw f.same_size (omega (arith, more, f.count, v.counted));
      };
    }
  where
    ends : (j : ℕ) → suc j ≡ e → e < p.nframes → p.bitmap (suc j) ≢ allocated_state
    ends j at h = rw at (q.ends h)

-- `release_frame` of a frame of a valid pool fails its assertion exactly if the frame is not the
-- head of a sequence; otherwise it frees the whole sequence and nothing else, raises the count by
-- its length, and leaves the pool valid.
pub release_frame_outcome :
    (p : ContFramePool) (i : ℕ)
    → IsValid p
    → i < p.nframes
    → ReleaseOutcome p i (release_frame p (p.base_frame_no + i))
unfolding release_frame
release_frame_outcome p i v h =
    let at : p.base_frame_no + i - p.base_frame_no ≡ i = omega arith in
    let rounds : p.nframes - i ≡ suc (p.nframes - i - 1) = omega arith in
    elim (ℕ_discrete (p.bitmap i) head_state) [
      | no ne ↦
          rw at
            (let miss : (p.bitmap i == head_state) ≡ false = ground arith in rw miss (not_head ne))
      | yes head ↦
          let used : is_used (p.bitmap i) ≡ true = rw head in
          let hit : (p.bitmap i == head_state) ≡ true = rw head in
          let (e, q, f) =
            release_from-Freed (p.nframes - i - 1) i p.nframes p (omega arith) used v.states in
          rw (at, hit, rounds) (released e _ head q (Freed-Released p i e _ v used q f))
    ]
