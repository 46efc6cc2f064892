-- ===== src/PageTable/Take.antt =====
-- MP4_Sources/page_table.C: what `get_frames(1)` of the process pool comes to.
use mathlib.Core.Path.{subst}
use csce410_611_spring2026_p.Base.Run.{Run, ok, halted, ◌>>=◌}
use csce410_611_spring2026_p.MemPool.{page_size}
use csce410_611_spring2026_p.FramePool.{ContFramePool, free_state, is_used}
use csce410_611_spring2026_p.FramePool.Get.{
  IsValid, GetOutcome, got, refused, get_frames_outcome, count_free,
}
use csce410_611_spring2026_p.PageTable.{Paging, take_page}
use csce410_611_spring2026_p.Base.{
  ℕ, zero, suc, ◌+◌, ◌-◌, ◌*◌, ◌%◌, ◌<◌, ◌≤◌, ◌≡◌, ◌≢◌, refl, ◌∙◌, false, ◌^◌, arith, word_size,
}

pub record IsFree (p : ContFramePool) (f : ℕ) : Type 0 where
  pub lower : p.base_frame_no ≤ f
  pub upper : f < p.base_frame_no + p.nframes
  pub free : p.bitmap (f - p.base_frame_no) ≡ free_state

pub record InUse (p : ContFramePool) (f : ℕ) : Type 0 where
  pub lower : p.base_frame_no ≤ f
  pub upper : f < p.base_frame_no + p.nframes
  pub used : p.bitmap (f - p.base_frame_no) ≢ free_state

pub InUse-IsFree : (p : ContFramePool) (f g : ℕ) → InUse p f → IsFree p g → f ≢ g
InUse-IsFree p f g u free same = u.used (rw same free.free)

-- A pool of frames of 32-bit addresses, which lie behind the first 4 MB; the byte at `z` ends the search.
pub record GoodPool (z : ℕ) (p : ContFramePool) : Type 0 where
  pub valid : IsValid p
  pub behind : p.nframes ≤ z
  pub stop : is_used (p.bitmap z) ≡ false
  pub high : 1024 ≤ p.base_frame_no
  pub fits : p.base_frame_no + p.nframes ≤ 2 ^ 20

-- The two outcomes of `take_page`
pub data TakeOutcome (z : ℕ) (s : Paging) : Run (ℕ × Paging) → Type 0 where
  taken :
      (f : ℕ) (p : ContFramePool)
      → IsFree s.process_mem_pool f
      → InUse p f
      → ((g : ℕ) → InUse s.process_mem_pool g → InUse p g)
      → ((g : ℕ) → IsFree p g → IsFree s.process_mem_pool g)
      → p.n_free_frames + 1 ≡ s.process_mem_pool.n_free_frames
      → GoodPool z p
      → TakeOutcome z s (ok (f * page_size, record s { process_mem_pool = p }))
  none_left : s.process_mem_pool.n_free_frames ≡ 0 → TakeOutcome z s halted

pub none_free-count :
    (bitmap : ℕ → ℕ) (n : ℕ) → ((i : ℕ) → i < n → bitmap i ≢ free_state) → count_free bitmap n ≡ 0
none_free-count bitmap zero used = refl
none_free-count bitmap (suc n) used =
    ground (arith, none_free-count bitmap n (λ i h. used i (omega arith)), used n)

module _ (z : ℕ) (s : Paging) (good : GoodPool z s.process_mem_pool) where
  from :
      {r : Run (ℕ × ContFramePool)}
      → GetOutcome s.process_mem_pool 1 r
      → TakeOutcome z s
          (r >>= (λ r. ok (r.0 * page_size % word_size, record s { process_mem_pool = r.1 })))
  from (got i p h free first t) =
      let f = s.process_mem_pool.base_frame_no + i in
      let base = t.same_base in
      let size = t.same_size in
      let here : s.process_mem_pool.base_frame_no + i - s.process_mem_pool.base_frame_no ≡ i =
        omega arith in
      let whole : f * page_size ≡ f * page_size % word_size = let fits = good.fits in omega arith in
      subst (λ a. TakeOutcome z s (ok (a, record s { process_mem_pool = p }))) whole
        (taken f p
          (record {
            lower = omega arith;
            upper = omega arith;
            free = rw here (free i (omega arith) (omega arith));
          })
          (record {
            lower = omega arith;
            upper = omega arith;
            used = λ e. ground (arith, t.sequence i);
          })
          (λ g u. record {
            lower = let lower = u.lower in omega arith;
            upper = let upper = u.upper in omega arith;
            used =
                let old = u.used in
                ground (arith, t.sequence (g - s.process_mem_pool.base_frame_no), u.lower);
          })
          (λ g o. record {
            lower = let lower = o.lower in omega arith;
            upper = let upper = o.upper in omega arith;
            free =
                let old = o.free in
                ground (arith, t.sequence (g - s.process_mem_pool.base_frame_no), o.lower);
          })
          t.count
          (record {
            valid = t.valid;
            behind = let behind = good.behind in omega arith;
            stop = let behind = good.behind in ground (arith, t.sequence z, good.stop);
            high = let high = good.high in omega arith;
            fits = let fits = good.fits in omega arith;
          }))
  from (refused none_free) = none_left (
      good.valid.counted
      ∙ none_free-count s.process_mem_pool.bitmap s.process_mem_pool.nframes
          (λ i h e. none_free i (omega arith) (λ k a b. ground arith)))

  pub take_page_outcome : (fuel : ℕ) → z < fuel → TakeOutcome z s (take_page fuel s)
  unfolding take_page
  take_page_outcome fuel enough = from (
      get_frames_outcome s.process_mem_pool 1 good.valid (omega arith) fuel z good.behind good.stop
        enough)
