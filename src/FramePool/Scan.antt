-- ===== src/FramePool/Scan.antt =====
-- MP4_Sources/cont_frame_pool.C: the search of `get_frames`. It ends, and finds the first run of
-- frames that are not in use, if the pool has one.
use csce410_611_spring2026_p.Base.{
  ℕ, zero, suc, ◌+◌, ◌<◌, ◌≤◌, ◌≡◌, refl, inl, inr, true, false, some, arith, leb, ltb, Bool-cases,
  ℕ_discrete, dec_lt,
}
use csce410_611_spring2026_p.Base.Run.{Run, ok, halted}
use csce410_611_spring2026_p.FramePool.{
  ContFramePool, is_used, skip_used, scan_window, Window, clear, no_room, used_at, search_frames,
}

-- The indices from `lo` up to `hi` are in use, or are not.
abbrev pub AllUsed : (ℕ → ℕ) → ℕ → ℕ → Type 0
AllUsed bitmap lo hi = (k : ℕ) → lo ≤ k → k < hi → is_used (bitmap k) ≡ true

abbrev pub AllUnused : (ℕ → ℕ) → ℕ → ℕ → Type 0
AllUnused bitmap lo hi = (k : ℕ) → lo ≤ k → k < hi → is_used (bitmap k) ≡ false

-- No run of `n` unused frames starts below `i`.
abbrev pub NoRunBelow : (ℕ → ℕ) → ℕ → ℕ → Type 0
NoRunBelow bitmap n i = (s : ℕ) → s < i → ¬ AllUnused bitmap s (s + n)

-- The end of the skip: the first index from `i` on that is not in use
pub record Skipped (bitmap : ℕ → ℕ) (i i' : ℕ) : Type 0 where
  pub lower : i ≤ i'
  pub unused : is_used (bitmap i') ≡ false
  pub passed : AllUsed bitmap i i'

skip_used-Skipped :
    (fuel : ℕ) (bitmap : ℕ → ℕ) (i z : ℕ)
    → i ≤ z
    → z < i + fuel
    → is_used (bitmap z) ≡ false
    → (i' : ℕ) × (skip_used fuel bitmap i ≡ some i') × (i' ≤ z) × Skipped bitmap i i'
unfolding skip_used
skip_used-Skipped zero bitmap i z lo hi stop = absurd (omega arith)
skip_used-Skipped (suc fuel) bitmap i z lo hi stop = elim (Bool-cases (is_used (bitmap i))) [
  | inr unused ↦
      rw (unused, skip_used)
        (
          i,
          refl,
          lo,
          record { lower = omega arith; unused = unused; passed = λ k a b. absurd (omega arith) },
        )
  | inl used ↦
      let ahead : i + 1 ≤ z = elim (ℕ_discrete i z) [
        | yes e ↦ absurd (ground arith)
        | no ne ↦ omega arith
      ] in
      let (i', e, below, rest) = skip_used-Skipped fuel bitmap (i + 1) z ahead (omega arith) stop in
      rw (used, skip_used)
        (
          i',
          e,
          below,
          record {
            lower = omega (arith, rest.lower);
            unused = rest.unused;
            passed = λ k a b. elim (ℕ_discrete i k) [
              | yes same ↦ ground arith
              | no ne ↦ rest.passed k (omega arith) b
            ];
          },
        )
]

-- How the loop over a window of `n` frames from `i` ends, started at `j`
data WindowOutcome (p : ContFramePool) (n i j e : ℕ) : Window → Type 0 where
  is_clear : AllUnused p.bitmap j e → (j < e → i + n ≤ p.nframes) → WindowOutcome p n i j e clear
  is_short : p.nframes < i + n → WindowOutcome p n i j e no_room
  is_used_at :
      (k : ℕ)
      → j ≤ k
      → k < e
      → is_used (p.bitmap k) ≡ true
      → i + n ≤ p.nframes
      → WindowOutcome p n i j e (used_at k)

extend :
    (p : ContFramePool) (n i j e : ℕ)
    → is_used (p.bitmap j) ≡ false
    → i + n ≤ p.nframes
    → {w : Window} → WindowOutcome p n i (j + 1) e w
    → WindowOutcome p n i j e w
extend p n i j e unused fits (is_clear rest room) =
    is_clear
      (λ m a b. elim (ℕ_discrete j m) [ yes same ↦ ground arith | no ne ↦ rest m (omega arith) b ])
      (λ less. fits)
extend p n i j e unused fits (is_short short) = is_short short
extend p n i j e unused fits (is_used_at k a b used room) = is_used_at k (omega arith) b used room

scan_window_outcome :
    (p : ContFramePool) (n i k j e : ℕ)
    → j + k ≡ e
    → e ≤ i + n
    → WindowOutcome p n i j e (scan_window p n i k j)
unfolding scan_window
scan_window_outcome p n i zero j e at h =
    is_clear (λ m a b. absurd (omega arith)) (λ less. absurd (omega arith))
scan_window_outcome p n i (suc k) j e at h =
    elim (Bool-cases (leb (p.base_frame_no + i + n) (p.base_frame_no + p.nframes))) [
      | inr short ↦ rw (short, scan_window) (is_short (ground arith))
      | inl fits ↦ elim (Bool-cases (is_used (p.bitmap j))) [
        | inl used ↦
            let near : ltb j (p.base_frame_no + p.nframes) ≡ true = ground arith in
            rw (fits, used, near, scan_window)
              (is_used_at j (omega arith) (omega arith) used (ground arith))
        | inr unused ↦
            rw (fits, unused, scan_window)
              (extend p n i j e unused (ground arith)
                (scan_window_outcome p n i k (j + 1) e (omega arith) h))
      ]
    ]

-- How the search ends, started at `i`
pub data Found (p : ContFramePool) (n : ℕ) : Run ℕ → Type 0 where
  found :
      (i : ℕ)
      → i + n ≤ p.nframes
      → AllUnused p.bitmap i (i + n)
      → NoRunBelow p.bitmap n i
      → Found p n (ok i)
  none_found : ((s : ℕ) → s + n ≤ p.nframes → ¬ AllUnused p.bitmap s (s + n)) → Found p n halted

-- Every run that starts in front of a frame in use, and reaches it, is broken.
NoRunBelow-past :
    (bitmap : ℕ → ℕ) (n i k : ℕ)
    → NoRunBelow bitmap n i
    → k < i + n
    → is_used (bitmap k) ≡ true
    → NoRunBelow bitmap n k
NoRunBelow-past bitmap n i k before near used s less run = elim (dec_lt s i) [
  | yes low ↦ before s low run
  | no high ↦ ground (arith, run k (omega arith) (omega arith))
]

NoRunBelow-skip :
    (bitmap : ℕ → ℕ) (n i i' : ℕ)
    → 0 < n
    → NoRunBelow bitmap n i
    → Skipped bitmap i i'
    → NoRunBelow bitmap n i'
NoRunBelow-skip bitmap n i i' pos before skip s less run = elim (dec_lt s i) [
  | yes low ↦ before s low run
  | no high ↦ ground (arith, run s (omega arith) (omega arith), skip.passed s (omega arith) less)
]

module _ (p : ContFramePool) (n z : ℕ) (pos : 0 < n) (stop : is_used (p.bitmap z) ≡ false)
    (behind : p.nframes ≤ z) where
  -- One round of the search, by the outcome of the window; `rest` is the search from `k` on.
  after_window :
      (i i' : ℕ)
      → is_used (p.bitmap i') ≡ false
      → NoRunBelow p.bitmap n i'
      → (rest : ℕ → Run ℕ)
      → ((k : ℕ) → i' < k → k ≤ z → NoRunBelow p.bitmap n k → Found p n (rest k))
      → {w : Window} → WindowOutcome p n i' i' (i' + n) w
      → Found p n (elim w [ clear ↦ ok i' | no_room ↦ halted | used_at k ↦ rest k ])
  after_window i i' unused before rest go (is_clear run room) =
      found i' (room (omega arith)) run before
  after_window i i' unused before rest go (is_short short) =
      none_found (λ s fits run. before s (omega arith) run)
  after_window i i' unused before rest go (is_used_at k a b used room) =
      let past : i' < k = elim (ℕ_discrete i' k) [
        | yes same ↦ absurd (ground arith)
        | no ne ↦ omega arith
      ] in
      go k past (omega arith) (NoRunBelow-past p.bitmap n i' k before b used)

  pub search_frames-Found :
      (fuel i : ℕ)
      → i ≤ z
      → z < i + fuel
      → NoRunBelow p.bitmap n i
      → Found p n (search_frames fuel p n i)
  unfolding search_frames
  search_frames-Found zero i lo hi before = absurd (omega arith)
  search_frames-Found (suc fuel) i lo hi before =
      let (i', e, below, skip) = skip_used-Skipped (suc fuel) p.bitmap i z lo hi stop in
      let lower = skip.lower in
      rw (e, search_frames)
        (after_window i i' skip.unused (NoRunBelow-skip p.bitmap n i i' pos before skip)
          (search_frames fuel p n)
          (λ k more less clean. search_frames-Found fuel k less (omega arith) clean)
          (scan_window_outcome p n i' n i' (i' + n) refl (omega arith)))
