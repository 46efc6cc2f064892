-- ===== src/BitmapPool/Get.antt =====
-- MP2_Sources/cont_frame_pool.C: `get_frames` hands out the first fit.
use mathlib.Core.Path.{subst}
use csce410_611_spring2026_p.FrameStates.{free_state, AllFree, FirstFit, FirstFit-step}
use csce410_611_spring2026_p.FrameStates.Loops.{mark_sequence_lem}
use csce410_611_spring2026_p.FrameStates.Outcome.{Got, got, none_left}
use csce410_611_spring2026_p.BitmapPool.{
  ContFramePool, max_frames, get_state, set_state, all_free, find_frames, get_frames, mark_found,
}
use csce410_611_spring2026_p.BitmapPool.States.{IsPool, set_state-SetsStates}
use csce410_611_spring2026_p.Base.{
  ℕ, zero, suc, ◌+◌, ◌-◌, ◌%◌, ◌<◌, ◌≤◌, ◌≡◌, refl, sym, ap, ◌∙◌, inl, inr, true, Option, some,
  none, arith, ◌==◌, ℕ_discrete, ◌↔◌, Bool-cases, word_size,
}

all_free-AllFree :
    (k f : ℕ) (p : ContFramePool) → (all_free k f p ≡ true) ↔ AllFree (get_state p) f (f + k)
unfolding all_free
all_free-AllFree zero f p = (λ e j a b. absurd (omega arith), λ free. refl)
all_free-AllFree (suc k) f p =
    let (down, up) = all_free-AllFree k (f + 1) p in
    elim (Bool-cases (get_state p f == free_state)) [
      | inl free ↦ (
        λ e j a b.
            let rest = down (rw free at e) in
            elim (ℕ_discrete f j) [
              | yes same ↦ ground (arith, ap (get_state p) same)
              | no ne ↦ rest j (omega arith) (omega arith)
            ],
        λ all. rw free (up (λ j a b. all j (omega arith) (omega arith))),
      )
      | inr taken ↦ (λ e. absurd (cc (rw taken at e)), λ all. ground (arith, all f))
    ]

find_frames-FirstFit :
    (k : ℕ) (p : ContFramePool) (n f : ℕ)
    → 0 < n
    → FirstFit (get_state p) f (f + k + n - 1) n (find_frames k p n f)
unfolding find_frames
find_frames-FirstFit zero p n f some_frames = λ j from inside free. absurd (omega arith)
find_frames-FirstFit (suc k) p n f some_frames =
    let (down, up) = all_free-AllFree n f p in
    elim (Bool-cases (all_free n f p)) [
      | inl free ↦
          rw free (omega arith, omega arith, down free, λ j from less. absurd (omega arith))
      | inr taken ↦
          let same : f + 1 + k + n - 1 ≡ f + suc k + n - 1 = omega arith in
          rw taken (
            FirstFit-step (get_state p) f (f + suc k + n - 1) n (find_frames k p n (f + 1))
              (λ all. cc (up all))
              (subst (λ hi. FirstFit (get_state p) (f + 1) hi n (find_frames k p n (f + 1))) same
                (find_frames-FirstFit k p n (f + 1) some_frames)))
    ]

mark_found-Got :
    (base total : ℕ) (p : ContFramePool) (n : ℕ)
    → IsPool base total p
    → total ≤ max_frames
    → base + total < word_size
    → 0 < n
    → (r : Option ℕ) → FirstFit (get_state p) base (base + total) n r
    → Got get_state (IsPool base total) base (base + total) n p (mark_found p n r)
unfolding mark_found
mark_found-Got base total p n pool small fits some_frames none f = none_left f
mark_found-Got base total p n pool small fits some_frames (some i) f =
    let (from, inside, free, first) = f in
    let law = set_state-SetsStates base total small fits in
    let (fine, marked) =
      mark_sequence_lem get_state set_state base (base + total) (IsPool base total) law i n p pool
        from some_frames inside in
    got i _ f fine marked

-- For at least one frame and at most as many as the pool has: `get_frames` hands out the first run of that many free
-- frames, makes it a sequence and leaves the states of all other frames; if there is no such run it returns 0 and
-- leaves the pool as it was.
pub get_frames-Got :
    (base total : ℕ) (p : ContFramePool) (n : ℕ)
    → IsPool base total p
    → total ≤ max_frames
    → base + total < word_size
    → 0 < n
    → n ≤ total
    → Got get_state (IsPool base total) base (base + total) n p (get_frames p n)
unfolding get_frames
get_frames-Got base total p n pool small fits some_frames enough =
    let rounds : (word_size + p.n_frames - n) % word_size + 1 ≡ total - n + 1 =
      omega (arith, pool.size) in
    let end : base + (total - n + 1) + n - 1 ≡ base + total = omega arith in
    let found =
      subst (λ hi. FirstFit (get_state p) base hi n (find_frames (total - n + 1) p n base)) end
        (find_frames-FirstFit (total - n + 1) p n base some_frames) in
    subst (λ r. Got get_state (IsPool base total) base (base + total) n p (mark_found p n r))
      (ap (λ k. find_frames k p n base) (sym rounds) ∙ ap (find_frames _ p n) (sym pool.at_base))
      (mark_found-Got base total p n pool small fits some_frames
        (find_frames (total - n + 1) p n base) found)
