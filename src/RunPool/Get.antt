-- ===== src/RunPool/Get.antt =====
-- MP3_Sources/cont_frame_pool.C: `get_frames` hands out the first fit.
use mathlib.Core.Path.{subst}
use csce410_611_spring2026_p.FrameStates.{free_state, AllFree, FirstFit}
use csce410_611_spring2026_p.FrameStates.Loops.{mark_sequence_lem}
use csce410_611_spring2026_p.FrameStates.Outcome.{Got, got, none_left}
use csce410_611_spring2026_p.RunPool.{
  ContFramePool, get_state, set_state, find_run, mark_found, get_frames,
}
use csce410_611_spring2026_p.RunPool.States.{IsPool, set_state-SetsStates}
use csce410_611_spring2026_p.Base.{
  ℕ, zero, suc, ◌+◌, ◌<◌, ◌≤◌, ◌≡◌, ◌≢◌, refl, sym, ap, ◌∙◌, inl, inr, Option, some, none, arith,
  ◌==◌, if◌then◌else◌, ℕ_discrete, dec_lt, Bool-cases, word_size,
}

-- `start` is where the run of `len` free frames before `f` begins, and no fit begins before it.
find_run-FirstFit :
    (k : ℕ) (p : ContFramePool) (n f run_start len lo start : ℕ)
    → lo ≤ start
    → start + len ≡ f
    → len < n
    → (0 < len → run_start ≡ start)
    → AllFree (get_state p) start f
    → ((j : ℕ) → lo ≤ j → j < start → AllFree (get_state p) j (j + n) → ⊥)
    → FirstFit (get_state p) lo (f + k) n (find_run k p n f run_start len)
unfolding find_run
find_run-FirstFit zero p n f run_start len lo start from at short known free before =
    λ j a b all. before j a (omega arith) all
find_run-FirstFit (suc k) p n f run_start len lo start from at short known free before =
    let next : f + 1 + k ≡ f + suc k = omega arith in
    let begins : (if len == 0 then f else run_start) ≡ start = ground arith in
    elim (Bool-cases (get_state p f == free_state)) [
      | inl is_free ↦
          let more : (j : ℕ) → start ≤ j → j < f + 1 → get_state p j ≡ free_state = λ j a b.
            elim (ℕ_discrete f j) [
              | yes same ↦ ground (arith, ap (get_state p) same)
              | no ne ↦ free j a (omega arith)
            ] in
          elim (Bool-cases (len + 1 == n)) [
            | inl enough ↦
                let size : len + 1 ≡ n = ground arith in
                rw (is_free, enough, begins)
                  (from, omega arith, λ j a b. more j a (omega arith), before)
            | inr short' ↦
                rw (is_free, short', begins)
                  (subst
                    (λ hi. FirstFit (get_state p) lo hi n (find_run k p n (f + 1) start (len + 1)))
                    next
                    (find_run-FirstFit k p n (f + 1) start (len + 1) lo start from (omega arith)
                      (ground arith) (λ h. refl) more before))
          ]
      | inr taken ↦
          let not_free : get_state p f ≢ free_state = ground arith in
          rw taken (
            subst (λ hi. FirstFit (get_state p) lo hi n (find_run k p n (f + 1) run_start 0)) next
              (find_run-FirstFit k p n (f + 1) run_start 0 lo (f + 1) (omega arith) (omega arith)
                (omega arith) (λ h. absurd (omega arith)) (λ j a b. absurd (omega arith))
                (λ j a b all. elim (dec_lt j start) [
                  | yes l ↦ before j a l all
                  | no nl ↦ not_free (all f (omega arith) (omega arith))
                ])))
    ]

mark_found-Got :
    (base total : ℕ) (p : ContFramePool) (n : ℕ)
    → IsPool base total p
    → base + total < word_size
    → 0 < n
    → (r : Option ℕ) → FirstFit (get_state p) base (base + total) n r
    → Got get_state (IsPool base total) base (base + total) n p (mark_found p n r)
unfolding mark_found
mark_found-Got base total p n pool fits some_frames none f = none_left f
mark_found-Got base total p n pool fits some_frames (some i) f =
    let (from, inside, free, first) = f in
    let law = set_state-SetsStates base total fits in
    let (fine, marked) =
      mark_sequence_lem get_state set_state base (base + total) (IsPool base total) law i n p pool
        from some_frames inside in
    got i _ f fine marked

-- For at least one frame: `get_frames` hands out the first run of that many free frames, makes it a sequence and
-- leaves the states of all other frames; if there is no such run it returns 0 and leaves the pool as it was.
pub get_frames-Got :
    (base total : ℕ) (p : ContFramePool) (n : ℕ)
    → IsPool base total p
    → base + total < word_size
    → 0 < n
    → Got get_state (IsPool base total) base (base + total) n p (get_frames p n)
unfolding get_frames
get_frames-Got base total p n pool fits some_frames =
    let found =
      find_run-FirstFit total p n base 0 0 base base (omega arith) (omega arith) some_frames
        (λ h. absurd (omega arith)) (λ j a b. absurd (omega arith))
        (λ j a b. absurd (omega arith)) in
    subst (λ r. Got get_state (IsPool base total) base (base + total) n p (mark_found p n r))
      (ap (λ k. find_run k p n base 0 0) (sym pool.size)
        ∙ ap (λ b. find_run p.n_frames p n b 0 0) (sym pool.at_base))
      (mark_found-Got base total p n pool fits some_frames (find_run total p n base 0 0) found)
