-- ===== src/FrameStates/Loops.antt =====
-- The loops over the frames of a sequence, for any pool whose states of frames from `lo` up to `hi` can be set.
use csce410_611_spring2026_p.FrameStates.{
  free_state, used_state, head_state, AllFree, with_sequence, with_free,
}
use csce410_611_spring2026_p.Base.{
  ℕ, zero, suc, ◌+◌, ◌-◌, ◌<◌, ◌≤◌, ◌≡◌, ◌≢◌, inl, inr, ◌&&◌, arith, ltb, ◌==◌, if◌then◌else◌,
  dec_lt, Bool-cases, leb,
}

-- `for (; rounds; f++) set_state(f, v)`
unfoldable pub set_all : {P : Type 0} → (P → ℕ → ℕ → P) → (v rounds f : ℕ) → P → P
set_all set v zero f p = p
set_all set v (suc k) f p = set_all set v k (f + 1) (set p f v)

module _ {P : Type 0} (get : P → ℕ → ℕ) (set : P → ℕ → ℕ → P) where
  -- `for (; rounds && get_state(f) == Used; f++) set_state(f, Free)`
  unfoldable pub release_used : (rounds f : ℕ) → P → P
  release_used zero f p = p
  release_used (suc k) f p =
      let rest = release_used k (f + 1) (set p f free_state) in
      if get p f == used_state then rest else p

-- The law of a state that is set
abbrev pub SetsStates :
    {P : Type 0} → (P → ℕ → ℕ) → (P → ℕ → ℕ → P) → (lo hi : ℕ) → (P → Type 0) → Type 0
SetsStates {P} get set lo hi Ok =
    (p : P) (f v : ℕ)
    → Ok p
    → lo ≤ f
    → f < hi
    → v < 3
    → Ok (set p f v)
      × ((g : ℕ) → lo ≤ g → g < hi → get (set p f v) g ≡ (if f == g then v else get p g))

module _ {P : Type 0} (get : P → ℕ → ℕ) (set : P → ℕ → ℕ → P) (lo hi : ℕ) (Ok : P → Type 0)
    (law : SetsStates get set lo hi Ok) where
  pub set_all_lem :
      (v k f : ℕ) (p : P)
      → v < 3
      → Ok p
      → lo ≤ f
      → f + k ≤ hi
      → Ok (set_all set v k f p)
        × ((g : ℕ)
            → lo ≤ g
            → g < hi
            → get (set_all set v k f p) g ≡ (if leb f g && ltb g (f + k) then v else get p g))
  unfolding set_all
  set_all_lem v zero f p value fine from inside = (fine, λ g a b. ground arith)
  set_all_lem v (suc k) f p value fine from inside =
      let (ok1, now) = law p f v fine from (omega arith) value in
      let (ok2, rest) = set_all_lem v k (f + 1) (set p f v) value ok1 (omega arith) (omega arith) in
      (ok2, λ g a b. ground (arith, now g, rest g))

  -- The sequence is marked.
  pub mark_sequence_lem :
      (i n : ℕ) (p : P)
      → Ok p
      → lo ≤ i
      → 0 < n
      → i + n ≤ hi
      → (let p' = set_all set used_state (n - 1) (i + 1) (set p i head_state) in
          Ok p' × ((g : ℕ) → lo ≤ g → g < hi → get p' g ≡ with_sequence (get p) i n g))
  mark_sequence_lem i n p fine from some_frames inside =
      let (ok1, now) = law p i head_state fine from (omega arith) (omega arith) in
      let (ok2, rest) =
        set_all_lem used_state (n - 1) (i + 1) (set p i head_state) (omega arith) ok1 (omega arith)
          (omega arith) in
      (ok2, λ g a b. ground (arith, now g, rest g))

  pub release_used_lem :
      (k f : ℕ) (p : P)
      → Ok p
      → lo ≤ f
      → f + k ≤ hi
      → (e : ℕ) × (f ≤ e)
        × (e ≤ f + k)
        × ((j : ℕ) → f ≤ j → j < e → get p j ≡ used_state)
        × (e < f + k → get p e ≢ used_state)
        × Ok (release_used get set k f p)
        × ((g : ℕ) → lo ≤ g → g < hi → get (release_used get set k f p) g ≡ with_free (get p) f e g)
  unfolding release_used
  release_used_lem zero f p fine from inside = (
    f,
    omega arith,
    omega arith,
    (λ j a b. absurd (omega arith)),
    (λ h. absurd (omega arith)),
    fine,
    λ g a b. ground arith,
  )
  release_used_lem (suc k) f p fine from inside = elim (Bool-cases (get p f == used_state)) [
    | inl used ↦
        let (ok1, now) = law p f free_state fine from (omega arith) (omega arith) in
        let (e, after, below, all, stop, ok2, rest) =
          release_used_lem k (f + 1) (set p f free_state) ok1 (omega arith) (omega arith) in
        (
          e,
          omega arith,
          omega arith,
          (λ j a b. ground (arith, all j, now j)),
          (λ h. ground (arith, stop, now e)),
          rw used ok2,
          rw used (λ g a b. ground (arith, now g, rest g)),
        )
    | inr other ↦ (
      f,
      omega arith,
      omega arith,
      (λ j a b. absurd (omega arith)),
      (λ h. ground arith),
      rw other fine,
      rw other (λ g a b. ground arith),
    )
  ]

  -- The frame `f` and the used frames behind it are released.
  pub release_lem :
      (f : ℕ) (p : P)
      → Ok p
      → lo ≤ f
      → f < hi
      → (let p' = release_used get set (hi - (f + 1)) (f + 1) (set p f free_state) in
          (e : ℕ) × (f < e)
          × (e ≤ hi)
          × ((j : ℕ) → f < j → j < e → get p j ≡ used_state)
          × (e < hi → get p e ≢ used_state)
          × Ok p'
          × ((g : ℕ) → lo ≤ g → g < hi → get p' g ≡ with_free (get p) f e g))
  release_lem f p fine from below =
      let (ok1, now) = law p f free_state fine from below (omega arith) in
      let (e, after, within, all, stop, ok2, rest) =
        release_used_lem (hi - (f + 1)) (f + 1) (set p f free_state) ok1 (omega arith)
          (omega arith) in
      (
        e,
        omega arith,
        omega arith,
        (λ j a b. ground (arith, all j, now j)),
        (λ h. ground (arith, stop, now e)),
        ok2,
        λ g a b. ground (arith, now g, rest g),
      )

  -- What was marked as a sequence is released as it was.
  pub release-sequence :
      (i n : ℕ) (p q : P)
      → Ok q
      → lo ≤ i
      → 0 < n
      → i + n ≤ hi
      → AllFree (get p) i (i + n)
      → (i + n < hi → get p (i + n) ≢ used_state)
      → ((g : ℕ) → lo ≤ g → g < hi → get q g ≡ with_sequence (get p) i n g)
      → (let q' = release_used get set (hi - (i + 1)) (i + 1) (set q i free_state) in
          Ok q' × ((g : ℕ) → lo ≤ g → g < hi → get q' g ≡ get p g))
  release-sequence i n p q fine from some_frames inside free ended marked =
      let (e, after, within, all, stop, ok2, rest) = release_lem i q fine from (omega arith) in
      let not_before : i + n ≤ e = elim (dec_lt e (i + n)) [
        | yes l ↦ absurd (stop (omega arith) (ground (arith, marked e)))
        | no nl ↦ omega arith
      ] in
      let not_after : e ≤ i + n = elim (dec_lt (i + n) e) [
        | yes l ↦ absurd (ended (omega arith) (ground (arith, all (i + n), marked (i + n))))
        | no nl ↦ omega arith
      ] in
      (ok2, λ g a b. ground (arith, rest g, marked g, free g))
