-- ===== src/Base/Search.antt =====
-- `for (i = 0; i < n; i++) if (p(i)) return i;`, the linear scan of the tables.
use Prim.Native.Nat.{ℕ, zero, suc, ◌+◌, ◌≤◌, ◌<◌}
use mathlib.Core.Path.{◌≡◌, refl}
use mathlib.Core.Logic.{inl, inr}
use mathlib.Core.Bool.{Bool, true, false}
use mathlib.Core.Option.{Option, none, some}
use native.Mathlib.Omega.{arith}
use native.Mathlib.Decide.{ℕ_discrete}
use csce410_611_spring2026_p.Base.Tests.{if◌then◌else◌, Bool-cases, Option-cases}

-- The scan with `n` rounds left, at index `i`.
unfoldable pub find_from : (ℕ → Bool) → ℕ → ℕ → Option ℕ
find_from p zero i = none
find_from p (suc n) i = let rest = find_from p n (i + 1) in if p i then some i else rest

unfoldable pub find_index : (ℕ → Bool) → ℕ → Option ℕ
unfolding find_from
find_index p n = find_from p n 0

-- What the scan returns is the first index in range that passes.
pub record IsFirst (p : ℕ → Bool) (i n k : ℕ) : Type 0 where
  pub lower : i ≤ k
  pub upper : k < i + n
  pub passes : p k ≡ true
  pub first : (j : ℕ) → i ≤ j → j < k → p j ≡ false

find_from-IsFirst : (p : ℕ → Bool) (n i : ℕ) {k : ℕ} → find_from p n i ≡ some k → IsFirst p i n k
unfolding find_from
find_from-IsFirst p zero i e = ground arith
find_from-IsFirst p (suc n) i {k} e = elim (Bool-cases (p i)) [
  | inl hit ↦ record {
    lower = ground arith;
    upper = ground arith;
    passes = ground arith;
    first = λ j lo hi. ground arith;
  }
  | inr miss ↦
      let rest : IsFirst p (i + 1) n k = find_from-IsFirst p n (i + 1) (ground arith) in
      record {
        lower = omega arith;
        upper = omega arith;
        passes = rest.passes;
        first = λ j lo hi. elim (ℕ_discrete i j) [
          | yes same ↦ ground arith
          | no other ↦ rest.first j (omega arith) hi
        ];
      }
]

find_from-none :
    (p : ℕ → Bool) (n i : ℕ) → find_from p n i ≡ none → (j : ℕ) → i ≤ j → j < i + n → p j ≡ false
unfolding find_from
find_from-none p zero i e j lo hi = absurd (omega arith)
find_from-none p (suc n) i e j lo hi = elim (Bool-cases (p i)) [
  | inl hit ↦ ground arith
  | inr miss ↦ elim (ℕ_discrete i j) [
    | yes same ↦ ground arith
    | no other ↦ find_from-none p n (i + 1) (ground arith) j (omega arith) (omega arith)
  ]
]

module _ (p : ℕ → Bool) (n : ℕ) where
  pub find_index-IsFirst : {k : ℕ} → find_index p n ≡ some k → IsFirst p 0 n k
  unfolding find_index
  find_index-IsFirst e = find_from-IsFirst p n 0 e

  pub find_index-none : find_index p n ≡ none → (j : ℕ) → j < n → p j ≡ false
  unfolding find_index
  find_index-none e j h = find_from-none p n 0 e j (omega arith) (omega arith)

-- The scan succeeds where an index passes.
pub find_index-some :
    (p : ℕ → Bool) (n j : ℕ) → j < n → p j ≡ true → (k : ℕ) × (find_index p n ≡ some k)
find_index-some p n j h hit = elim (Option-cases (find_index p n)) [
  | inl e ↦ absurd (ground (arith, find_index-none p n e j))
  | inr found ↦ found
]

find_from-congr :
    (p q : ℕ → Bool) (n i : ℕ)
    → ((j : ℕ) → j < i + n → p j ≡ q j)
    → find_from p n i ≡ find_from q n i
unfolding find_from
find_from-congr p q zero i same = refl
find_from-congr p q (suc n) i same =
    ground (arith, same i, find_from-congr p q n (i + 1) (λ j h. same j (omega arith)))

-- The scan reads its test only in range.
pub find_index-congr :
    (p q : ℕ → Bool) (n : ℕ) → ((j : ℕ) → j < n → p j ≡ q j) → find_index p n ≡ find_index q n
unfolding find_index
find_index-congr p q n same = find_from-congr p q n 0 (λ j h. same j (omega arith))

-- Where one index alone passes, the scan returns it.
pub find_index-only :
    (p : ℕ → Bool) (n k : ℕ)
    → k < n
    → p k ≡ true
    → ((j : ℕ) → j < n → p j ≡ true → j ≡ k)
    → find_index p n ≡ some k
find_index-only p n k h hit only =
    let (j, e) = find_index-some p n k h hit in
    let at : IsFirst p 0 n j = find_index-IsFirst p n e in
    let same : j ≡ k = only j (omega arith) at.passes in ground arith
