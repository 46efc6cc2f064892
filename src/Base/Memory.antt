-- ===== src/Base/Memory.antt =====
-- C arrays as functions from an index to what stands there. The bounds of an array are no part of
-- its function: they are stated where a theorem needs them.
use Prim.Native.Nat.{ℕ, ◌<◌}
use mathlib.Core.Path.{◌≡◌}
use mathlib.Core.Logic.{◌≢◌}
use native.Mathlib.Omega.{arith}
use csce410_611_spring2026_p.Base.Tests.{ltb, ◌==◌, if◌then◌else◌}

-- `a[i] = v`
abbrev pub put {ℓ} : {A : Type ℓ} → (ℕ → A) → ℕ → A → ℕ → A
put a i v j = if i == j then v else a j

-- `for (i = 0; i < n; i++) dst[i] = src[i]`
abbrev pub copy {ℓ} : {A : Type ℓ} → ℕ → (ℕ → A) → (ℕ → A) → ℕ → A
copy n src dst j = if ltb j n then src j else dst j

-- The arrays agree below `n`.
abbrev pub Agree {ℓ} : {A : Type ℓ} → ℕ → (ℕ → A) → (ℕ → A) → Type ℓ
Agree n a b = (i : ℕ) → i < n → a i ≡ b i

pub put_self {ℓ} : {A : Type ℓ} (a : ℕ → A) (i : ℕ) (v : A) → put a i v i ≡ v
put_self a i v = ground arith

pub put_ne {ℓ} : {A : Type ℓ} (a : ℕ → A) (i j : ℕ) (v : A) → i ≢ j → put a i v j ≡ a j
put_ne a i j v h = ground arith
