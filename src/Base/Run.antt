-- ===== src/Base/Run.antt =====
-- What a run of the kernel's code comes to: a result, a failed `assert`, or no result within the
-- fuel that a loop was given.
pub data Run {ℓ} (A : Type ℓ) : Type ℓ where
  ok : A → Run A
  halted : Run A
  out_of_fuel : Run A

infixl 5 ◌>>=◌
abbrev pub ◌>>=◌ {ℓ κ} : {A : Type ℓ} {B : Type κ} → Run A → (A → Run B) → Run B
ok a >>= f = f a
halted >>= f = halted
out_of_fuel >>= f = out_of_fuel
