-- ===== src/SimpleTimer/Frequency.antt =====
-- MP6_Sources/simple_timer.C: the divisor that `set_frequency` sends to the timer chip.
use native.Mathlib.Nat.{div-lt_iff_lt-mul}
use csce410_611_spring2026_p.Base.Run.{ok}
use csce410_611_spring2026_p.SimpleTimer.{SimpleTimer, clock, set_frequency}
use csce410_611_spring2026_p.Base.{
  ℕ, ◌+◌, ◌*◌, ◌%◌, ◌<◌, ◌≤◌, ◌≡◌, refl, false, [], ◌∷◌, arith, ◌==◌, bit_and-byte, ◌↔◌, ◌/◌,
}

-- For a positive frequency the command byte is 0x34 (not the 0x36 of the comment on that line), and the two bytes that
-- follow it are the low 16 bits of the divisor of the clock; they
-- are all of it exactly from frequency 19 on.
pub set_frequency-divisor :
    (t : SimpleTimer) (hz : ℕ)
    → 0 < hz
    → (low : ℕ) × (high : ℕ) × (set_frequency t hz
        ≡ ok (record t { hz = hz }, (0x43, 0x34) ∷ (0x40, low) ∷ (0x40, high) ∷ []))
      × (low + high * 256 ≡ clock / hz % 65536)
      × ((low + high * 256 ≡ clock / hz) ↔ (19 ≤ hz))
unfolding set_frequency
set_frequency-divisor t hz some_hz =
    let not_zero : (hz == 0) ≡ false = ground arith in
    let (fits, fitted) = div-lt_iff_lt-mul {k = hz} {x = clock} {y = 65536} some_hz in
    (
      clock / hz % 256,
      clock / hz / 256 % 256,
      rw (not_zero, bit_and-byte (clock / hz)) refl,
      omega arith,
      (
        λ e. let small : clock / hz < 65536 = omega arith in let enough = fits small in omega arith,
        λ from. let small = fitted (omega arith) in omega arith,
      ),
    )
