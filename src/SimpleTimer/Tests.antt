-- ===== src/SimpleTimer/Tests.antt =====
-- A timer of 100 Hz: runs, and the theorems at it.
use csce410_611_spring2026_p.Base.Run.{ok}
use csce410_611_spring2026_p.SimpleTimer.{
  SimpleTimer, Output, set_frequency, new_timer, tick, current,
}
use csce410_611_spring2026_p.SimpleTimer.Frequency.{set_frequency-divisor}
use csce410_611_spring2026_p.SimpleTimer.Time.{ticked, new_timer-ticked}
use csce410_611_spring2026_p.Base.{ℕ, ◌+◌, ◌*◌, ◌%◌, ◌≤◌, ◌≡◌, refl, [], ◌∷◌, arith, ◌↔◌, ◌/◌}

abbrev timer : SimpleTimer
timer = record { seconds = 7; ticks = 99; hz = 100 }

divisor_bytes :
    set_frequency timer 100
    ≡ ok (timer, (0x43, 0x34) ∷ (0x40, 11931 % 256) ∷ (0x40, 11931 / 256) ∷ [])
unfolding set_frequency
divisor_bytes = refl

second_over : tick timer ≡ record { seconds = 8; ticks = 0; hz = 100 }
unfolding tick
second_over = refl

-- At the frequency of 18 the divisor is 66287; what the two bytes keep is 751.
divisor_lost :
    set_frequency timer 18
    ≡ ok (record timer { hz = 18 }, (0x43, 0x34) ∷ (0x40, 751 % 256) ∷ (0x40, 751 / 256) ∷ [])
unfolding set_frequency
divisor_lost = refl

new_timer-ticked_example :
    (t' : SimpleTimer) × (out : Output) × (new_timer timer 100 ≡ ok (t', out))
    × (current (ticked 250 t') ≡ (2, 50))
new_timer-ticked_example = new_timer-ticked timer 100 250 (omega arith) (omega arith)

-- Five seconds are asked for, and the first check ends the wait.

set_frequency-divisor_example :
    (low : ℕ) × (high : ℕ) × (set_frequency timer 18
      ≡ ok (record timer { hz = 18 }, (0x43, 0x34) ∷ (0x40, low) ∷ (0x40, high) ∷ []))
    × (low + high * 256 ≡ 66287 % 65536)
    × ((low + high * 256 ≡ 66287) ↔ (19 ≤ 18))
set_frequency-divisor_example = set_frequency-divisor timer 18 (omega arith)
