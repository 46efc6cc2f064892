-- ===== src/SimpleTimer/Time.antt =====
-- MP6_Sources/simple_timer.C: what the timer shows after a number of interrupts.
use Prim.Native.Nat.{bit_and, ◌^◌}
use native.Mathlib.Nat.{le-mul_of_pos_right, add-mul, zero-mul, div-eq_of_lt-le, mod-eq-sub-div-mul}
use csce410_611_spring2026_p.Base.Run.{ok}
use csce410_611_spring2026_p.SimpleTimer.{
  SimpleTimer, Output, clock, set_frequency, new_timer, tick, current, wait_loop, wait,
}
use csce410_611_spring2026_p.Base.{
  ℕ, zero, suc, ◌+◌, ◌*◌, ◌%◌, ◌/◌, ◌<◌, ◌≤◌, ◌≡◌, refl, ◌∙◌, inl, inr, false, [], ◌∷◌, arith, ltb,
  ◌==◌, word_size, leb, Bool-cases,
}

-- The timer after `n` interrupts
abbrev pub ticked : ℕ → SimpleTimer → SimpleTimer
ticked zero t = t
ticked (suc n) t = tick (ticked n t)

tick-time :
    (t : SimpleTimer) (hz n : ℕ)
    → t.hz ≡ hz
    → t.ticks < hz
    → t.seconds * hz + t.ticks ≡ n
    → n + 1 < word_size
    → (let t' = tick t in (t'.hz ≡ hz) × (t'.ticks < hz) × (t'.seconds * hz + t'.ticks ≡ n + 1))
unfolding tick
tick-time t hz n rate inside e small = elim (Bool-cases (leb t.hz (t.ticks + 1))) [
  | inl over ↦
      let full : t.ticks + 1 ≡ hz = ground arith in
      let some_hz : 0 < hz = omega arith in
      let below : t.seconds ≤ t.seconds * hz = le-mul_of_pos_right t.seconds some_hz in
      let fits : (t.seconds + 1) % word_size ≡ t.seconds + 1 = omega arith in
      let spread = add-mul t.seconds 1 hz in rw (over, fits) (rate, some_hz, omega arith)
  | inr under ↦ let still : t.ticks + 1 < hz = ground arith in rw under (rate, still, omega arith)
]

ticked-sum :
    (t : SimpleTimer) (n : ℕ)
    → 0 < t.hz
    → t.seconds ≡ 0
    → t.ticks ≡ 0
    → n < word_size
    → (let t' = ticked n t in
        (t'.hz ≡ t.hz) × (t'.ticks < t.hz) × (t'.seconds * t.hz + t'.ticks ≡ n))
ticked-sum t zero some_hz none_yet fresh small =
    (refl, rw fresh some_hz, rw (none_yet, fresh) (omega (arith, zero-mul t.hz)))
ticked-sum t (suc n) some_hz none_yet fresh small =
    let (rate, inside, sum) = ticked-sum t n some_hz none_yet fresh (omega arith) in
    let (rate', inside', sum') = tick-time (ticked n t) t.hz n rate inside sum (omega arith) in
    (rate', inside', sum' ∙ omega arith)

-- From its constructor on, a timer of a positive frequency shows after `n` interrupts, fewer than 2 ^ 32, the full
-- seconds and the interrupts since then.
pub new_timer-ticked :
    (t : SimpleTimer) (hz n : ℕ)
    → 0 < hz
    → n < word_size
    → (t' : SimpleTimer) × (out : Output) × (new_timer t hz ≡ ok (t', out))
      × (current (ticked n t') ≡ (n / hz, n % hz))
unfolding new_timer set_frequency current
new_timer-ticked t hz n some_hz small =
    let fresh = record t { seconds = 0; ticks = 0; hz = hz } in
    let not_zero : (hz == 0) ≡ false = ground arith in
    let (rate, inside, sum) = ticked-sum fresh n some_hz refl refl small in
    let s = (ticked n fresh).seconds in
    let spread = add-mul s 1 hz in
    let quotient : n / hz ≡ s = div-eq_of_lt-le hz (omega arith) (omega (arith, spread)) in
    let rest : n % hz ≡ (ticked n fresh).ticks =
      mod-eq-sub-div-mul n hz ∙ rw quotient (omega arith) in
    (
      fresh,
      (0x43, 0x34) ∷ (0x40, bit_and (clock / hz) 0xff) ∷ (0x40, clock / hz / 2 ^ 8 % 2 ^ 8) ∷ [],
      rw not_zero refl,
      rw (quotient, rest) refl,
    )

-- When no interrupt comes between the first reading of the timer and the first check of the loop, `wait` ends
-- at that check, for any number of seconds.
pub wait-at_once :
    (fuel : ℕ) (t : SimpleTimer) (seen : ℕ → SimpleTimer) (for_seconds : ℕ)
    → seen 0 ≡ t
    → wait (suc fuel) t seen for_seconds ≡ ok 0
unfolding wait wait_loop current
wait-at_once fuel t seen for_seconds e =
    let no_less : ltb (seen 0).ticks t.ticks ≡ false = rw e (ground arith) in
    elim (Bool-cases (leb (seen 0).seconds ((t.seconds + for_seconds) % word_size))) [
      | inl a ↦ rw (no_less, a) refl
      | inr a ↦ rw (no_less, a) refl
    ]
