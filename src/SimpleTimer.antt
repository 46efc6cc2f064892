-- ===== src/SimpleTimer.antt =====
-- MP6_Sources/simple_timer.C (MP4, MP5 and MP7 have the same text): class SimpleTimer. `seconds` has 32 bits; `ticks`
-- and `hz` are `int` and never negative here. The bytes that go out on a port are a list, the first one first.
pub mod Frequency
pub mod Time
mod Tests
use Prim.Native.Nat.{suc, bit_and}
use csce410_611_spring2026_p.Base.Run.{Run, ok, halted, out_of_fuel, ◌>>=◌}
use csce410_611_spring2026_p.Base.{
  zero, suc, ltb, [], ◌∷◌, List, leb, ℕ, ◌+◌, ◌-◌, ◌%◌, ◌/◌, ◌^◌, ◌==◌, ◌&&◌, ◌++◌, ◌≡◌, word_size,
  if◌then◌else◌,
}

pub record SimpleTimer : Type 0 where
  pub seconds : ℕ
  pub ticks : ℕ
  pub hz : ℕ

-- A byte and the port that it goes out on
abbrev pub Output : Type 0
Output = List (ℕ × ℕ)

-- The rate of the input clock
abbrev pub clock : ℕ
clock = 1193180

-- A division by 0 is a fault of the processor.
unfoldable pub set_frequency : SimpleTimer → ℕ → Run (SimpleTimer × Output)
set_frequency t hz =
    if hz == 0
    then halted
    else ok (
      record t { hz = hz },
      (0x43, 0x34) ∷ (0x40, bit_and (clock / hz) 0xff) ∷ (0x40, clock / hz / 2 ^ 8 % 2 ^ 8) ∷ [],
    )

unfoldable pub new_timer : SimpleTimer → ℕ → Run (SimpleTimer × Output)
new_timer t hz = set_frequency (record t { seconds = 0; ticks = 0 }) hz

unfoldable pub tick : SimpleTimer → SimpleTimer
tick t =
    if leb t.hz (t.ticks + 1)
    then record t { seconds = (t.seconds + 1) % word_size; ticks = 0 }
    else record t { ticks = t.ticks + 1 }

unfoldable pub current : SimpleTimer → ℕ × ℕ
current t = (t.seconds, t.ticks)

-- The loop of `wait`, on fuel; `seen k` is the timer as check `k` of the loop finds it. The result is the check that
-- ended the loop.
unfoldable pub wait_loop : (fuel : ℕ) → (ℕ → SimpleTimer) → (then_seconds now_ticks k : ℕ) → Run ℕ
wait_loop zero seen then_seconds now_ticks k = out_of_fuel
wait_loop (suc fuel) seen then_seconds now_ticks k =
    let rest = wait_loop fuel seen then_seconds now_ticks (k + 1) in
    if leb (seen k).seconds then_seconds && ltb (seen k).ticks now_ticks then rest else ok k

unfoldable pub wait : (fuel : ℕ) → SimpleTimer → (ℕ → SimpleTimer) → ℕ → Run ℕ
wait fuel t seen for_seconds =
    let (now_seconds, now_ticks) = current t in
    wait_loop fuel seen ((now_seconds + for_seconds) % word_size) now_ticks 0
