-- ===== src/MemoryTest.antt =====
-- MP2_Sources/kernel.C: the recursive test of the frame pool. Memory is an array of words of 32 bits; a frame is 1024
-- of them. The pool is the only one of the list, as in `main`.
pub mod Pass
mod Tests
use csce410_611_spring2026_p.Base.Run.{Run, ok, halted, out_of_fuel, ◌>>=◌}
use csce410_611_spring2026_p.BitmapPool.{ContFramePool, Pools, get_frames, release_frames}
use csce410_611_spring2026_p.Base.{
  ℕ, zero, suc, ◌+◌, ◌-◌, ◌*◌, ◌%◌, ◌<◌, ◌≤◌, ◌≡◌, ◌≢◌, refl, sym, ap, ◌∙◌, inl, inr, ◌⊎◌, Bool,
  true, false, ◌&&◌, ◌||◌, ◌/◌, ◌^◌, Option, some, none, List, [], ◌∷◌, ◌++◌, arith, ltb, ◌==◌,
  if◌then◌else◌, put, put_ne, put_self, ℕ_discrete, dec_lt, copy, field_of, with_field,
  with_field-lt, field_of-with_field, field_of-put, length, Bool-cases, word_size, leb,
}

-- The index of the first word of a frame: `frame * (4 KB)`, in words
abbrev pub array_at : ℕ → ℕ
array_at frame = frame * 1024

-- The loop that writes the words from `at` on, with `k` left
unfoldable pub write_all : (k at value : ℕ) → (ℕ → ℕ) → ℕ → ℕ
write_all zero at value memory = memory
write_all (suc k) at value memory = write_all k (at + 1) value (put memory at value)

-- The loop that compares the words with the value
unfoldable pub all_hold : (k at value : ℕ) → (ℕ → ℕ) → Bool
all_hold zero at value memory = true
all_hold (suc k) at value memory =
    let rest = all_hold k (at + 1) value memory in if memory at == value then rest else false

abbrev pub the_pool : Pools → Run ContFramePool
the_pool [] = halted
the_pool (p ∷ ps) = ok p

-- After the recursion: a word with another value stops the test in an endless loop.
unfoldable pub check_and_release :
    (frame n value : ℕ) → ContFramePool × (ℕ → ℕ) → Run (ContFramePool × (ℕ → ℕ))
unfolding all_hold release_frames
check_and_release frame n value (p, memory) =
    if all_hold (1024 * n) (array_at frame) value memory
    then (release_frames (p ∷ []) frame >>= the_pool >>= (λ q. ok (q, memory)))
    else out_of_fuel

unfoldable pub test_memory :
    (allocs_to_go : ℕ) → ContFramePool × (ℕ → ℕ) → Run (ContFramePool × (ℕ → ℕ))
unfolding write_all check_and_release get_frames
test_memory zero s = ok s
test_memory (suc k) (p, memory) =
    let n = suc k % 4 + 1 in
    let (frame, p') = get_frames p n in
    test_memory k (p', write_all (1024 * n) (array_at frame) (suc k) memory)
    >>= check_and_release frame n (suc k)
