-- ===== src/Utils.antt =====
-- MP7_Sources/utils.C (the other folders have the same text): memsetw, strlen and uint2str. A buffer is a function of
-- the index; characters are bytes.
pub mod Digits
use mathlib.Core.Option
use csce410_611_spring2026_p.Base.{
  ℕ, zero, suc, ◌+◌, ◌-◌, ◌*◌, ◌%◌, ◌<◌, ◌≤◌, ◌≡◌, ◌≢◌, refl, sym, ap, ◌∙◌, inl, inr, ◌⊎◌, Bool,
  true, false, ◌&&◌, ◌||◌, ◌/◌, ◌^◌, Option, some, none, List, [], ◌∷◌, ◌++◌, arith, ltb, ◌==◌,
  if◌then◌else◌, put, put_ne, put_self, ℕ_discrete, dec_lt, copy, field_of, with_field,
  with_field-lt, field_of-with_field, field_of-put, length, Bool-cases, word_size, leb,
}

-- `memsetw`: `count` words from index `i` on
unfoldable pub memsetw : (count i val : ℕ) → (ℕ → ℕ) → ℕ → ℕ
memsetw zero i val dest = dest
memsetw (suc count) i val dest = memsetw count (i + 1) val (put dest i val)

-- `strlen` of the string at index `i`, on fuel
unfoldable pub strlen : ℕ → (ℕ → ℕ) → ℕ → Option ℕ
strlen zero str i = none
strlen (suc fuel) str i =
    let rest = strlen fuel str (i + 1) in
    if str i == 0 then some 0 else Option.map (λ len. len + 1) rest

-- The first loop of `uint2str`, with `k` rounds left at index `i`: the digits, the lowest first
unfoldable pub digits : (k i num : ℕ) → (ℕ → ℕ) → ℕ → ℕ
digits zero i num temp = temp
digits (suc k) i num temp = digits k (i + 1) (num / 10) (put temp i (num % 10 + 48))

-- The second loop: down from `i` over zeros; `temp[0]` is no zero digit.
unfoldable pub skip_zeros : (ℕ → ℕ) → ℕ → ℕ
skip_zeros temp zero = zero
skip_zeros temp (suc i) = let rest = skip_zeros temp i in if temp (suc i) == 48 then rest else suc i

-- The last loop: `temp[i]` down to `temp[0]`, to index `at` on
unfoldable pub copy_down : (temp : ℕ → ℕ) → (i at : ℕ) → (ℕ → ℕ) → ℕ → ℕ
copy_down temp zero at str = put str at (temp 0)
copy_down temp (suc i) at str = copy_down temp i (at + 1) (put str at (temp (suc i)))

-- `raw` is what the array `temp` held.
unfoldable pub uint2str : (raw : ℕ → ℕ) → ℕ → (ℕ → ℕ) → ℕ → ℕ
uint2str raw num str =
    let temp = digits 10 1 num (put raw 0 0) in
    let i = skip_zeros temp 10 in copy_down temp (if i == 0 then 1 else i) 0 str
