-- ===== src/Utils/Digits.antt =====
-- MP7_Sources/utils.C: `uint2str` writes a number in the decimal system.
use csce410_611_spring2026_p.Utils.{digits, skip_zeros, copy_down, uint2str}
use csce410_611_spring2026_p.Base.{
  ℕ, zero, suc, ◌+◌, ◌-◌, ◌*◌, ◌%◌, ◌<◌, ◌≤◌, ◌≡◌, ◌≢◌, refl, sym, ap, ◌∙◌, inl, inr, ◌⊎◌, false,
  ◌&&◌, ◌/◌, arith, ◌==◌, if◌then◌else◌, put, put_self, ℕ_discrete, Bool-cases, word_size, leb,
}

-- `num` without its last `k` digits
abbrev pub quotient : (k num : ℕ) → ℕ
quotient zero num = num
quotient (suc k) num = quotient k (num / 10)

quotient-suc : (k num : ℕ) → quotient (suc k) num ≡ quotient k num / 10
quotient-suc zero num = refl
quotient-suc (suc k) num = quotient-suc k (num / 10)

-- The number that the first `k` characters write
abbrev pub value : (ℕ → ℕ) → ℕ → ℕ
value str zero = 0
value str (suc k) = value str k * 10 + (str k - 48)

digits-before : (k i num : ℕ) (temp : ℕ → ℕ) (j : ℕ) → j < i → digits k i num temp j ≡ temp j
unfolding digits
digits-before zero i num temp j h = refl
digits-before (suc k) i num temp j h =
    digits-before k (i + 1) (num / 10) (put temp i (num % 10 + 48)) j (omega arith) ∙ ground arith

digits-at :
    (k i num : ℕ) (temp : ℕ → ℕ) (j : ℕ)
    → j < k
    → digits k i num temp (i + j) ≡ quotient j num % 10 + 48
unfolding digits
digits-at zero i num temp j h = absurd (omega arith)
digits-at (suc k) i num temp zero h =
    let at : i + 0 ≡ i = omega arith in
    rw at (
      digits-before k (i + 1) (num / 10) (put temp i (num % 10 + 48)) i (omega arith)
      ∙ put_self temp i (num % 10 + 48))
digits-at (suc k) i num temp (suc j) h =
    let at : i + suc j ≡ i + 1 + j = omega arith in
    rw at (digits-at k (i + 1) (num / 10) (put temp i (num % 10 + 48)) j (omega arith))

-- The first index from above whose digit is not zero, above which nothing is left of the number
skip_zeros-quotient :
    (num : ℕ) (temp : ℕ → ℕ) (i : ℕ)
    → ((j : ℕ) → j < i → temp (suc j) ≡ quotient j num % 10 + 48)
    → quotient i num ≡ 0
    → let top = skip_zeros temp i in
      (top ≤ i) × (quotient top num ≡ 0) × ((top ≡ 0) ⊎ (temp top ≢ 48))
unfolding skip_zeros
skip_zeros-quotient num temp zero at none_left = (omega arith, none_left, inl refl)
skip_zeros-quotient num temp (suc i) at none_left = elim (Bool-cases (temp (suc i) == 48)) [
  | inl z ↦
      (let digit : quotient i num % 10 ≡ 0 = ground (arith, at i (omega arith)) in
        let rest : quotient i num ≡ 0 = omega (arith, quotient-suc i num) in
        let (le, left, top) = skip_zeros-quotient num temp i (λ j h. at j (omega arith)) rest in
        rw z (omega arith, left, top))
  | inr n ↦ rw n (omega arith, none_left, inr (ground arith))
]

-- What stands behind the last loop
copy_down-at :
    (temp : ℕ → ℕ) (i at : ℕ) (str : ℕ → ℕ) (j : ℕ)
    → copy_down temp i at str j ≡ (if leb at j && leb j (at + i) then temp (at + i - j) else str j)
unfolding copy_down
copy_down-at temp zero at str j = elim (ℕ_discrete at j) [
  | yes e ↦ (let here : at + 0 - j ≡ 0 = omega arith in ground (arith, ap temp here))
  | no ne ↦ ground arith
]
copy_down-at temp (suc i) at str j =
    let rest = copy_down-at temp i (at + 1) (put str at (temp (suc i))) j in
    let moved : at + 1 + i - j ≡ at + suc i - j = omega arith in
    elim (ℕ_discrete at j) [
      | yes e ↦
          (let here : at + suc i - j ≡ suc i = omega arith in ground (arith, rest, ap temp here))
      | no ne ↦ ground (arith, rest, ap temp moved)
    ]

-- The string that `uint2str` writes
pub record Decimal (num : ℕ) (before str : ℕ → ℕ) (len : ℕ) : Type 0 where
  pub some_digit : 0 < len
  pub short : len ≤ 10
  pub writes : value str len ≡ num
  pub is_digit : (j : ℕ) → j < len → (48 ≤ str j) × (str j ≤ 57)
  pub no_zero_first : (len ≡ 1) ⊎ (str 0 ≢ 48)
  pub ended : str len ≡ 0
  pub outside : (j : ℕ) → len < j → str j ≡ before j

-- The digits in `temp`, copied from `len` down
module _ (num len : ℕ) (temp before : ℕ → ℕ) (pos : 0 < len) (short : len ≤ 10)
    (none_left : quotient len num ≡ 0)
    (at : (j : ℕ) → j < 10 → temp (suc j) ≡ quotient j num % 10 + 48) (zeroth : temp 0 ≡ 0)
    (first : (len ≡ 1) ⊎ (temp len ≢ 48)) where
  abbrev copied : ℕ → ℕ
  copied = copy_down temp len 0 before

  copied-at : (j : ℕ) → j ≤ len → copied j ≡ temp (len - j)
  copied-at j h =
      copy_down-at temp len 0 before j
      ∙ (let same : 0 + len - j ≡ len - j = omega arith in ground (arith, ap temp same))

  copied-digit : (j : ℕ) → j < len → copied j ≡ quotient (len - suc j) num % 10 + 48
  copied-digit j h =
      let behind : len - j ≡ suc (len - suc j) = omega arith in
      copied-at j (omega arith) ∙ ap temp behind ∙ at (len - suc j) (omega arith)

  copied-value : (j : ℕ) → j ≤ len → value copied j ≡ quotient (len - j) num
  copied-value zero h = let all : len - 0 ≡ len = omega arith in rw all (sym none_left)
  copied-value (suc j) h =
      let behind : len - j ≡ suc (len - suc j) = omega arith in
      omega (
        arith,
        copied-value j (omega arith),
        copied-digit j (omega arith),
        quotient-suc (len - suc j) num,
        ap (λ k. quotient k num) behind,
      )

  copied-Decimal : Decimal num before copied len
  copied-Decimal =
      let none : len - len ≡ 0 = omega arith in
      let whole : len ≡ len - 0 = omega arith in
      record {
        some_digit = pos;
        short = short;
        writes = copied-value len (omega arith) ∙ ap (λ k. quotient k num) none;
        is_digit = λ j h. (omega (arith, copied-digit j h), omega (arith, copied-digit j h));
        no_zero_first = elim first as (λ o. (len ≡ 1) ⊎ (copied 0 ≢ 48)) [
          | inl one ↦ inl one
          | inr ne ↦ inr (λ e. ne (ap temp whole ∙ sym (copied-at 0 (omega arith)) ∙ e))
        ];
        ended = copied-at len (omega arith) ∙ ap temp none ∙ zeroth;
        outside = λ j h. copy_down-at temp len 0 before j ∙ ground arith;
      }

after_zeros-Decimal :
    (num i : ℕ) (temp before : ℕ → ℕ)
    → i ≤ 10
    → quotient i num ≡ 0
    → (i ≡ 0) ⊎ (temp i ≢ 48)
    → ((j : ℕ) → j < 10 → temp (suc j) ≡ quotient j num % 10 + 48)
    → temp 0 ≡ 0
    → (len : ℕ) × Decimal num before (copy_down temp (if i == 0 then 1 else i) 0 before) len
after_zeros-Decimal num zero temp before le none_left first at zeroth = (
  1,
  copied-Decimal num 1 temp before (omega arith) (omega arith) (omega (arith, quotient-suc 0 num))
      at zeroth (inl refl),
)
after_zeros-Decimal num (suc i) temp before le none_left (inl e) at zeroth = absurd (omega arith)
after_zeros-Decimal num (suc i) temp before le none_left (inr ne) at zeroth =
    let nonzero : (suc i == 0) ≡ false = ground arith in
    (
      suc i,
      rw nonzero
          (copied-Decimal num (suc i) temp before (omega arith) le none_left at zeroth (inr ne)),
    )

-- A number of 32 bits: `uint2str` writes its decimal digits, no zero first unless it is the only one, then a 0.
pub uint2str-Decimal :
    (raw before : ℕ → ℕ) (num : ℕ)
    → num < word_size
    → (len : ℕ) × Decimal num before (uint2str raw num before) len
unfolding uint2str
uint2str-Decimal raw before num fits =
    let temp = digits 10 1 num (put raw 0 0) in
    let zeroth : temp 0 ≡ 0 =
      digits-before 10 1 num (put raw 0 0) 0 (omega arith) ∙ put_self raw 0 0 in
    let at : (j : ℕ) → j < 10 → temp (suc j) ≡ quotient j num % 10 + 48 = λ j h.
      let next : suc j ≡ 1 + j = omega arith in
      ap temp next ∙ digits-at 10 1 num (put raw 0 0) j h in
    let top = skip_zeros-quotient num temp 10 at (omega arith) in
    after_zeros-Decimal num (skip_zeros temp 10) temp before top.0 top.1 top.2 at zeroth
