-- ===== src/Base/Bits.antt =====
-- The low byte of a number, as the mask 0xff keeps it.
use Prim.Native.Nat.{ℕ, zero, suc, ◌+◌, ◌*◌, ◌/◌, ◌%◌, ◌≤◌, min, bit_and, digits, bit_and-bitwise}
use mathlib.Core.Path.{◌≡◌, refl, sym, ap, ◌∙◌}
use native.Mathlib.Omega.{arith}

-- `bit_and` with as many digits to go as asked for
abbrev and_digits : ℕ → ℕ → ℕ → ℕ
and_digits = digits (λ b. zero) min

and_digits-none : (n b : ℕ) → and_digits n 0 b ≡ 0
and_digits-none zero b = refl
and_digits-none (suc n) b = refl

and_digits-zero : (n a : ℕ) → and_digits n a 0 ≡ 0
and_digits-zero zero a = refl
and_digits-zero (suc n) zero = refl
and_digits-zero (suc n) (suc a) = omega (arith, and_digits-zero n (suc a / 2))

-- The lowest digit
and_digits-suc :
    (n a b : ℕ) → and_digits (suc n) a b ≡ and_digits n (a / 2) (b / 2) * 2 + min (a % 2) (b % 2)
and_digits-suc n zero b = omega (arith, and_digits-none n (b / 2))
and_digits-suc n (suc a) b = refl

-- More digits to go than the number has do not matter.
and_digits_enough : (extra n a b : ℕ) → a ≤ n → and_digits (n + extra) a b ≡ and_digits n a b
and_digits_enough extra zero zero b h = and_digits-none (0 + extra) b
and_digits_enough extra zero (suc a) b h = absurd (omega arith)
and_digits_enough extra (suc n) a b h =
    let one_more : suc n + extra ≡ suc (n + extra) = omega arith in
    let rest = and_digits_enough extra n (a / 2) (b / 2) (omega arith) in
    rw one_more (and_digits-suc (n + extra) a b ∙ (omega (arith, rest, and_digits-suc n a b)))

bit_and-and_digits : (a b : ℕ) → bit_and a b ≡ and_digits (a + 8) a b
bit_and-and_digits a b = simp bit_and-bitwise (sym (and_digits_enough 8 a a b (omega arith)))

and_digits-odd :
    (n a b : ℕ) → b % 2 ≡ 1 → and_digits (suc n) a b ≡ and_digits n (a / 2) (b / 2) * 2 + a % 2
and_digits-odd n a b odd = omega (arith, and_digits-suc n a b)

-- Masks of one digit, two digits, and so on
byte_of_digits :
    (n a : ℕ) → and_digits (suc (suc (suc (suc (suc (suc (suc (suc n)))))))) a 0xff ≡ a % 256
byte_of_digits n a =
    let low1 : (x : ℕ) → and_digits (suc n) x 1 ≡ x % 2 =
      λ x. omega (arith, and_digits-odd (n) x 1 refl, and_digits-zero n (x / 2)) in
    let low2 : (x : ℕ) → and_digits (suc (suc n)) x 3 ≡ x % 4 =
      λ x. omega (arith, and_digits-odd (suc n) x 3 refl, low1 (x / 2)) in
    let low3 : (x : ℕ) → and_digits (suc (suc (suc n))) x 7 ≡ x % 8 =
      λ x. omega (arith, and_digits-odd (suc (suc n)) x 7 refl, low2 (x / 2)) in
    let low4 : (x : ℕ) → and_digits (suc (suc (suc (suc n)))) x 15 ≡ x % 16 =
      λ x. omega (arith, and_digits-odd (suc (suc (suc n))) x 15 refl, low3 (x / 2)) in
    let low5 : (x : ℕ) → and_digits (suc (suc (suc (suc (suc n))))) x 31 ≡ x % 32 =
      λ x. omega (arith, and_digits-odd (suc (suc (suc (suc n)))) x 31 refl, low4 (x / 2)) in
    let low6 : (x : ℕ) → and_digits (suc (suc (suc (suc (suc (suc n)))))) x 63 ≡ x % 64 =
      λ x. omega (arith, and_digits-odd (suc (suc (suc (suc (suc n))))) x 63 refl, low5 (x / 2)) in
    let low7 : (x : ℕ) → and_digits (suc (suc (suc (suc (suc (suc (suc n))))))) x 127 ≡ x % 128 =
      λ x.
        omega
          (arith, and_digits-odd (suc (suc (suc (suc (suc (suc n)))))) x 127 refl, low6 (x / 2)) in
    omega
      (arith, and_digits-odd (suc (suc (suc (suc (suc (suc (suc n))))))) a 255 refl, low7 (a / 2))

-- The mask 0xff keeps the remainder by 256.
pub bit_and-byte : (a : ℕ) → bit_and a 0xff ≡ a % 256
bit_and-byte a =
    let eight : a + 8 ≡ suc (suc (suc (suc (suc (suc (suc (suc a))))))) = omega arith in
    bit_and-and_digits a 0xff ∙ ap (λ n. and_digits n a 0xff) eight ∙ byte_of_digits a a
