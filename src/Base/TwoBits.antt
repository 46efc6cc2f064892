-- ===== src/Base/TwoBits.antt =====
-- Fields of two bits in a byte, four to a byte: how the frame pools of MP2 and MP3 pack the states of frames.
use Prim.Native.Nat.{ℕ, zero, suc, ◌+◌, ◌-◌, ◌*◌, ◌/◌, ◌%◌, ◌^◌, ◌<◌, bit_and, bit_or}
use mathlib.Core.Path.{◌≡◌, refl, ap}
use native.Mathlib.Decide.{ℕ_discrete}
use csce410_611_spring2026_p.Base.Memory.{put}
use mathlib.Core.Bool.{Bool, true, ◌&&◌}
use native.Mathlib.Omega.{arith}
use csce410_611_spring2026_p.Base.Tests.{==_iff, ◌==◌, if◌then◌else◌}

-- `(byte >> shift) & 0x3`
unfoldable pub field_of : (byte shift : ℕ) → ℕ
field_of byte shift = bit_and (byte / 2 ^ shift) 0x3

-- `byte = (byte & ~(0x3 << shift)) | (value << shift)`; the complement is that of a 32-bit word.
unfoldable pub with_field : (byte shift value : ℕ) → ℕ
with_field byte shift value =
    bit_or (bit_and byte (0xffff_ffff - 0x3 * 2 ^ shift)) (value * 2 ^ shift) % 256

unfoldable pub holds_below : ℕ → (ℕ → Bool) → Bool
holds_below zero p = true
holds_below (suc n) p = p n && holds_below n p

pub holds_at : (n : ℕ) (p : ℕ → Bool) (x : ℕ) → x < n → holds_below n p ≡ true → p x ≡ true
unfolding holds_below
holds_at zero p x lt h = absurd (omega arith)
holds_at (suc n) p x lt h = ground (arith, holds_at n p x)

-- The law of fields at the byte, the value and the two places that one number packs
law : ℕ → Bool
unfolding field_of with_field
law x =
    let byte = x % 256 in
    let value = x / 256 % 4 in
    let i = x / 1024 % 4 in
    let j = x / 4096 in
    field_of (with_field byte (2 * i) value) (2 * j)
    == (if i == j then value else field_of byte (2 * j))

law_holds : holds_below 16384 law ≡ true
unfolding holds_below law
law_holds = refl

-- A field that is set is read back, and the other fields of the byte stay.
pub field_of-with_field :
    (byte value i j : ℕ)
    → byte < 256
    → value < 4
    → i < 4
    → j < 4
    → field_of (with_field byte (2 * i) value) (2 * j)
      ≡ (if i == j then value else field_of byte (2 * j))
unfolding law
field_of-with_field byte value i j hb hv hi hj =
    let x = byte + 256 * value + 1024 * i + 4096 * j in
    let byte_part : x % 256 ≡ byte = omega arith in
    let value_part : x / 256 % 4 ≡ value = omega arith in
    let i_part : x / 1024 % 4 ≡ i = omega arith in
    let j_part : x / 4096 ≡ j = omega arith in
    let checked = holds_at 16384 law x (omega arith) law_holds in
    (==_iff _ _).0 (rw (byte_part, value_part, i_part, j_part) at checked)

pub with_field-lt : (byte shift value : ℕ) → with_field byte shift value < 256
unfolding with_field
with_field-lt byte shift value = omega arith

-- A field that is set in an array of bytes
pub field_of-put :
    (bytes : ℕ → ℕ) (value i a j b : ℕ)
    → bytes i < 256
    → value < 4
    → a < 4
    → b < 4
    → field_of (put bytes i (with_field (bytes i) (2 * a) value) j) (2 * b)
      ≡ (if i == j && a == b then value else field_of (bytes j) (2 * b))
field_of-put bytes value i a j b hb hv ha hb' = elim (ℕ_discrete i j) [
  | yes e ↦ ground (
    arith,
    field_of-with_field (bytes i) value a b hb hv ha hb',
    ap (λ k. field_of (bytes k) (2 * b)) e,
  )
  | no ne ↦ ground arith
]
