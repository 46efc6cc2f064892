-- ===== src/Base/Words.antt =====
-- 32-bit words: the type of `int`, `long`, `unsigned` and of pointers on the target. A word is a
-- number below 2 ^ 32; as an `int` it is negative from 2 ^ 31 on.
use Prim.Native.Nat.{ℕ, ◌+◌, ◌*◌, ◌/◌, ◌%◌, ◌^◌, ◌<◌}
use mathlib.Core.Path.{◌≡◌}
use mathlib.Core.Bool.{Bool}
use native.Mathlib.Omega.{arith}
use csce410_611_spring2026_p.Base.Tests.{ltb}

abbrev pub word_size : ℕ
word_size = 2 ^ 32

-- `-1` as a word
abbrev pub minus_one : ℕ
minus_one = 0xffff_ffff

-- `x >= 0` for an `int`
abbrev pub non_negative : ℕ → Bool
non_negative w = ltb w 0x8000_0000

-- `(unsigned char)((w >> (b * 8)) & 0xFF)`
abbrev pub byte_of : ℕ → ℕ → ℕ
byte_of w b = w / 2 ^ (8 * b) % 256

-- `w |= buf[at + b] << (b * 8)` for `b` from 0 to 3. The four bytes share no bit, so `|` is `+`.
abbrev pub word_at : (ℕ → ℕ) → ℕ → ℕ
word_at buf at = buf at + 256 * buf (at + 1) + 65536 * buf (at + 2) + 16777216 * buf (at + 3)

-- A word read from its four bytes is the word.
pub word_at-byte_of :
    (buf : ℕ → ℕ) (at w : ℕ)
    → w < word_size
    → buf at ≡ byte_of w 0
    → buf (at + 1) ≡ byte_of w 1
    → buf (at + 2) ≡ byte_of w 2
    → buf (at + 3) ≡ byte_of w 3
    → word_at buf at ≡ w
word_at-byte_of buf at w h e₀ e₁ e₂ e₃ = omega arith
