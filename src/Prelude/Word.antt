-- ===== src/Prelude/Word.antt =====
-- Fixed-width words of C as native numbers: a cast is a remainder. A signed 32-bit value is its bit
-- pattern, so that sums wrap as they do on the machines; `signed32` is the number that it stands for.
use Prim.Native.Nat.{ℕ, ◌+◌, ◌-◌, ◌*◌, ◌/◌, ◌%◌, ◌^◌, ◌<◌}
use mathlib.Core.Path.{◌≡◌}
use mathlib.Core.Bool.{Bool}
use native.Mathlib.Omega.{arith}
use flexi_ninja.Prelude.Tests.{ltb}

abbrev pub u8 : ℕ → ℕ
u8 n = n % 256

abbrev pub u16 : ℕ → ℕ
u16 n = n % 65536

abbrev pub u32 : ℕ → ℕ
u32 n = n % 4294967296

-- 2 ^ 32
abbrev pub word : ℕ
word = 4294967296

abbrev pub add32 : ℕ → ℕ → ℕ
add32 a b = u32 (a + b)

-- `a - b`; 2 ^ 32 is added first, since `-` on ℕ stops at 0.
abbrev pub sub32 : ℕ → ℕ → ℕ
sub32 a b = u32 (a + word - b)

-- `-a` in 32 bits.
abbrev pub neg32 : ℕ → ℕ
neg32 a = sub32 0 a

-- The sign bit of a 32-bit pattern.
abbrev pub is_neg32 : ℕ → Bool
is_neg32 w = ltb 2147483647 w

infixl 75 ◌<<<◌ ◌>>>◌
abbrev pub ◌<<<◌ : ℕ → ℕ → ℕ
x <<< k = x * 2 ^ k

abbrev pub ◌>>>◌ : ℕ → ℕ → ℕ
x >>> k = x / 2 ^ k

pub sub32-add32 : (a b : ℕ) → a < word → b < word → sub32 (add32 a b) b ≡ a
sub32-add32 a b ha hb = omega arith

pub add32-sub32 : (a b : ℕ) → a < word → b < word → add32 (sub32 a b) b ≡ a
add32-sub32 a b ha hb = omega arith
