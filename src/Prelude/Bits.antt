-- ===== src/Prelude/Bits.antt =====
-- Single bits of a mask: `|= 1 << i` and `(m >> i) & 1` at variables.
use Prim.Native.Nat.{ℕ, zero, suc, ◌+◌, ◌-◌, ◌*◌, ◌/◌, ◌%◌, ◌^◌, ◌≤◌, ◌<◌, max, bit_or}
use Prim.Native.Nat.{digits, bit_or-bitwise}
use mathlib.Core.Path.{◌≡◌, refl, ap, ◌∙◌, sym}
use mathlib.Core.Bool.{Bool, true, false}
use native.Mathlib.Omega.{arith}
use native.Mathlib.Nat.{pow-suc, pow-succ', div-div-eq-div-mul}
use flexi_ninja.Prelude.Tests.{◌==◌, if◌then◌else◌}

-- `(m >> i) & 1`
abbrev pub bit_at : ℕ → ℕ → ℕ
bit_at m i = m / 2 ^ i % 2

-- `m & (1 << i)` as a condition
abbrev pub test_bit : ℕ → ℕ → Bool
test_bit m i = bit_at m i == 1

-- `m | (1 << i)`
abbrev pub set_bit : ℕ → ℕ → ℕ
set_bit m i = bit_or m (2 ^ i)

-- `m & ~(1 << i)`: the bit is taken off where it is on.
abbrev pub clear_bit : ℕ → ℕ → ℕ
clear_bit m i = m - bit_at m i * 2 ^ i

-- `1 * b` for a condition
abbrev pub from_bool : Bool → ℕ
from_bool true = 1
from_bool false = 0

or_digits : ℕ → ℕ → ℕ → ℕ
or_digits n a b = digits (λ y. y) max n a b

or_digits_enough : (n m a b : ℕ) → a ≤ n → a ≤ m → or_digits n a b ≡ or_digits m a b
unfolding or_digits
or_digits_enough zero zero zero b p q = refl
or_digits_enough zero (suc m) zero b p q = refl
or_digits_enough (suc n) zero zero b p q = refl
or_digits_enough (suc n) (suc m) zero b p q = refl
or_digits_enough zero m (suc a) b p q = absurd (omega arith)
or_digits_enough (suc n) zero (suc a) b p q = absurd (omega arith)
or_digits_enough (suc n) (suc m) (suc a) b p q =
    ap (λ (t : ℕ). t * 2 + max (suc a % 2) (b % 2))
      (or_digits_enough n m (suc a / 2) (b / 2) (omega arith) (omega arith))

zero-bit_or : (b : ℕ) → bit_or 0 b ≡ b
zero-bit_or b = bit_or-bitwise 0 b

-- `|` by its lowest digit.
pub bit_or_halves : (a b : ℕ) → bit_or a b ≡ bit_or (a / 2) (b / 2) * 2 + max (a % 2) (b % 2)
unfolding or_digits
bit_or_halves zero b = omega (arith, zero-bit_or b, zero-bit_or (b / 2))
bit_or_halves (suc a) b = omega (
  arith,
  bit_or-bitwise (suc a) b,
  bit_or-bitwise (suc a / 2) (b / 2),
  or_digits_enough a (suc a / 2) (suc a / 2) (b / 2) (omega arith) (omega arith),
)

bit_or-zero_below : (n a : ℕ) → a ≤ n → bit_or a 0 ≡ a
bit_or-zero_below n zero h = refl
bit_or-zero_below zero (suc a) h = absurd (omega arith)
bit_or-zero_below (suc n) (suc a) h =
    omega (arith, bit_or_halves (suc a) 0, bit_or-zero_below n (suc a / 2) (omega arith))

pub bit_or-zero : (a : ℕ) → bit_or a 0 ≡ a
bit_or-zero a = bit_or-zero_below a a (omega arith)

double-pow : (q k : ℕ) → q * 2 ^ suc k ≡ 2 * (q * 2 ^ k)
double-pow q k = omega (arith, ap (λ (t : ℕ). q * t) (pow-suc 2 k))

half-div : (m k : ℕ) → m / 2 ^ suc k ≡ m / 2 / 2 ^ k
half-div m k = rw (div-div-eq-div-mul, ← pow-succ')

-- `(q << k) | r` is a sum when `r` fits `k` bits.
pub bit_or_sum : (k q r : ℕ) → r < 2 ^ k → bit_or (q * 2 ^ k) r ≡ q * 2 ^ k + r
bit_or_sum zero q r fits = ground (arith, bit_or-zero q)
bit_or_sum (suc k) q r fits = ground (
  arith,
  bit_or_halves (q * 2 ^ suc k) r,
  double-pow q k,
  pow-suc 2 k,
  bit_or_sum k q (r / 2) (omega (arith, pow-suc 2 k)),
)

set_bit-zero : (m : ℕ) → set_bit m 0 ≡ m / 2 * 2 + 1
set_bit-zero m = omega (arith, bit_or_halves m 1, bit_or-zero (m / 2))

set_bit-suc : (m i : ℕ) → set_bit m (suc i) ≡ set_bit (m / 2) i * 2 + m % 2
set_bit-suc m i =
    let half : 2 ^ suc i / 2 ≡ 2 ^ i = omega (arith, pow-suc 2 i) in
    let even : 2 ^ suc i % 2 ≡ 0 = omega (arith, pow-suc 2 i) in
    bit_or_halves m (2 ^ suc i) ∙ rw (half, even) (omega arith)

bit_at-suc : (m j : ℕ) → bit_at m (suc j) ≡ bit_at (m / 2) j
bit_at-suc m j = ap (λ (t : ℕ). t % 2) (half-div m j)

-- Setting bit `i` changes no other bit.
pub bit_at-set_bit : (m i j : ℕ) → bit_at (set_bit m i) j ≡ (if i == j then 1 else bit_at m j)
bit_at-set_bit m zero zero = rw (set_bit-zero m) (omega arith)
bit_at-set_bit m zero (suc j) =
    let same : (m / 2 * 2 + 1) / 2 ≡ m / 2 = omega arith in
    rw (set_bit-zero m, bit_at-suc (m / 2 * 2 + 1) j, same, bit_at-suc m j) (ground arith)
bit_at-set_bit m (suc i) zero = rw (set_bit-suc m i) (ground arith)
bit_at-set_bit m (suc i) (suc j) =
    let same : (set_bit (m / 2) i * 2 + m % 2) / 2 ≡ set_bit (m / 2) i = omega arith in
    rw (set_bit-suc m i, bit_at-suc (set_bit (m / 2) i * 2 + m % 2) j, same, bit_at-suc m j)
      (bit_at-set_bit (m / 2) i j ∙ ground arith)

-- Setting a bit that is off adds it.
pub set_bit-add : (m k : ℕ) → bit_at m k ≡ 0 → set_bit m k ≡ m + 2 ^ k
set_bit-add m zero h = rw (set_bit-zero m) (omega arith)
set_bit-add m (suc k) h =
    let below = set_bit-add (m / 2) k (sym (bit_at-suc m k) ∙ h) in
    set_bit-suc m k ∙ rw below (omega (arith, pow-suc 2 k))
