-- ===== src/Driver/Arith.antt =====
-- Floating-point arithmetic, which the C compiler and the processor give. A value of `F` is a double;
-- `f32` rounds one to a float, so that an operation of floats is the rounded operation.
pub mod Whole
use flexi_ninja.Prelude.{ℕ, Bool, word, ◌+◌, ◌-◌, ◌*◌, ◌^◌, ◌≤◌, ◌<◌, ◌≡◌}
use flexi_ninja.Prelude.Int.{ℤ, pos, negsuc, pos_part, neg_part, ◌+ℤ◌, ◌-ℤ◌, ltb_ℤ, ◌≤ℤ◌}

pub record Arith : Type 1 where
  pub F : Type 0
  pub of_int : ℤ → F
  pub lit : ℕ → ℕ → F  -- the constant nearest to a quotient
  pub f32 : F → F
  pub add : F → F → F
  pub sub : F → F → F
  pub mul : F → F → F
  pub div : F → F → F
  pub fabs : F → F
  pub fmax : F → F → F
  pub round : F → F
  pub lt : F → F → Bool
  pub to_i64 : F → ℤ
  pub to_i32 : F → ℤ
  pub to_u32 : F → ℕ
  pub to_u16 : F → ℕ

-- The size of a number.
abbrev pub magnitude : ℤ → ℕ
magnitude z = pos_part z + neg_part z

-- What IEEE 754 and the C standard say of whole numbers: those up to 2 ^ 24 are floats, sums,
-- differences and comparisons of small whole doubles are exact, and so are the conversions back.
-- A double past the range of int32 converts to a number out of reach of the step limit: x86 gives
-- INT32_MIN, ARM the nearest bound.
pub record IsExact (ar : Arith) : Type 1 where
  pub f32_exact : (z : ℤ) → magnitude z ≤ 16777216 → ar.f32 (ar.of_int z) ≡ ar.of_int z
  pub add_exact :
      (a b : ℤ)
      → magnitude a ≤ 2 ^ 52
      → magnitude b ≤ 2 ^ 52
      → ar.add (ar.of_int a) (ar.of_int b) ≡ ar.of_int (a +ℤ b)
  pub sub_exact :
      (a b : ℤ)
      → magnitude a ≤ 2 ^ 52
      → magnitude b ≤ 2 ^ 52
      → ar.sub (ar.of_int a) (ar.of_int b) ≡ ar.of_int (a -ℤ b)
  pub lt_exact :
      (a b : ℤ)
      → magnitude a ≤ 2 ^ 52
      → magnitude b ≤ 2 ^ 52
      → ar.lt (ar.of_int a) (ar.of_int b) ≡ ltb_ℤ a b
  pub mul_exact :
      (a b : ℕ)
      → a * b ≤ 2 ^ 52
      → ar.mul (ar.of_int (pos a)) (ar.of_int (pos b)) ≡ ar.of_int (pos (a * b))
  pub lit_exact : (a : ℕ) → a ≤ 2 ^ 52 → ar.lit a 1 ≡ ar.of_int (pos a)
  pub to_u32_exact : (n : ℕ) → n < word → ar.to_u32 (ar.of_int (pos n)) ≡ n
  pub to_i32_exact : (z : ℤ) → magnitude z < 2 ^ 31 → ar.to_i32 (ar.of_int z) ≡ z
  pub to_i32_far : (z : ℤ) → 2 ^ 31 ≤ magnitude z → 1023 < magnitude (ar.to_i32 (ar.of_int z))
  pub to_i32_range :
      (x : ar.F) → (negsuc (2 ^ 31 - 1) ≤ℤ ar.to_i32 x) × (ar.to_i32 x ≤ℤ pos (2 ^ 31 - 1))
