-- ===== src/Driver/Arith/Whole.antt =====
-- An arithmetic of whole numbers, which meets what `IsExact` asks for: the theorems that take it
-- speak of something, and their tests compute.
use flexi_ninja.Prelude.{ℕ, refl, ap, arith, ltb, u16, u32, ◌-◌, ◌*◌, ◌/◌, ◌^◌, ◌≤◌, ◌≡◌}
use flexi_ninja.Prelude.{if◌then◌else◌}
use flexi_ninja.Prelude.Int.{ℤ, pos, negsuc, pos_part, ◌+ℤ◌, ◌-ℤ◌, ◌*ℤ◌, ltb_ℤ, ◌≤ℤ◌}
use flexi_ninja.Driver.Arith.{Arith, IsExact, magnitude}

-- Whole numbers, with a division that cuts and a conversion to int32 that sticks at its end.
abbrev pub whole_i32 : ℤ → ℤ
whole_i32 z = if ltb (magnitude z) 2147483648 then z else pos 2147483647

abbrev pub whole : Arith
whole = record {
  F = ℤ;
  of_int = λ z. z;
  lit = λ a b. pos (a / b);
  f32 = λ x. x;
  add = λ a b. a +ℤ b;
  sub = λ a b. a -ℤ b;
  mul = λ a b. a *ℤ b;
  div = λ a b. pos (magnitude a / magnitude b);
  fabs = λ a. pos (magnitude a);
  fmax = λ a b. if ltb_ℤ a b then b else a;
  round = λ a. a;
  lt = λ a b. ltb_ℤ a b;
  to_i64 = λ a. a;
  to_i32 = whole_i32;
  to_u32 = λ a. u32 (pos_part a);
  to_u16 = λ a. u16 (pos_part a);
}

whole_i32_range : (z : ℤ) → (negsuc (2 ^ 31 - 1) ≤ℤ whole_i32 z) × (whole_i32 z ≤ℤ pos (2 ^ 31 - 1))
whole_i32_range (pos n) = (ground arith, ground arith)
whole_i32_range (negsuc n) = (ground arith, ground arith)

whole_mul : (a b : ℕ) → a * b ≤ 2 ^ 52 → pos a *ℤ pos b ≡ pos (a * b)
unfolding ◌*ℤ◌
whole_mul a b h = ground arith

whole_lit : (a : ℕ) → a ≤ 2 ^ 52 → pos (a / 1) ≡ pos a
whole_lit a h = let e : a / 1 ≡ a = omega arith in ap pos e

pub whole-IsExact : IsExact whole
whole-IsExact = record {
  f32_exact = λ z h. refl;
  add_exact = λ a b h k. refl;
  sub_exact = λ a b h k. refl;
  lt_exact = λ a b h k. refl;
  mul_exact = whole_mul;
  lit_exact = whole_lit;
  to_u32_exact = λ n h. omega arith;
  to_i32_exact = λ z h. ground arith;
  to_i32_far = λ z h. ground arith;
  to_i32_range = whole_i32_range;
}
