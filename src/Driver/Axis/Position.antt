-- ===== src/Driver/Axis/Position.antt =====
-- Position mode follows the commanded position: never past it, and at full speed until it is there.
use flexi_ninja.Prelude.{ℕ, zero, suc, refl, sym, inl, inr, true, false, arith, dec_lt, ltb}
use flexi_ninja.Prelude.{Bool-cases, ◌+◌, ◌-◌, ◌*◌, ◌^◌, ◌≤◌, ◌<◌, ◌≡◌, ◌∙◌, if◌then◌else◌}
use flexi_ninja.Prelude.Int.{
  ℤ, pos, negsuc, pos_part, neg_part, ◌+ℤ◌, ◌-ℤ◌, ltb_ℤ, +ℤ_parts, -ℤ_parts, eq_of_parts,
}
use flexi_ninja.Driver.Arith.{Arith, IsExact, magnitude}
use flexi_ninja.Driver.Axis.{Axis, step_count, move_toward}

-- The steps that are left.
abbrev pub gap : ℤ → ℤ → ℕ
gap a b = magnitude (a -ℤ b)

-- The limit is that of a period.
abbrev pub at_most_1023 : ℕ → ℕ
at_most_1023 n = if ltb 1023 n then 1023 else n

step_count-magnitude : (z : ℤ) → step_count z ≡ at_most_1023 (magnitude z)
unfolding step_count
step_count-magnitude (pos n) = ground arith
step_count-magnitude (negsuc n) = ground arith

far_count : (z : ℤ) → 1023 < magnitude z → step_count z ≡ 1023
far_count z h = rw (step_count-magnitude z) (ground arith)

far_limit : (n : ℕ) → 2 ^ 31 ≤ n → at_most_1023 n ≡ 1023
far_limit n h = ground arith

pub gap_lem :
    (a b : ℤ)
    → gap a b
      ≡ (pos_part a + neg_part b - (pos_part b + neg_part a))
        + (pos_part b + neg_part a - (pos_part a + neg_part b))
unfolding ◌-ℤ◌
gap_lem a b = ground arith

up :
    (p c : ℤ) (n : ℕ)
    → n ≡ at_most_1023 (gap p c)
    → ltb_ℤ p c ≡ true
    → gap (p +ℤ pos n) c ≡ gap p c - 1023
up p c n hn h = ground (arith, gap_lem p c, gap_lem (p +ℤ pos n) c, +ℤ_parts p (pos n))

down :
    (p c : ℤ) (n : ℕ)
    → n ≡ at_most_1023 (gap p c)
    → ltb_ℤ p c ≡ false
    → gap (p -ℤ pos n) c ≡ gap p c - 1023
down p c n hn h = ground (arith, gap_lem p c, gap_lem (p -ℤ pos n) c, -ℤ_parts p (pos n))

pub gap_self : (c : ℤ) → gap c c ≡ 0
gap_self c = omega (arith, gap_lem c c)

module _ (ar : Arith) (ex : IsExact ar) where
  -- The conversion to int32 loses nothing that the limit leaves.
  pub step_count-gap :
      (p c : ℤ) → step_count (ar.to_i32 (ar.of_int (p -ℤ c))) ≡ at_most_1023 (gap p c)
  step_count-gap p c = elim (dec_lt (gap p c) (2 ^ 31)) [
    | yes h ↦ rw (ex.to_i32_exact (p -ℤ c) h) (step_count-magnitude (p -ℤ c))
    | no h ↦
        let far : 2 ^ 31 ≤ gap p c = omega arith in
        far_count (ar.to_i32 (ar.of_int (p -ℤ c))) (ex.to_i32_far (p -ℤ c) far)
        ∙ sym (far_limit (gap p c) far)
  ]

  -- One period in position mode: the axis takes as many steps as are left, or 1023; it takes them
  -- toward the commanded position, so that exactly so many fewer are left, and none if it was there.
  pub gap-move_toward :
      (timing : ℕ → ℕ) (curr : ℤ) (a : Axis ar)
      → let a' = (move_toward ar timing curr a).1 in
        (gap a'.prev_pos curr ≡ gap a.prev_pos curr - 1023) × (a'.curr_pos ≡ curr)
  unfolding move_toward
  gap-move_toward timing curr a =
      let n = step_count (ar.to_i32 (ar.of_int (a.prev_pos -ℤ curr))) in
      let hn = step_count-gap a.prev_pos curr in
      elim (Bool-cases (ltb 0 n)) [
        | inl some_left ↦ elim (Bool-cases (ltb_ℤ a.prev_pos curr)) [
          | inl below ↦ rw (some_left, below) (up a.prev_pos curr n hn below, refl)
          | inr above ↦ rw (some_left, above) (down a.prev_pos curr n hn above, refl)
        ]
        | inr none_left ↦ rw none_left (gap_self curr ∙ ground arith, refl)
      ]

  -- `n` periods with the same commanded position.
  abbrev pub hold : (ℕ → ℕ) → ℤ → ℕ → Axis ar → Axis ar
  hold timing curr zero a = a
  hold timing curr (suc n) a = hold timing curr n (move_toward ar timing curr a).1

  gap-hold :
      (timing : ℕ → ℕ) (curr : ℤ) (n : ℕ) (a : Axis ar)
      → gap a.prev_pos curr ≤ n * 1023
      → gap (hold timing curr n a).prev_pos curr ≡ 0
  gap-hold timing curr zero a h = omega arith
  gap-hold timing curr (suc n) a h =
      let step = gap-move_toward timing curr a in
      gap-hold timing curr n (move_toward ar timing curr a).1 (omega (arith, step.0))

  -- In position mode the driver gets there: while the commanded position stays, as many periods as
  -- 1023 goes into the steps left bring the driver's position onto it.
  pub hold_reaches :
      (timing : ℕ → ℕ) (curr : ℤ) (n : ℕ) (a : Axis ar)
      → gap a.prev_pos curr ≤ n * 1023
      → (hold timing curr n a).prev_pos ≡ curr
  hold_reaches timing curr n a h =
      let z = (hold timing curr n a).prev_pos in
      eq_of_parts z curr (omega (arith, gap_lem z curr, gap-hold timing curr n a h))
