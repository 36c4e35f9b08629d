-- ===== src/Driver/Eth/Steps.antt =====
-- Position mode of the two drivers: the same words, but not the same positions.
use flexi_ninja.Prelude.{ℕ, refl, sym, ap, inl, inr, Bool, true, false, arith, ltb, Bool-cases}
use flexi_ninja.Prelude.{from_bool, ◌≤◌, ◌<◌, ◌≡◌, ◌∙◌}
use flexi_ninja.Prelude.Int.{ℤ, ◌-ℤ◌, ltb_ℤ}
use flexi_ninja.Driver.Arith.{Arith, IsExact}
use flexi_ninja.Driver.Timing.{timing, fits}
use flexi_ninja.Driver.Timing.Commands.{command_word_fields}
use flexi_ninja.Driver.Axis.{Axis, step_count, changed_dir, move_toward}
use flexi_ninja.Driver.Axis.Position.{gap, gap_self, step_count-gap, gap-move_toward}
use flexi_ninja.Driver.Axis.Link.{same_of_gap}
use flexi_ninja.Firmware.Stepgen.{word_steps}
use flexi_ninja.Driver.Eth.{eth_move}

flag_lt : (b : Bool) → from_bool b < 2
flag_lt true = omega arith
flag_lt false = omega arith

changed_lt : (ar : Arith) (s l : ℕ) → changed_dir ar s l < 2
changed_lt ar s l = ground arith

module _ (ar : Arith) (ex : IsExact ar) where
  eth_move-word :
      (table : ℕ → ℕ) (curr : ℤ) (a : Axis ar)
      → (eth_move ar table curr a).0 ≡ (move_toward ar table curr a).0
  unfolding eth_move move_toward
  eth_move-word table curr a =
      elim (Bool-cases (ltb 0 (step_count (ar.to_i32 (ar.of_int (a.prev_pos -ℤ curr)))))) [
        | inl e ↦ rw e refl
        | inr e ↦ rw e refl
      ]

  eth_move-place :
      (table : ℕ → ℕ) (curr : ℤ) (a : Axis ar) → (eth_move ar table curr a).1.prev_pos ≡ curr
  unfolding eth_move
  eth_move-place table curr a =
      elim (Bool-cases (ltb 0 (step_count (ar.to_i32 (ar.of_int (a.prev_pos -ℤ curr)))))) [
        | inl e ↦ rw e refl
        | inr e ↦ rw e refl
      ]

  -- As long as no more than 1023 steps are left, the two drivers do the same for an axis in position
  -- mode: they send the same word, and take the axis to be in the same place.
  pub eth_move-move_toward :
      (table : ℕ → ℕ) (curr : ℤ) (a : Axis ar)
      → gap a.prev_pos curr ≤ 1023
      → ((eth_move ar table curr a).0 ≡ (move_toward ar table curr a).0)
        × ((eth_move ar table curr a).1.prev_pos ≡ (move_toward ar table curr a).1.prev_pos)
  eth_move-move_toward table curr a near =
      let a' = (move_toward ar table curr a).1 in
      let none_left : gap a'.prev_pos curr ≡ 0 =
        (gap-move_toward ar ex table curr a).0 ∙ omega (arith, near) in
      (
        eth_move-word table curr a,
        eth_move-place table curr a ∙ sym (same_of_gap a'.prev_pos curr none_left),
      )

  -- With more steps than a period takes, the word is of the limit.
  eth_move-limit :
      (total high : ℕ) (curr : ℤ) (a : Axis ar)
      → 1023 < gap a.prev_pos curr
      → fits ar total high 1023 ≡ true
      → word_steps (eth_move ar (timing ar total high) curr a).0 ≡ 1023
  unfolding eth_move
  eth_move-limit total high curr a far fit =
      let limit : step_count (ar.to_i32 (ar.of_int (a.prev_pos -ℤ curr))) ≡ 1023 =
        step_count-gap ar ex a.prev_pos curr ∙ ground (arith, far) in
      let sign = from_bool (ltb_ℤ a.prev_pos curr) in
      rw limit
        (command_word_fields ar total high 1023 (changed_dir ar sign a.last_dir) sign (omega arith)
          (omega arith) fit (changed_lt ar sign a.last_dir) (flag_lt (ltb_ℤ a.prev_pos curr))).0

  eth_move-still :
      (table : ℕ → ℕ) (curr : ℤ) (a : Axis ar)
      → a.prev_pos ≡ curr
      → (eth_move ar table curr a).0 ≡ 0
  unfolding eth_move
  eth_move-still table curr a here =
      let zero_gap : gap a.prev_pos curr ≡ 0 = ap (λ (p : ℤ). gap p curr) here ∙ gap_self curr in
      let none_left : step_count (ar.to_i32 (ar.of_int (a.prev_pos -ℤ curr))) ≡ 0 =
        step_count-gap ar ex a.prev_pos curr ∙ ground (arith, zero_gap) in
      rw none_left refl

  -- More than 1023 steps in a period are lost by the Ethernet driver: if 1023 fit the period, the
  -- word asks for 1023, the driver takes the axis to be at the commanded position, and in the next
  -- period, with the same command, it asks for no step.
  pub eth_move_lost :
      (total high : ℕ) (curr : ℤ) (a : Axis ar)
      → 1023 < gap a.prev_pos curr
      → fits ar total high 1023 ≡ true
      → let (w, a') = eth_move ar (timing ar total high) curr a in
        (word_steps w ≡ 1023)
        × (a'.prev_pos ≡ curr)
        × ((eth_move ar (timing ar total high) curr a').0 ≡ 0)
  eth_move_lost total high curr a far fit =
      let table = timing ar total high in
      let place = eth_move-place table curr a in
      (
        eth_move-limit total high curr a far fit,
        place,
        eth_move-still table curr (eth_move ar table curr a).1 place,
      )
