-- ===== src/Driver/Axis/Enable.antt =====
-- An axis that is switched off and on again: the driver takes it to be at the commanded position 0.
use flexi_ninja.Prelude.{ℕ, refl, ap, Bool, true, false, arith, ltb, ltb→lt, from_bool, ◌<◌, ◌≡◌}
use flexi_ninja.Prelude.{◌∙◌}
use flexi_ninja.Prelude.Int.{ℤ, pos, ltb_ℤ}
use flexi_ninja.Driver.Arith.{Arith, IsExact}
use flexi_ninja.Driver.Timing.{timing, fits}
use flexi_ninja.Driver.Timing.Commands.{command_word_fields}
use flexi_ninja.Driver.Axis.{
  Axis, Limits, offset, changed_dir, move_toward, position_mode, axis_step,
}
use flexi_ninja.Driver.Axis.Position.{gap, gap_self, at_most_1023, step_count-gap}
use flexi_ninja.Driver.Axis.Link.{limit_small}
use flexi_ninja.Firmware.Stepgen.{word_steps}

module _ (ar : Arith) where
  open ar use {of_int, f32, add, mul, to_i64}

  -- The commanded position in steps, and that of the command 0.
  abbrev pub goal : Axis ar → ℤ
  goal a = to_i64 (mul (f32 (add a.command (of_int (pos offset)))) a.scale)

  abbrev pub zero_place : Axis ar → ℤ
  zero_place a = to_i64 (mul (of_int (pos offset)) a.scale)

  -- A period off, and then one on, with nothing else changed.
  abbrev pub again : Limits ar → ℕ → Bool → Axis ar → ℕ × Axis ar × Bool
  again limits i reset a =
      let off = (axis_step ar limits i reset (record a { enable = false })).1 in
      axis_step ar limits i reset (record off { enable = true })

  module _ (ex : IsExact ar) where
    move_toward_steps :
        (total high : ℕ) (curr : ℤ) (a : Axis ar)
        → 0 < gap a.prev_pos curr
        → fits ar total high (at_most_1023 (gap a.prev_pos curr)) ≡ true
        → word_steps (move_toward ar (timing ar total high) curr a).0
          ≡ at_most_1023 (gap a.prev_pos curr)
    unfolding move_toward
    move_toward_steps total high curr a far fit =
        let n = at_most_1023 (gap a.prev_pos curr) in
        let s = from_bool (ltb_ℤ a.prev_pos curr) in
        let d = changed_dir ar s a.last_dir in
        let some_left : ltb 0 n ≡ true = ground (arith, far) in
        rw (step_count-gap ar ex a.prev_pos curr, some_left)
          (command_word_fields ar total high n d s (ltb→lt _ _ some_left)
            (limit_small (gap a.prev_pos curr)) fit (ground arith) (ground arith)).0

    move_toward_still :
        (table : ℕ → ℕ) (curr : ℤ) (a : Axis ar)
        → a.prev_pos ≡ curr
        → (move_toward ar table curr a).0 ≡ 0
    unfolding move_toward
    move_toward_still table curr a here =
        let none_left : gap a.prev_pos curr ≡ 0 = ap (λ (p : ℤ). gap p curr) here ∙ gap_self curr in
        let still : ltb 0 (at_most_1023 (gap a.prev_pos curr)) ≡ false =
          ground (arith, none_left) in
        rw (step_count-gap ar ex a.prev_pos curr, still) refl

    again_word :
        (limits : Limits ar) (i : ℕ) (reset : Bool) (a : Axis ar)
        → a.velocity_mode ≡ false
        → let start : Axis ar = record a {
          prev_pos = zero_place a;
          first_data = false;
          enable = true;
        } in
          (again limits i reset a).0 ≡ (move_toward ar limits.timing (goal a) start).0
    unfolding axis_step position_mode
    again_word limits i reset a by_position = rw by_position refl

    running_word :
        (limits : Limits ar) (i : ℕ) (reset : Bool) (a : Axis ar)
        → a.enable ≡ true
        → a.velocity_mode ≡ false
        → a.first_data ≡ false
        → (axis_step ar limits i reset a).0 ≡ (move_toward ar limits.timing (goal a) a).0
    unfolding axis_step position_mode
    running_word limits i reset a on by_position started = rw (on, by_position, started) refl

    -- An axis in position mode that is on and stands at its commanded position is asked for no step.
    -- Switched off for a period and on again with the same command it moves: if the steps that the
    -- commanded position is away from 0, at most 1023, fit the period at the pulse width in use, the
    -- driver asks for as many.
    pub axis_step-again :
        (limits : Limits ar) (i : ℕ) (reset : Bool) (a : Axis ar) (total high : ℕ)
        → limits.timing ≡ timing ar total high
        → a.enable ≡ true
        → a.velocity_mode ≡ false
        → a.first_data ≡ false
        → a.prev_pos ≡ goal a
        → 0 < gap (zero_place a) (goal a)
        → fits ar total high (at_most_1023 (gap (zero_place a) (goal a))) ≡ true
        → ((axis_step ar limits i reset a).0 ≡ 0)
          × (word_steps (again limits i reset a).0 ≡ at_most_1023 (gap (zero_place a) (goal a)))
    axis_step-again limits i reset a total high table on by_position started here away fit =
        let start : Axis ar = record a {
          prev_pos = zero_place a;
          first_data = false;
          enable = true;
        } in
        (
          running_word limits i reset a on by_position started
              ∙ move_toward_still limits.timing (goal a) a here,
          ap word_steps (again_word limits i reset a by_position)
              ∙ ap (λ (t : ℕ → ℕ). word_steps (move_toward ar t (goal a) start).0) table
              ∙ move_toward_steps total high (goal a) start away fit,
        )
