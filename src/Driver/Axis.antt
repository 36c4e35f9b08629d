-- ===== src/Driver/Axis.antt =====
-- hal-driver/flexi-ninja.c, the loop over the stepgens in `udp_io_process_send`: from the commanded
-- position or velocity of an axis to its command word. `prev_pos` and `curr_pos` are int64 values far
-- from their bounds, so they are integers here; `last_dir` is an int8 bit pattern.
pub mod Position
pub mod Link
pub mod Enable
use flexi_ninja.Prelude.{ℕ, suc, Bool, true, false, not, List, [], ltb, u16, u32, add32, sub32}
use flexi_ninja.Prelude.{neg32, from_bool, ◌+◌, ◌-◌, ◌&&◌, ◌∷◌, ◌==◌, if◌then◌else◌}
use flexi_ninja.Prelude.Int.{ℤ, pos, negsuc, ◌+ℤ◌, ◌-ℤ◌, ltb_ℤ}
use flexi_ninja.Driver.Arith.{Arith}
use flexi_ninja.Driver.Timing.Commands.{command_word}
use flexi_ninja.Transmission.Packet.{stepgens}

-- `offset`
abbrev pub offset : ℕ
offset = 10000

abbrev pub max_steps_per_period : ℕ
max_steps_per_period = 1023

-- An int32 as its bit pattern.
abbrev pub pattern : ℤ → ℕ
pattern (pos n) = u32 n
pattern (negsuc n) = neg32 (u32 (suc n))

-- `if (steps < 0) steps = -steps; if (steps < 0) steps = 1023; if (steps > 1023) steps = 1023;` The
-- second test catches -2 ^ 31, whose negation wraps to itself.
unfoldable pub step_count : ℤ → ℕ
step_count (pos n) = if ltb max_steps_per_period n then max_steps_per_period else n
step_count (negsuc n) =
    if n == 2147483647
    then max_steps_per_period
    else if ltb max_steps_per_period (suc n)
    then max_steps_per_period
    else suc n

module _ (ar : Arith) where
  open ar use {F, of_int, lit, f32, add, mul, div, fabs, lt, to_i64, to_i32, to_u32}

  -- The fields of `module_data_t` with an entry for each stepgen.
  pub record Axis : Type 0 where
    pub command : F
    pub feedback : F
    pub scale : F
    pub velocity_mode : Bool
    pub enable : Bool
    pub debug_steps : ℕ
    pub last_actual_position : ℕ
    pub prev_pos : ℤ
    pub curr_pos : ℤ
    pub first_data : Bool
    pub last_dir : ℕ

  -- The words of the table, the steps of a second that the pulse width allows, and the servo period.
  pub record Limits : Type 0 where
    pub timing : ℕ → ℕ
    pub max_f : ℕ
    pub period : ℕ

  abbrev pub changed_dir : ℕ → ℕ → ℕ
  changed_dir sign last_dir = if sign == last_dir then 0 else 1

  -- Position mode, at the position `curr` in steps. The steps are taken from `prev_pos`, which
  -- follows.
  unfoldable pub move_toward : (ℕ → ℕ) → ℤ → Axis → ℕ × Axis
  move_toward timing curr a =
      let steps = step_count (to_i32 (of_int (a.prev_pos -ℤ curr))) in
      let sign = from_bool (ltb_ℤ a.prev_pos curr) in
      let moved = if sign == 1 then a.prev_pos +ℤ pos steps else a.prev_pos -ℤ pos steps in
      if ltb 0 steps
      then (
        command_word (timing steps) (changed_dir sign a.last_dir) sign,
        record a { curr_pos = curr; last_dir = sign; prev_pos = moved },
      )
      else (0, record a { curr_pos = curr; prev_pos = curr })

  -- `*d->debug_steps -= steps`, and its reset, which the last stepgen ends.
  unfoldable pub position_mode : (ℕ → ℕ) → ℕ → Bool → Axis → ℕ × Axis × Bool
  position_mode timing i reset a =
      let f_command = f32 (add a.command (of_int (pos offset))) in
      let curr = to_i64 (mul f_command a.scale) in
      let taken = sub32 a.debug_steps (pattern (to_i32 (of_int (a.prev_pos -ℤ curr)))) in
      let (cmd, a1) = move_toward timing curr a in
      (
        cmd,
        record a1 { debug_steps = if reset then 0 else taken },
        reset && not (i == stepgens - 1),
      )

  unfoldable pub velocity_mode : Limits → Bool → Axis → ℕ × Axis × Bool
  velocity_mode limits reset a =
      let velocity = f32 a.command in
      let sign = if lt velocity (of_int (pos 0)) then 0 else 1 in
      let speed = f32 (fabs (f32 (mul velocity a.scale))) in
      let cap = f32 (of_int (pos limits.max_f)) in
      let steps_per_sec = if lt cap speed then cap else speed in
      let raw = to_u32 (mul steps_per_sec (div (of_int (pos limits.period)) (lit 1000000000 1))) in
      let steps = if ltb max_steps_per_period raw then max_steps_per_period else raw in
      let a1 : Axis = record a {
        debug_steps = if reset then 0 else add32 a.debug_steps (u16 steps);
      } in
      if ltb 0 steps
      then (
        command_word (limits.timing steps) (changed_dir sign a.last_dir) sign,
        record a1 { last_dir = sign },
        false,
      )
      else (0, a1, false)

  -- The round of the loop for stepgen `i`: its word, the axis after it, and `debug_steps_reset`.
  unfoldable pub axis_step : Limits → ℕ → Bool → Axis → ℕ × Axis × Bool
  axis_step limits i reset a =
      let start : Axis = record a {
        prev_pos = to_i64 (mul (of_int (pos offset)) a.scale);
        first_data = false;
      } in
      let a1 = if a.first_data then start else a in
      if not a.enable
      then (0, record a { first_data = true }, reset)
      else if a.velocity_mode
      then velocity_mode limits reset a1
      else position_mode limits.timing i reset a1

  -- The stepgens from `i` on.
  unfoldable pub axes_step : Limits → ℕ → Bool → List Axis → List ℕ × List Axis × Bool
  axes_step limits i reset [] = ([], [], reset)
  axes_step limits i reset (a ∷ axes) =
      let (cmd, a', reset') = axis_step limits i reset a in
      let (cmds, axes', reset_end) = axes_step limits (i + 1) reset' axes in
      (cmd ∷ cmds, a' ∷ axes', reset_end)
