-- ===== src/System/Sync.antt =====
-- The positions of driver and board over a whole connection: hal-driver/flexi-ninja.c sends a
-- packet a period, firmware/src/main.c handles it. In between LinuxCNC sets the driver's pins.
pub mod Axes
pub mod Begin
pub mod Exchange
use flexi_ninja.Prelude.{ℕ, refl, sym, ap, inl, inr, Bool, true, false, arith, Bool-cases, u32}
use flexi_ninja.Prelude.{bit_at, ◌%◌, ◌<◌, ◌≡◌, ◌⊎◌, ◌∙◌, ◌==◌}
use flexi_ninja.Prelude.Int.{ℤ, pos, ◌+ℤ◌, ◌-ℤ◌}
use flexi_ninja.PioSettings.{high_cycles}
use flexi_ninja.Driver.Arith.{Arith, IsExact}
use flexi_ninja.Driver.Timing.{timing, fits, nearest, total_cycles}
use flexi_ninja.Driver.Axis.{
  Axis, Limits, offset, pattern, move_toward, position_mode, axis_step, axes_step,
}
use flexi_ninja.Driver.Axis.Position.{gap, at_most_1023}
use flexi_ninja.Driver.Axis.Link.{advance-move_toward, advance_none, pattern_small}
use flexi_ninja.Firmware.Stepgen.{accepts, advance}
use flexi_ninja.Firmware.Stepgen.Laws.{position_after}

module _ (ar : Arith) where
  open ar use {of_int, f32, add, mul, to_i64}

  -- The commanded position in steps.
  abbrev pub target : Axis ar → ℤ
  target a = to_i64 (mul (f32 (add a.command (of_int (pos offset)))) a.scale)

  -- An axis that the exchange keeps in step: one that is off, or one in position mode that is on
  -- since an earlier period and whose steps fit the period.
  pub record IsRunning (total high : ℕ) (a : Axis ar) : Type 0 where
    pub on : a.enable ≡ true
    pub by_position : a.velocity_mode ≡ false
    pub started : a.first_data ≡ false
    pub fit :
        0 < gap a.prev_pos (target a)
        → fits ar total high (at_most_1023 (gap a.prev_pos (target a))) ≡ true

  abbrev pub IsReady : ℕ → ℕ → Axis ar → Type 0
  IsReady total high a = (a.enable ≡ false) ⊎ IsRunning total high a

  axis_step_off :
      (limits : Limits ar) (i : ℕ) (reset : Bool) (a : Axis ar)
      → a.enable ≡ false
      → ((axis_step ar limits i reset a).0 ≡ 0)
        × ((axis_step ar limits i reset a).1.prev_pos ≡ a.prev_pos)
  unfolding axis_step
  axis_step_off limits i reset a off = rw off (refl, refl)

  axis_step_on :
      (limits : Limits ar) (i : ℕ) (reset : Bool) (a : Axis ar) (total high : ℕ)
      → IsRunning total high a
      → ((axis_step ar limits i reset a).0 ≡ (move_toward ar limits.timing (target a) a).0)
        × ((axis_step ar limits i reset a).1.prev_pos
            ≡ (move_toward ar limits.timing (target a) a).1.prev_pos)
  unfolding axis_step position_mode
  axis_step_on limits i reset a total high h = rw (h.on, h.by_position, h.started) (refl, refl)

-- A word as the packet carries it.
advance-u32 : (w q : ℕ) → advance (u32 w) q ≡ advance w q
advance-u32 w q =
    let steps : u32 w % 1024 ≡ w % 1024 = omega arith in
    let dir : bit_at (u32 w) 10 ≡ bit_at w 10 = omega arith in rw (steps, dir) refl

module _ (full : ℕ → ℕ → Bool) (dir_invert : ℕ → Bool) (j : ℕ) where
  position_after-u32 :
      (w q : ℕ)
      → accepts (full j) ≡ true
      → u32 q ≡ q
      → position_after dir_invert full j (u32 w) q ≡ advance w q
  position_after-u32 w q room small = elim (Bool-cases (u32 w == 0)) [
    | inl e ↦
        let zero_word : u32 w ≡ 0 = ground (arith, e) in
        rw e (
          sym
            (sym (advance-u32 w q) ∙ ap (λ (v : ℕ). advance v q) zero_word ∙ advance_none q small))
    | inr e ↦ rw (e, room) (advance-u32 w q)
  ]

  module _ (ar : Arith) (ex : IsExact ar) where
    -- The word of an axis moves the board's counter as the driver moved its position.
    pub axis_step-sync :
        (limits : Limits ar) (reset : Bool) (a : Axis ar) (origin : ℤ) (total high : ℕ)
        → limits.timing ≡ timing ar total high
        → IsReady ar total high a
        → accepts (full j) ≡ true
        → let (w, a', reset') = axis_step ar limits j reset a in
          position_after dir_invert full j (u32 w) (pattern (a.prev_pos -ℤ origin))
          ≡ pattern (a'.prev_pos -ℤ origin)
    axis_step-sync limits reset a origin total high table ready room =
        let q = pattern (a.prev_pos -ℤ origin) in
        let w = (axis_step ar limits j reset a).0 in
        position_after-u32 w q room (pattern_small (a.prev_pos -ℤ origin)) ∙ elim ready [
          | inl off ↦
              let e = axis_step_off ar limits j reset a off in
              rw (e.0, e.1) (advance_none q (pattern_small (a.prev_pos -ℤ origin)))
          | inr run ↦
              let e = axis_step_on ar limits j reset a total high run in
              let linked = advance-move_toward ar ex total high (target ar a) origin a run.fit in
              rw (e.0, e.1, table) linked
        ]
