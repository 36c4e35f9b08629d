-- ===== src/System/Sync/Axes.antt =====
-- An exchange keeps driver and board in step, and so does everything that may fall between exchanges.
use flexi_ninja.Prelude.{ℕ, zero, suc, refl, sym, ap, inl, inr, Bool, true, false, Option, none}
use flexi_ninja.Prelude.{some, List, [], map, arith, Bool-cases, length, get_or, u32, ◌+◌, ◌<◌}
use flexi_ninja.Prelude.{◌≡◌, ◌≢◌, ◌⊎◌, ◌∙◌, ◌∷◌, ◌==◌, if◌then◌else◌}
use flexi_ninja.Prelude.Int.{ℤ, ◌-ℤ◌}
use flexi_ninja.PioSettings.{high_cycles}
use flexi_ninja.Transmission.Packet.{PcPico, rx_checksum_ok, seal_pc_pico}
use flexi_ninja.Driver.Arith.{Arith, IsExact}
use flexi_ninja.Driver.Timing.{timing, nearest, total_cycles}
use flexi_ninja.Driver.Axis.{Axis, Limits, pattern, axis_step, axes_step}
use flexi_ninja.Driver.Send.{
  Module, pico_clock, max_frequency, refresh_timing, send_packet, udp_io_process_send,
}
use flexi_ninja.Driver.Send.Laws.{second, refresh_keeps}
use flexi_ninja.Firmware.Stepgen.{accepts, apply_stepgen_commands}
use flexi_ninja.Firmware.Stepgen.Laws.{position_at}
use flexi_ninja.Firmware.HandleData.{
  Config, Board, Reads, check, check_packet, actuate, stamp, handle_data,
}
use flexi_ninja.Firmware.HandleData.Check.{handle_data-Kept, handle_data-check}
use flexi_ninja.System.Sync.{IsReady}

pub get_or-map-u32 : (ws : List ℕ) (i : ℕ) → get_or (map u32 ws) i 0 ≡ u32 (get_or ws i 0)
get_or-map-u32 [] i = refl
get_or-map-u32 (w ∷ ws) zero = refl
get_or-map-u32 (w ∷ ws) (suc i) = get_or-map-u32 ws i

module _ (ar : Arith) (z : Axis ar) where
  -- What the loop over the stepgens leaves of each of them.
  pub record Stepped (limits : Limits ar) (k i : ℕ) (axes : List (Axis ar))
      (r : List ℕ × List (Axis ar) × Bool) : Type 0 where
    pub reset : Bool
    pub command : get_or r.0 i 0 ≡ (axis_step ar limits (k + i) reset (get_or axes i z)).0
    pub axis : get_or r.1 i z ≡ (axis_step ar limits (k + i) reset (get_or axes i z)).1

  pub axes_step-Stepped :
      (limits : Limits ar) (k : ℕ) (reset : Bool) (axes : List (Axis ar)) (i : ℕ)
      → i < length axes
      → Stepped limits k i axes (axes_step ar limits k reset axes)
  unfolding axes_step
  axes_step-Stepped limits k reset [] i h = absurd (omega (arith, h))
  axes_step-Stepped limits k reset (a ∷ axes) zero h =
      let e : k ≡ k + 0 = omega arith in
      record {
        reset = reset;
        command = ap (λ (n : ℕ). (axis_step ar limits n reset a).0) e;
        axis = ap (λ (n : ℕ). (axis_step ar limits n reset a).1) e;
      }
  axes_step-Stepped limits k reset (a ∷ axes) (suc i) h =
      let e : k + 1 + i ≡ k + suc i = omega arith in
      let reset' = (axis_step ar limits k reset a).2 in
      let rest = axes_step-Stepped limits (k + 1) reset' axes i (omega (arith, h)) in
      let x = get_or axes i z in
      record {
        reset = rest.reset;
        command = rest.command ∙ ap (λ (n : ℕ). (axis_step ar limits n rest.reset x).0) e;
        axis = rest.axis ∙ ap (λ (n : ℕ). (axis_step ar limits n rest.reset x).1) e;
      }

  pub length-axes :
      (limits : Limits ar) (k : ℕ) (reset : Bool) (axes : List (Axis ar))
      → length (axes_step ar limits k reset axes).1 ≡ length axes
  unfolding axes_step
  length-axes limits k reset [] = refl
  length-axes limits k reset (a ∷ axes) =
      ap suc (length-axes limits (k + 1) (axis_step ar limits k reset a).2 axes)

  -- The command words of a period with a pulse width, as a table.
  abbrev pub period_table : ℕ → ℕ → ℕ → ℕ
  period_table period pulse_width =
      timing ar (total_cycles pico_clock period) (high_cycles (nearest ar pico_clock pulse_width))

  -- Driver and board agree on every axis up to its origin. The driver's table is that of the pulse
  -- width it remembers, once it has one; the board is not in error.
  pub record InSync (period : ℕ) (origin : ℕ → ℤ) (d : Module ar) (b : Board) : Type 1 where
    pub axes_length : length d.axes ≡ 6
    pub position_length : length b.steps.position ≡ 6
    pub healthy : b.checksum_error ≡ false
    pub table : (d.old_pulse_width ≡ 0) ⊎ (d.table ≡ period_table period d.old_pulse_width)
    pub same :
        (i : ℕ) → i < 6 → position_at b.steps i ≡ pattern ((get_or d.axes i z).prev_pos -ℤ origin i)

  -- The driver sends, its axes may go on, and the board's FIFOs have room in time.
  pub record IsLive (period : ℕ) (d : Module ar) (r : Reads) : Type 0 where
    pub fresh : d.watchdog_expired ≡ false
    pub running : d.watchdog_running ≡ true
    pub pulse : d.pulse_width ≢ 0
    pub ready :
        (i : ℕ)
        → i < 6
        → IsReady ar
            (total_cycles pico_clock period)
            (high_cycles (nearest ar pico_clock d.pulse_width))
            (get_or d.axes i z)
    pub room : (i : ℕ) → i < 6 → accepts (r.full i) ≡ true

  pub refreshed :
      (period : ℕ) (d : Module ar)
      → (d.old_pulse_width ≡ 0) ⊎ (d.table ≡ period_table period d.old_pulse_width)
      → d.pulse_width ≢ 0
      → let d1 = refresh_timing ar period d in
        (d1.old_pulse_width ≡ d.pulse_width) × (d1.table ≡ period_table period d.pulse_width)
  unfolding refresh_timing
  refreshed period d known pulse = elim (Bool-cases (d.old_pulse_width == d.pulse_width)) [
    | inl e ↦
        let same : d.old_pulse_width ≡ d.pulse_width = ground (arith, e) in
        rw e (
          same,
          elim known [
            | inl none_yet ↦ absurd (pulse (sym same ∙ none_yet))
            | inr t ↦ t ∙ ap (period_table period) same
          ],
        )
    | inr e ↦ rw e (refl, refl)
  ]

-- A good packet at a board without error: its commands are carried out.
pub handle_data-position :
    (c : Config) (r : Reads) (p : PcPico) (b : Board)
    → rx_checksum_ok p ≡ true
    → b.checksum_error ≡ false
    → (handle_data c r p b).0.steps.position
      ≡ (apply_stepgen_commands c.dir_invert r.full false p.stepgen_command b.steps).position
unfolding actuate check_packet stamp check
handle_data-position c r p b ok healthy =
    (handle_data-Kept c r p b).position ∙ rw (ok, healthy) refl

pub handle_data-healthy :
    (c : Config) (r : Reads) (p : PcPico) (b : Board)
    → rx_checksum_ok p ≡ true
    → b.checksum_error ≡ false
    → (handle_data c r p b).0.checksum_error ≡ false
unfolding check
handle_data-healthy c r p b ok healthy = (handle_data-check c r p b).0 ∙ rw (ok, healthy) refl

module _ (ar : Arith) (period : ℕ) where
  -- The packet that goes out, and the driver after it.
  pub send_live :
      (d : Module ar)
      → d.watchdog_expired ≡ false
      → d.watchdog_running ≡ true
      → let sent = send_packet ar period (record d { io_ready_out = d.io_ready_in }) in
        udp_io_process_send ar period d ≡ (sent.0, some sent.1)
  unfolding udp_io_process_send
  send_live d fresh running =
      let ready : Module ar = record d { io_ready_out = d.io_ready_in } in
      let stopped : Module ar = record ready { error_triggered = true; io_ready_out = false } in
      let (after, packet) = send_packet ar period ready in
      second {A = Module ar × Option PcPico} d.watchdog_expired d.watchdog_running
        (record d { io_ready_out = false }, none) (after, some packet)
        (if d.error_triggered then (ready, none) else (stopped, none)) fresh running

module _ (ar : Arith) (ex : IsExact ar) (z : Axis ar) (period : ℕ) (origin : ℕ → ℤ) where
  -- The commands of the packet, and what the driver keeps.
  pub record Sent (d d' : Module ar) (p : PcPico) : Type 1 where
    pub limits : Limits ar
    pub reset : Bool
    pub table_is : limits.timing ≡ (refresh_timing ar period d).table
    pub commands : p.stepgen_command ≡ map u32 (axes_step ar limits 0 reset d.axes).0
    pub axes_are : d'.axes ≡ (axes_step ar limits 0 reset d.axes).1
    pub table_kept : d'.table ≡ (refresh_timing ar period d).table
    pub width_kept : d'.old_pulse_width ≡ (refresh_timing ar period d).old_pulse_width

  pub send_packet-Sent :
      (d : Module ar) → Sent d (send_packet ar period d).0 (send_packet ar period d).1
  unfolding send_packet seal_pc_pico
  send_packet-Sent d =
      let d1 = refresh_timing ar period d in
      let kept = (refresh_keeps ar period d).0 in
      let limits : Limits ar = record {
        timing = d1.table;
        max_f = max_frequency ar d.pulse_width;
        period = period;
      } in
      record {
        limits = limits;
        reset = d1.debug_steps_reset;
        table_is = refl;
        commands = ap (λ a. map u32 (axes_step ar limits 0 d1.debug_steps_reset a).0) kept;
        axes_are = ap (λ a. (axes_step ar limits 0 d1.debug_steps_reset a).1) kept;
        table_kept = refl;
        width_kept = refl;
      }
