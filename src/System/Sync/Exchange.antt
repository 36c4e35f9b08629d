-- ===== src/System/Sync/Exchange.antt =====
-- Driver and board stay in step over every exchange, and over a whole connection.
use flexi_ninja.Prelude.{ℕ, sym, ap, inr, true, false, some, arith, length, get_or, u32, ◌+◌, ◌<◌}
use flexi_ninja.Prelude.{◌≡◌, ◌∙◌}
use flexi_ninja.Prelude.Int.{ℤ, ◌-ℤ◌}
use flexi_ninja.PioSettings.{high_cycles}
use flexi_ninja.Transmission.Packet.{PcPico, rx_checksum_ok}
use flexi_ninja.Driver.Arith.{Arith, IsExact}
use flexi_ninja.Driver.Timing.{nearest, total_cycles}
use flexi_ninja.Driver.Axis.{Axis, pattern, axis_step, axes_step}
use flexi_ninja.Driver.Send.{Module, pico_clock, send_packet, udp_io_process_send}
use flexi_ninja.Driver.Send.Laws.{send_packet_lem}
use flexi_ninja.Firmware.Stepgen.Laws.{
  position_at, position_after, apply_stepgen_commands_lem, length-apply_stepgen_commands,
}
use flexi_ninja.Firmware.HandleData.{Config, Board, Reads, handle_data}
use flexi_ninja.System.Sync.{axis_step-sync}
use flexi_ninja.System.Sync.Axes.{
  get_or-map-u32, axes_step-Stepped, length-axes, period_table, InSync, IsLive, refreshed,
  handle_data-position, handle_data-healthy, send_live, Sent, send_packet-Sent,
}

module _ (ar : Arith) (ex : IsExact ar) (z : Axis ar) (period : ℕ) (origin : ℕ → ℤ) where
  axis_in_step :
      (c : Config) (r : Reads) (d d' : Module ar) (p : PcPico) (b : Board)
      → InSync ar z period origin d b
      → IsLive ar z period d r
      → Sent ar ex z period origin d d' p
      → rx_checksum_ok p ≡ true
      → (i : ℕ) → i < 6
      → position_at (handle_data c r p b).0.steps i
        ≡ pattern ((get_or d'.axes i z).prev_pos -ℤ origin i)
  axis_in_step c r d d' p b h live sent ok i hi =
      let total = total_cycles pico_clock period in
      let high = high_cycles (nearest ar pico_clock d.pulse_width) in
      let axis = get_or d.axes i z in
      let q = pattern (axis.prev_pos -ℤ origin i) in
      let stepped =
        axes_step-Stepped ar z sent.limits 0 sent.reset d.axes i
          (omega (arith, hi, h.axes_length)) in
      let here : 0 + i ≡ i = omega arith in
      let command : get_or p.stepgen_command i 0
          ≡ u32 (axis_step ar sent.limits i stepped.reset axis).0 =
        ap (λ ws. get_or ws i 0) sent.commands
        ∙ get_or-map-u32 (axes_step ar sent.limits 0 sent.reset d.axes).0 i
        ∙ ap u32 (
            stepped.command
            ∙ ap (λ (n : ℕ). (axis_step ar sent.limits n stepped.reset axis).0) here) in
      let after : get_or d'.axes i z ≡ (axis_step ar sent.limits i stepped.reset axis).1 =
        ap (λ xs. get_or xs i z) sent.axes_are
        ∙ stepped.axis
        ∙ ap (λ (n : ℕ). (axis_step ar sent.limits n stepped.reset axis).1) here in
      let table = sent.table_is ∙ (refreshed ar z period d h.table live.pulse).1 in
      ap (λ ps. get_or ps i 0) (handle_data-position c r p b ok h.healthy)
      ∙ (apply_stepgen_commands_lem c.dir_invert r.full false p.stepgen_command b.steps i
          h.position_length hi).0
      ∙ ap (λ (w : ℕ). position_after c.dir_invert r.full i w (position_at b.steps i)) command
      ∙ ap
          (λ (x : ℕ).
            position_after c.dir_invert r.full i
              (u32 (axis_step ar sent.limits i stepped.reset axis).0) x)
          (h.same i hi)
      ∙ axis_step-sync r.full c.dir_invert i ar ex sent.limits stepped.reset axis (origin i) total
          high table (live.ready i hi) (live.room i hi)
      ∙ ap (λ (x : Axis ar). pattern (x.prev_pos -ℤ origin i)) (sym after)

  -- One period: while the driver's watchdog runs, every axis is off or follows its position, and the
  -- board has room for the commands in time, the driver sends a packet, and after the board has
  -- handled it driver and board are in step again.
  pub exchange-InSync :
      (c : Config) (r : Reads) (d : Module ar) (b : Board)
      → InSync ar z period origin d b
      → IsLive ar z period d r
      → let d' = (udp_io_process_send ar period d).0 in
        (p : PcPico) × ((udp_io_process_send ar period d).1 ≡ some p)
        × InSync ar z period origin d' (handle_data c r p b).0
  exchange-InSync c r d b h live =
      let ready : Module ar = record d { io_ready_out = d.io_ready_in } in
      let (d', p) = send_packet ar period ready in
      let sent = send_packet-Sent ar ex z period origin ready in
      let ok = (send_packet_lem ar period ready h.axes_length).0 in
      let e = send_live ar period d live.fresh live.running in
      let fresh = refreshed ar z period ready h.table live.pulse in
      let synced : InSync ar z period origin d' (handle_data c r p b).0 = record {
        axes_length =
            ap length sent.axes_are
            ∙ length-axes ar z sent.limits 0 sent.reset d.axes
            ∙ h.axes_length;
        position_length =
            ap length (handle_data-position c r p b ok h.healthy)
            ∙ length-apply_stepgen_commands c.dir_invert r.full p.stepgen_command b.steps
            ∙ h.position_length;
        healthy = handle_data-healthy c r p b ok h.healthy;
        table = inr (
            sent.table_kept
            ∙ fresh.1
            ∙ ap (period_table ar z period) (sym (sent.width_kept ∙ fresh.0)));
        same = axis_in_step c r ready d' p b h' live' sent ok;
      } in
      (p, ap (λ x. x.1) e, rw (ap (λ x. x.0) e) synced)
    where
      h' : InSync ar z period origin (record d { io_ready_out = d.io_ready_in }) b
      h' = record {
        axes_length = h.axes_length;
        position_length = h.position_length;
        healthy = h.healthy;
        table = h.table;
        same = h.same;
      }

      live' : IsLive ar z period (record d { io_ready_out = d.io_ready_in }) r
      live' = record {
        fresh = live.fresh;
        running = live.running;
        pulse = live.pulse;
        ready = live.ready;
        room = live.room;
      }
