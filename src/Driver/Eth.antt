-- ===== src/Driver/Eth.antt =====
-- hal-driver/flexi-ninja-eth.c: the driver for boards on Ethernet, where it is not that of
-- flexi-ninja.c: position mode, the feedback, the PWM scale, and the packets received over UDP.
pub mod Steps
pub mod Tests
use flexi_ninja.Prelude.{ℕ, Bool, true, false, not, Option, none, some, List, [], map, ltb}
use flexi_ninja.Prelude.{get_or, u8, u16, u32, sub32, test_bit, set_bit, clear_bit, from_bool}
use flexi_ninja.Prelude.{◌+◌, ◌-◌, ◌&&◌, ◌∷◌, ◌==◌, if◌then◌else◌}
use flexi_ninja.Prelude.Int.{ℤ, pos, ◌+ℤ◌, ◌-ℤ◌, ltb_ℤ}
use flexi_ninja.Transmission.Packet.{
  PcPico, PicoPc, stepgens, seal_pc_pico, tx_checksum_ok, pico_pc_size,
}
use flexi_ninja.Driver.Arith.{Arith}
use flexi_ninja.Driver.Timing.{nearest}
use flexi_ninja.Driver.Timing.Commands.{command_word}
use flexi_ninja.Driver.Axis.{Axis, Limits, offset, pattern, step_count, changed_dir, velocity_mode}
use flexi_ninja.Driver.Io.{bb_hal_process_recv, bb_hal_process_send}
use flexi_ninja.Driver.Watchdog.{received}
use flexi_ninja.Driver.Send.{
  Module, PwmPins, pico_clock, enc_control, max_frequency, refresh_timing, limit_pwm, pwm_fields,
}
use flexi_ninja.Driver.Recv.{Link, Encoder, quiet, clear_encoder, receive_encoder}

-- What `recvfrom` reads: how many bytes (no more than the buffer has), the sender, and the contents.
pub record Datagram : Type 0 where
  pub length_read : ℕ
  pub sender : ℕ
  pub contents : PicoPc

module _ (ar : Arith) where
  open ar use {of_int, lit, f32, add, mul, lt, to_i64, to_i32}

  -- Position mode, at the position `curr` in steps: `prev_pos` is set to it whatever the steps are.
  unfoldable pub eth_move : (ℕ → ℕ) → ℤ → Axis ar → ℕ × Axis ar
  eth_move timing curr a =
      let steps = step_count (to_i32 (of_int (a.prev_pos -ℤ curr))) in
      let sign = from_bool (ltb_ℤ a.prev_pos curr) in
      if ltb 0 steps
      then (
        command_word (timing steps) (changed_dir ar sign a.last_dir) sign,
        record a { curr_pos = curr; last_dir = sign; prev_pos = curr },
      )
      else (0, record a { curr_pos = curr; prev_pos = curr })

  unfoldable pub eth_position_mode : (ℕ → ℕ) → ℕ → Bool → Axis ar → ℕ × Axis ar × Bool
  eth_position_mode timing i reset a =
      let f_command = f32 (add a.command (of_int (pos offset))) in
      let curr = to_i64 (mul f_command a.scale) in
      let taken = sub32 a.debug_steps (pattern (to_i32 (of_int (a.prev_pos -ℤ curr)))) in
      let (cmd, a1) = eth_move timing curr a in
      (
        cmd,
        record a1 { debug_steps = if reset then 0 else taken; feedback = a.command },
        reset && not (i == stepgens - 1),
      )

  unfoldable pub eth_velocity_mode : Limits ar → Bool → Axis ar → ℕ × Axis ar × Bool
  eth_velocity_mode limits reset a =
      let (cmd, a1, reset') = velocity_mode ar limits reset a in
      (cmd, record a1 { feedback = a.command }, reset')

  -- The round of the loop for stepgen `i`: its word, the axis after it, and `debug_steps_reset`.
  unfoldable pub eth_axis_step : Limits ar → ℕ → Bool → Axis ar → ℕ × Axis ar × Bool
  eth_axis_step limits i reset a =
      let start : Axis ar = record a {
        prev_pos = to_i64 (mul (of_int (pos offset)) a.scale);
        first_data = false;
      } in
      let a1 = if a.first_data then start else a in
      if not a.enable
      then (0, record a { first_data = true }, reset)
      else if a.velocity_mode
      then eth_velocity_mode limits reset a1
      else eth_position_mode limits.timing i reset a1

  unfoldable pub eth_axes_step :
      Limits ar → ℕ → Bool → List (Axis ar) → List ℕ × List (Axis ar) × Bool
  eth_axes_step limits i reset [] = ([], [], reset)
  eth_axes_step limits i reset (a ∷ axes) =
      let (cmd, a', reset') = eth_axis_step limits i reset a in
      let (cmds, axes', reset_end) = eth_axes_step limits (i + 1) reset' axes in
      (cmd ∷ cmds, a' ∷ axes', reset_end)

  -- The scale is at least 1, and is written back.
  unfoldable pub eth_limit_pwm : PwmPins → PwmPins
  eth_limit_pwm p =
      let q = limit_pwm ar p in
      if p.enable && ltb 0 p.frequency
      then record q { maxscale = if p.maxscale == 0 then 1 else p.maxscale }
      else q

  unfoldable pub eth_packet : ℕ → Module ar → Module ar × PcPico
  eth_packet period d =
      let d1 = refresh_timing ar period d in
      let limits : Limits ar = record {
        timing = d1.table;
        max_f = max_frequency ar d.pulse_width;
        period = period;
      } in
      let (cmds, axes, reset) = eth_axes_step limits 0 d1.debug_steps_reset d1.axes in
      let pwm = eth_limit_pwm d1.pwm in
      let (duty, frequency) = pwm_fields ar pwm in
      (
        record d1 {
          axes = axes;
          debug_steps_reset = reset;
          pwm = pwm;
          tx_counter = u8 (d1.tx_counter + 1);
        },
        seal_pc_pico (record {
          stepgen_command = map u32 cmds;
          outputs = map u32 (bb_hal_process_send d1.output_pins d1.ex_output_pins d1.probe_select);
          pwm_duty = duty ∷ [];
          pwm_frequency = frequency ∷ [];
          pio_timing = u16 (nearest ar pico_clock d1.pulse_width);
          dir_setup_ns = u16 d1.dir_setup_ns;
          enc_control = enc_control d1.index_triggered d1.enc_enabled d1.enc_reset_pending;
          packet_id = u8 d1.tx_counter;
          checksum = 0;
        }),
      )

  -- `udp_io_process_send`, with the packet that goes to the socket, if there is one.
  unfoldable pub eth_process_send : ℕ → Module ar → Module ar × Option PcPico
  eth_process_send period d =
      let ready : Module ar = record d { io_ready_out = d.io_ready_in } in
      let (sent, packet) = eth_packet period ready in
      let stopped : Module ar = record ready { error_triggered = true; io_ready_out = false } in
      if d.watchdog_expired
      then (record d { io_ready_out = false }, none)
      else if d.watchdog_running
      then (sent, some packet)
      else if d.error_triggered
      then (ready, none)
      else (stopped, none)

  -- An encoder's round; the index pin is taken over also where the encoder is off.
  unfoldable pub eth_receive_encoder : ℕ → ℕ → Bool → Encoder ar → Encoder ar
  eth_receive_encoder count timestamp index_reset_event e =
      let scale = if lt e.scale (lit 1 1) then lit 1 1 else e.scale in
      let off : Encoder ar = record e { scale = scale; index_triggered = e.index } in
      if e.enabled
      then receive_encoder ar count timestamp index_reset_event e
      else clear_encoder ar off

  unfoldable pub eth_receive_encoders : PicoPc → ℕ → List (Encoder ar) → List (Encoder ar)
  eth_receive_encoders rx i [] = []
  eth_receive_encoders rx i (e ∷ es) =
      eth_receive_encoder (get_or rx.encoder_counter i 0) (get_or rx.encoder_timestamp i 0)
        (test_bit rx.interrupt_data i) e
      ∷ eth_receive_encoders rx (i + 1) es

  -- `enc_reset_pending`: the reset pin of each encoder, also of one that is off.
  unfoldable pub eth_pending_resets : ℕ → ℕ → List (Encoder ar) → ℕ
  eth_pending_resets pending i [] = pending
  eth_pending_resets pending i (e ∷ es) =
      eth_pending_resets
        (if e.reset then u8 (set_bit pending (2 + i)) else clear_bit pending (2 + i)) (i + 1) es

  unfoldable pub eth_accept : PicoPc → Link ar → Link ar
  eth_accept rx d =
      let (inputs, ex_inputs) = bb_hal_process_recv d.input_pins d.ex_input_pins rx.inputs in
      record d {
        watchdog = received d.watchdog;
        status = record (d.status) {
          connected = true;
          jitter = sub32 1000 rx.jitter;
          step_ring_fill = rx.step_ring_fill;
          step_ring_active = test_bit rx.step_ring_status 0;
          step_ring_underflow = test_bit rx.step_ring_status 1;
          step_ring_overflow = test_bit rx.step_ring_status 2;
        };
        enc_reset_pending = eth_pending_resets d.enc_reset_pending 0 d.encoders;
        encoders = eth_receive_encoders rx 0 d.encoders;
        inputs = inputs;
        ex_inputs = ex_inputs;
      }

  -- `udp_io_process_recv`, at the remote address; `none` is a socket with no datagram.
  unfoldable pub eth_process_recv : ℕ → Bool → Option Datagram → Link ar → Link ar
  eth_process_recv remote debug_mode none d =
      if d.watchdog.watchdog_expired
      then record d { status = quiet d.status }
      else record d { status = record (d.status) { connected = false } }
  eth_process_recv remote debug_mode (some g) d =
      if d.watchdog.watchdog_expired
      then record d { status = quiet d.status }
      else if g.length_read == pico_pc_size && g.sender == remote
      then if not (tx_checksum_ok g.contents) && not debug_mode
        then record d {
          status = record (quiet d.status) { checksum_error = true; connected = false };
        }
        else eth_accept g.contents d
      else record d { status = record (d.status) { connected = false } }
