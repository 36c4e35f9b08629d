-- ===== src/Driver/Send.antt =====
-- hal-driver/flexi-ninja.c, `udp_io_process_send`: the packet that the PC sends in each servo period.
-- `period` is that of the servo thread, in nanoseconds. The result is the packet that `_send`
-- (Driver.Platform) gets, if there is one.
pub mod Laws
use flexi_ninja.Prelude.{ℕ, Bool, true, false, Option, none, some, List, [], map, bit_or, ltb}
use flexi_ninja.Prelude.{get_or, u8, u16, u32, from_bool, ◌+◌, ◌*◌, ◌&&◌, ◌∷◌, ◌==◌}
use flexi_ninja.Prelude.{if◌then◌else◌, ◌<<<◌}
use flexi_ninja.Prelude.Int.{ℤ, pos}
use flexi_ninja.PioSettings.{high_cycles}
use flexi_ninja.Transmission.Packet.{PcPico, seal_pc_pico, pwm_count, stepgens}
use flexi_ninja.Firmware.Pwm.{pwm_calculate_wrap}
use flexi_ninja.Driver.Arith.{Arith}
use flexi_ninja.Driver.Timing.{nearest, total_cycles, timing}
use flexi_ninja.Driver.Axis.{Axis, Limits, axes_step}
use flexi_ninja.Driver.Io.{bb_hal_process_send}

-- `pico_clock` of BOARD_FLEXI_2350
abbrev pub pico_clock : ℕ
pico_clock = 150000000

-- The HAL pins of a PWM channel.
pub record PwmPins : Type 0 where
  pub enable : Bool
  pub output : ℕ
  pub frequency : ℕ
  pub maxscale : ℕ
  pub min_limit : ℕ

-- `(1 * index_triggered) << (CTRL_SPINDEX + i)` and `enabled << (4 + i)` for both encoders, and
-- `enc_reset_pending`.
unfoldable pub enc_control : List Bool → List Bool → ℕ → ℕ
enc_control index_triggered enc_enabled enc_reset_pending =
    let bit = λ (flags : List Bool) (i : ℕ). from_bool (get_or flags i false) in
    u8 (
      bit_or
        (bit_or
          (bit_or (bit_or (bit index_triggered 0) (bit enc_enabled 0 <<< 4))
            (bit index_triggered 1 <<< 1))
          (bit enc_enabled 1 <<< 5))
        enc_reset_pending)

module _ (ar : Arith) where
  open ar use {F, of_int, lit, f32, mul, div, round, lt, to_u32, to_u16}

  -- The fields of `module_data_t` that the function uses, with `timing` and `old_pulse_width`.
  pub record Module : Type 0 where
    pub watchdog_expired : Bool
    pub watchdog_running : Bool
    pub error_triggered : Bool
    pub io_ready_in : Bool
    pub io_ready_out : Bool
    pub index_triggered : List Bool
    pub enc_enabled : List Bool
    pub enc_reset_pending : ℕ
    pub pulse_width : ℕ
    pub old_pulse_width : ℕ
    pub table : ℕ → ℕ
    pub axes : List (Axis ar)
    pub debug_steps_reset : Bool
    pub dir_setup_ns : ℕ
    pub output_pins : List (ℕ × Bool)
    pub ex_output_pins : List (ℕ × Bool)
    pub probe_select : Bool
    pub pwm : PwmPins
    pub tx_counter : ℕ

  -- `(uint32_t)(1.0 / ((pulse_width * 2) * 1e-9))`, the steps of a second
  unfoldable pub max_frequency : ℕ → ℕ
  max_frequency pulse_width =
      if ltb 0 pulse_width
      then to_u32 (div (lit 1 1) (mul (of_int (pos (u32 (pulse_width * 2)))) (lit 1 1000000000)))
      else 0

  -- The table of command words, made anew when the pulse width is another.
  unfoldable pub refresh_timing : ℕ → Module → Module
  refresh_timing period d = if d.old_pulse_width == d.pulse_width then d else record d {
    old_pulse_width = d.pulse_width;
    table =
        timing ar (total_cycles pico_clock period)
          (high_cycles (nearest ar pico_clock d.pulse_width));
  }

  -- The limits on a PWM channel's pins, which are written back.
  unfoldable pub limit_pwm : PwmPins → PwmPins
  limit_pwm p =
      let high = if ltb 1000000 p.frequency then 1000000 else p.frequency in
      let low = if ltb high 1908 then 1908 else high in
      let least = if ltb 0 p.min_limit && ltb p.output p.min_limit then p.min_limit else p.output in
      if p.enable && ltb 0 p.frequency then record p { frequency = low; output = least } else p

  -- `pwm_duty` and `pwm_frequency`, after `limit_pwm`; 0 stays from the `memset`.
  unfoldable pub pwm_fields : PwmPins → ℕ × ℕ
  pwm_fields p =
      let wrap = pwm_calculate_wrap pico_clock p.frequency in
      let maxscale = f32 (of_int (pos p.maxscale)) in
      let pwm_max = if lt maxscale (lit 1 1) then lit 1 1 else maxscale in
      let ratio = f32 (div (f32 (of_int (pos p.output))) pwm_max) in
      let duty = to_u16 (round (f32 (mul ratio (f32 (of_int (pos wrap)))))) in
      if p.enable && ltb 0 p.frequency then (u16 duty, u32 p.frequency) else (0, 0)

  -- The packet of a period in which the watchdog runs, and the state after it.
  unfoldable pub send_packet : ℕ → Module → Module × PcPico
  send_packet period d =
      let d1 = refresh_timing period d in
      let limits : Limits ar = record {
        timing = d1.table;
        max_f = max_frequency d.pulse_width;
        period = period;
      } in
      let (cmds, axes, reset) = axes_step ar limits 0 d1.debug_steps_reset d1.axes in
      let pwm = limit_pwm d1.pwm in
      let (duty, frequency) = pwm_fields pwm in
      (
        record d1 {
          axes = axes;
          debug_steps_reset = reset;
          pwm = pwm;
          tx_counter = u8 (d1.tx_counter + 1);
        },
        seal_pc_pico (record {
          stepgen_command = map u32 cmds;
          outputs = map u32 (bb_hal_process_send d1.output_pins d1.ex_output_pins d1.probe_select);
          pwm_duty = duty ∷ [];
          pwm_frequency = frequency ∷ [];
          pio_timing = u16 (nearest ar pico_clock d1.pulse_width);
          dir_setup_ns = u16 d1.dir_setup_ns;
          enc_control = enc_control d1.index_triggered d1.enc_enabled d1.enc_reset_pending;
          packet_id = u8 d1.tx_counter;
          checksum = 0;
        }),
      )

  unfoldable pub udp_io_process_send : ℕ → Module → Module × Option PcPico
  udp_io_process_send period d =
      let ready : Module = record d { io_ready_out = d.io_ready_in } in
      let (sent, packet) = send_packet period ready in
      let stopped : Module = record ready { error_triggered = true; io_ready_out = false } in
      if d.watchdog_expired
      then (record d { io_ready_out = false }, none)
      else if d.watchdog_running
      then (sent, some packet)
      else if d.error_triggered
      then (ready, none)
      else (stopped, none)
