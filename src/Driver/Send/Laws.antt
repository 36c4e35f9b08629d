-- ===== src/Driver/Send/Laws.antt =====
-- What goes out is well formed, and the board accepts it.
use flexi_ninja.Prelude.{ℕ, suc, refl, ap, inl, inr, Bool, true, false, Option, none, some, List}
use flexi_ninja.Prelude.{[], map, arith, ltb, Bool-cases, length, All, u8, u16, u32, word, ◌+◌}
use flexi_ninja.Prelude.{◌<◌, ◌≡◌, ◌∙◌, ◌&&◌, ◌∷◌, ◌==◌, if◌then◌else◌}
use flexi_ninja.Transmission.Packet.{PcPico, seal_pc_pico, rx_checksum_ok}
use flexi_ninja.Transmission.Layout.{IsPcPico}
use flexi_ninja.Transmission.Layout.Seal.{rx_checksum_ok-seal, seal_pc_pico-IsPcPico}
use flexi_ninja.Driver.Arith.{Arith}
use flexi_ninja.Driver.Timing.{nearest}
use flexi_ninja.Driver.Axis.{Axis, Limits, axis_step, axes_step}
use flexi_ninja.Driver.Io.{bb_hal_process_send}
use flexi_ninja.Driver.Send.{
  Module, PwmPins, pico_clock, enc_control, limit_pwm, pwm_fields, max_frequency, refresh_timing,
  send_packet, udp_io_process_send,
}

length-map-u32 : (ws : List ℕ) → length (map u32 ws) ≡ length ws
length-map-u32 [] = refl
length-map-u32 (w ∷ ws) = ap suc (length-map-u32 ws)

All-map-u32 : (ws : List ℕ) → All (λ w. w < word) (map u32 ws)
All-map-u32 [] = tt
All-map-u32 (w ∷ ws) = (omega arith, All-map-u32 ws)

pub second {ℓ} :
    {A : Type ℓ} (e r : Bool) (x y z : A)
    → e ≡ false
    → r ≡ true
    → (if e then x else if r then y else z) ≡ y
second e r x y z he hr = rw (he, hr) refl

module _ (ar : Arith) where
  pub length-axes_step :
      (limits : Limits ar) (i : ℕ) (reset : Bool) (axes : List (Axis ar))
      → length (axes_step ar limits i reset axes).0 ≡ length axes
  unfolding axes_step
  length-axes_step limits i reset [] = refl
  length-axes_step limits i reset (a ∷ axes) =
      ap suc (length-axes_step limits (i + 1) (axis_step ar limits i reset a).2 axes)

  pwm_small : (p : PwmPins) → ((pwm_fields ar p).0 < word) × ((pwm_fields ar p).1 < word)
  unfolding pwm_fields
  pwm_small p = elim (Bool-cases (p.enable && ltb 0 p.frequency)) [
    | inl on ↦ rw on (omega arith, omega arith)
    | inr off ↦ rw off (omega arith, omega arith)
  ]

  enc_control_small : (a b : List Bool) (m : ℕ) → enc_control a b m < 256
  unfolding enc_control
  enc_control_small a b m = omega arith

  pins_length :
      (outs ex : List (ℕ × Bool)) (probe : Bool) → length (bb_hal_process_send outs ex probe) ≡ 2
  unfolding bb_hal_process_send
  pins_length outs ex probe = refl

  wire_valid :
      (cmds outs : List ℕ) (duty frequency timing_index setup id control : ℕ)
      → length cmds ≡ 6
      → length outs ≡ 2
      → duty < word
      → frequency < word
      → control < 256
      → let p : PcPico = record {
        stepgen_command = map u32 cmds;
        outputs = map u32 outs;
        pwm_duty = duty ∷ [];
        pwm_frequency = frequency ∷ [];
        pio_timing = u16 timing_index;
        dir_setup_ns = u16 setup;
        enc_control = control;
        packet_id = u8 id;
        checksum = 0;
      } in
        IsPcPico p
  wire_valid cmds outs duty frequency timing_index setup id control six two hd hf hc = record {
    stepgen_command = (length-map-u32 cmds ∙ six, All-map-u32 cmds);
    outputs = (length-map-u32 outs ∙ two, All-map-u32 outs);
    pwm_duty = (refl, (hd, tt));
    pwm_frequency = (refl, (hf, tt));
    pio_timing = omega arith;
    dir_setup_ns = omega arith;
    enc_control = hc;
    packet_id = omega arith;
    checksum = omega arith;
  }

  pub refresh_keeps :
      (period : ℕ) (d : Module ar)
      → ((refresh_timing ar period d).axes ≡ d.axes)
        × ((refresh_timing ar period d).tx_counter ≡ d.tx_counter)
        × ((refresh_timing ar period d).io_ready_out ≡ d.io_ready_out)
  unfolding refresh_timing
  refresh_keeps period d = elim (Bool-cases (d.old_pulse_width == d.pulse_width)) [
    | inl e ↦ rw e (refl, refl, refl)
    | inr e ↦ rw e (refl, refl, refl)
  ]

  pub send_packet_lem :
      (period : ℕ) (d : Module ar)
      → length d.axes ≡ 6
      → let (d1, p) = send_packet ar period d in
        (rx_checksum_ok p ≡ true)
        × (p.packet_id ≡ u8 d.tx_counter)
        × (length p.stepgen_command ≡ 6)
        × (d1.io_ready_out ≡ d.io_ready_out)
        × (d1.tx_counter ≡ u8 (d.tx_counter + 1))
        × IsPcPico p
  unfolding send_packet seal_pc_pico
  send_packet_lem period d six =
      let d1 = refresh_timing ar period d in
      let k = refresh_keeps period d in
      let limits : Limits ar = record {
        timing = d1.table;
        max_f = max_frequency ar d.pulse_width;
        period = period;
      } in
      let cmds = (axes_step ar limits 0 d1.debug_steps_reset d1.axes).0 in
      let outs = bb_hal_process_send d1.output_pins d1.ex_output_pins d1.probe_select in
      let fields = pwm_fields ar (limit_pwm ar d1.pwm) in
      let small = pwm_small (limit_pwm ar d1.pwm) in
      let control = enc_control d1.index_triggered d1.enc_enabled d1.enc_reset_pending in
      let count : length cmds ≡ 6 =
        length-axes_step limits 0 d1.debug_steps_reset d1.axes ∙ ap length k.0 ∙ six in
      let packet : PcPico = record {
        stepgen_command = map u32 cmds;
        outputs = map u32 outs;
        pwm_duty = fields.0 ∷ [];
        pwm_frequency = fields.1 ∷ [];
        pio_timing = u16 (nearest ar pico_clock d1.pulse_width);
        dir_setup_ns = u16 d1.dir_setup_ns;
        enc_control = control;
        packet_id = u8 d1.tx_counter;
        checksum = 0;
      } in
      let valid : IsPcPico packet =
        wire_valid cmds outs fields.0 fields.1 (nearest ar pico_clock d1.pulse_width)
          d1.dir_setup_ns d1.tx_counter control count
          (pins_length d1.output_pins d1.ex_output_pins d1.probe_select) small.0 small.1
          (enc_control_small d1.index_triggered d1.enc_enabled d1.enc_reset_pending) in
      (
        rx_checksum_ok-seal packet valid,
        ap u8 k.1,
        length-map-u32 cmds ∙ count,
        k.2,
        ap (λ n. u8 (n + 1)) k.1,
        seal_pc_pico-IsPcPico packet valid,
      )

  -- With six stepgens and while the watchdog runs and has not expired, each period sends a packet:
  -- the board accepts its checksum, it carries the counter as its id and a word for every stepgen,
  -- `io-ready-out` follows `io-ready-in`, and the counter goes on by one in 8 bits.
  pub udp_io_process_send-accepted :
      (period : ℕ) (d : Module ar)
      → length d.axes ≡ 6
      → d.watchdog_expired ≡ false
      → d.watchdog_running ≡ true
      → let (d1, packet) = udp_io_process_send ar period d in
        ((p : PcPico) × (packet ≡ some p)
          × (rx_checksum_ok p ≡ true)
          × (p.packet_id ≡ u8 d.tx_counter)
          × (length p.stepgen_command ≡ 6))
        × (d1.io_ready_out ≡ d.io_ready_in)
        × (d1.tx_counter ≡ u8 (d.tx_counter + 1))
  unfolding udp_io_process_send
  udp_io_process_send-accepted period d six fresh running =
      let ready : Module ar = record d { io_ready_out = d.io_ready_in } in
      let sent = send_packet_lem period ready six in
      let stopped : Module ar = record ready { error_triggered = true; io_ready_out = false } in
      let (after, packet) = send_packet ar period ready in
      let taken =
        second {A = Module ar × Option PcPico} d.watchdog_expired d.watchdog_running
          (record d { io_ready_out = false }, none) (after, some packet)
          (if d.error_triggered then (ready, none) else (stopped, none)) fresh running in
      (
        (packet, ap (λ r. r.1) taken, sent.0, sent.1, sent.2),
        ap (λ r. r.0.io_ready_out) taken ∙ sent.3,
        ap (λ r. r.0.tx_counter) taken ∙ sent.4,
      )

  -- What is sent fits its fields.
  pub udp_io_process_send-IsPcPico :
      (period : ℕ) (d : Module ar)
      → length d.axes ≡ 6
      → d.watchdog_expired ≡ false
      → d.watchdog_running ≡ true
      → (p : PcPico) × ((udp_io_process_send ar period d).1 ≡ some p) × IsPcPico p
  unfolding udp_io_process_send
  udp_io_process_send-IsPcPico period d six fresh running =
      let ready : Module ar = record d { io_ready_out = d.io_ready_in } in
      let stopped : Module ar = record ready { error_triggered = true; io_ready_out = false } in
      let (after, packet) = send_packet ar period ready in
      let taken =
        second {A = Module ar × Option PcPico} d.watchdog_expired d.watchdog_running
          (record d { io_ready_out = false }, none) (after, some packet)
          (if d.error_triggered then (ready, none) else (stopped, none)) fresh running in
      (packet, ap (λ r. r.1) taken, (send_packet_lem period ready six).5)
