-- ===== src/Firmware/Core1.antt =====
-- firmware/src/main.c, `core1_entry`: a round of core 1, built for BOARD_FLEXI_2350: no timer
-- interrupt, so that `stop_timer` is empty, and no LED. `pins` is what the pins read in the round,
-- `now` the clock.
pub mod Apart
pub mod Link
pub mod Lost
pub mod Index
pub mod Tests
use flexi_ninja.Prelude.{ℕ, Bool, true, false, not, List, [], ltb, leb, get_or, set, u32}
use flexi_ninja.Prelude.{test_bit, ◌+◌, ◌-◌, ◌^◌, ◌&&◌, ◌∷◌, ◌++◌, ◌==◌, if◌then◌else◌}
use flexi_ninja.Transmission.Packet.{PcPico, encoders, pwm_count}
use flexi_ninja.Firmware.IrqEncoder
use flexi_ninja.Firmware.IrqEncoder.{encoder_at}
use flexi_ninja.Firmware.Pwm
use flexi_ninja.Firmware.HandleData.{Config, OutputPin, pin_null}
use flexi_ninja.Firmware.CoreState.{Core1, Call, irq, put, pwm, calls_of, each, pico_clock}
use flexi_ninja.Firmware.GpioCallback.{reset_encoder_counter, index_call}
use flexi_ninja.Firmware.PulseLoad.{load_pulse}

unfoldable pub clear_outputs : List OutputPin → List Call
clear_outputs [] = []
clear_outputs (pin ∷ pins) =
    let rest = clear_outputs pins in if pin.gpio == pin_null then rest else put pin.gpio 0 ∷ rest

-- The branch of a silent link: what the first round of it does.
unfoldable pub disconnect : Config → ℕ → Core1 → Core1 × List Call
disconnect c pins s =
    let (s1, calls) = each (reset_encoder_counter c pins) encoders 0 (record s { connected = 0 }) in
    (
      record s1 {
        board = record (s1.board) { rx_counter = 0; checksum_error = false };
        timeout_error = 1;
        checksum_index = 1;
        checksum_index_in = 1;
        first_data = true;
        first_send = 1;
      },
      calls ++ clear_outputs c.output_pins,
    )

-- The index interrupt of encoder `i`, by bit `i` of `enc_control`.
unfoldable pub arm_index : Config → PcPico → ℕ → Core1 → Core1 × List Call
arm_index c p i s =
    let pin = encoder_at c.encoder_config i in
    let enabled = get_or s.enc_index_enabled i 0 in
    let on : Core1 = record s { enc_index_enabled = set s.enc_index_enabled i 1 } in
    let off : Core1 = record s { enc_index_enabled = set s.enc_index_enabled i 0 } in
    if pin.index_pin == pin_null
    then (s, [])
    else if test_bit p.enc_control i
    then if enabled == 0 then (on, irq (index_call pin true) ∷ []) else (s, [])
    else if enabled == 1
    then (off, irq (index_call pin false) ∷ [])
    else (s, [])

-- The counting interrupts of encoder `i`, by bit `4 + i`.
unfoldable pub arm_edges : Config → ℕ → PcPico → ℕ → Core1 → Core1 × List Call
arm_edges c pins p i s =
    let want = test_bit p.enc_control (4 + i) in
    let running = not (get_or s.enc_irq_enabled i 0 == 0) in
    let (irq_on, calls_on) = IrqEncoder.enable pins i s.board.irq in
    let (irq_off, calls_off) = IrqEncoder.disable i s.board.irq in
    let on : Core1 = record s {
      board = record (s.board) { irq = irq_on };
      enc_irq_enabled = set s.enc_irq_enabled i 1;
    } in
    let off : Core1 = record s {
      board = record (s.board) { irq = irq_off };
      enc_irq_enabled = set s.enc_irq_enabled i 0;
    } in
    if leb 32 (encoder_at c.encoder_config i).base_pin
    then if want && not running
      then (on, calls_of irq calls_on)
      else if not want && running
      then (off, calls_of irq calls_off)
      else (s, [])
    else (s, [])

-- The frequency of PWM channel `i`; `slice` is `pwm_gpio_to_slice_num`.
unfoldable pub set_pwm : Config → (ℕ → ℕ) → PcPico → ℕ → Core1 → Core1 × List Call
set_pwm c slice p i s =
    let wanted = get_or s.board.pwm_freq_buffer i 0 in
    let changed : Core1 = record s { old_pwm_frequency = set s.old_pwm_frequency i wanted } in
    if get_or s.old_pwm_frequency i 0 == wanted then (s, []) else (
      changed,
      calls_of pwm (Pwm.set_frequency pico_clock slice (c.pwm_pin i) (get_or p.pwm_frequency i 0)),
    )

-- The branch of a live link; `p` is what `rx_buffer` holds.
unfoldable pub serve_link : Config → (ℕ → ℕ) → (ℕ → ℕ) → ℕ → PcPico → Core1 → Core1 × List Call
serve_link c block slice pins p s =
    let s0 : Core1 = record s { timeout_error = 0; connected = 1 } in
    let (s1, armed) = each (arm_index c p) encoders 0 s0 in
    let (s2, counting) = each (arm_edges c pins p) encoders 0 s1 in
    let (s3, loaded) = load_pulse block p s2 in
    let (s4, tuned) = each (set_pwm c slice p) pwm_count 0 s3 in
    (s4, armed ++ (counting ++ (loaded ++ tuned)))

-- `time_diff`, an unsigned word
abbrev pub time_diff : ℕ → ℕ → ℕ
time_diff now last = u32 (now + 2 ^ 64 - last)

-- One round of the loop, and whether the serial terminal gets its turn in it.
unfoldable pub core1_round :
    Config → (ℕ → ℕ) → (ℕ → ℕ) → ℕ → ℕ → PcPico → Core1 → Core1 × List Call × Bool
core1_round c block slice now pins p s =
    let (lost, stopped) = disconnect c pins s in
    let (served, calls) = serve_link c block slice pins p s in
    if ltb s.timeout_us (time_diff now s.board.last_packet_time)
    then if s.timeout_error == 0 then (lost, stopped, true) else (s, [], true)
    else (served, calls, false)
