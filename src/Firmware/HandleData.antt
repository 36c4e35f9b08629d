-- ===== src/Firmware/HandleData.antt =====
-- firmware/src/main.c, `handle_data`: what the board does with a received packet, built for
-- BOARD_FLEXI_2350 (PICO_RP2350, `use_pwm`, `use_flexgpio`, no step counter, no timer interrupt).
-- `Reads` is what the hardware gives during the call, `Effects` what the call does to it. Interrupts
-- of the encoders fall between calls.
pub mod Check
pub mod Outputs
pub mod Shape
pub mod Fields
pub mod Report
pub mod Buffers
use flexi_ninja.Prelude.{ℕ, zero, suc, Bool, true, false, List, [], ltb, leb, get_or, set, u8}
use flexi_ninja.Prelude.{u16, u32, word, sub32, bit_at, test_bit, set_bit, clear_bit, ◌+◌, ◌-◌}
use flexi_ninja.Prelude.{◌/◌, ◌%◌, ◌^◌, ◌∷◌, ◌++◌, ◌==◌, if◌then◌else◌}
use flexi_ninja.Transmission.Packet.{PcPico, PicoPc, encoders, stepgens, pwm_count}
use flexi_ninja.Transmission.Packet.{rx_checksum_ok, seal_pico_pc}
use flexi_ninja.Firmware.IrqEncoder.{
  EncoderPin, IrqEncoders, encoder_at, is_irq, reset_count, read_count,
}
use flexi_ninja.Firmware.Stepgen.{StepState, apply_stepgen_commands}
use flexi_ninja.Firmware.Pwm
use flexi_ninja.Firmware.Pwm.{PwmCall}
use flexi_ninja.Firmware.FlexGpio.{FlexGpio, OutputPacket, sync_inputs, push_outputs}

pub record OutputPin : Type 0 where
  pub gpio : ℕ
  pub invert : Bool

-- The tables of config.h.
pub record Config : Type 0 where
  pub dir_invert : ℕ → Bool
  pub encoder_config : List EncoderPin
  pub output_pins : List OutputPin
  pub pwm_pin : ℕ → ℕ

-- The global variables that the handler uses, `tx` the packet to send.
pub record Board : Type 0 where
  pub rx_counter : ℕ
  pub checksum_error : Bool
  pub checksum_ok_count : ℕ
  pub last_packet_time : ℕ
  pub steps : StepState
  pub pwm_freq_buffer : List ℕ
  pub irq : IrqEncoders
  pub pio_enc_offset : List ℕ
  pub enc_reset_done : ℕ
  pub index_reset_flags : ℕ
  pub input_buffer : List ℕ
  pub flex : FlexGpio
  pub tx : PicoPc

-- Two reads of the clock; the step FIFOs; for encoder `i` the pins and the PIO count at a reset, the
-- time stamp and the PIO count; the expander's inputs; two reads of the pins.
pub record Reads : Type 0 where
  pub now1 : ℕ
  pub now2 : ℕ
  pub full : ℕ → ℕ → Bool
  pub reset_pins : ℕ → ℕ
  pub reset_count_pio : ℕ → ℕ
  pub timestamp : ℕ → ℕ
  pub count_pio : ℕ → ℕ
  pub flex_value : ℕ
  pub pins_low : ℕ
  pub pins_high : ℕ

pub record Effects : Type 0 where
  pub pwm : List PwmCall
  pub gpio_put : List (ℕ × ℕ)
  pub flex : OutputPacket

abbrev pub pin_null : ℕ
pin_null = 255

-- The checksum of a packet, and the error state with its count of good packets.
unfoldable pub check : Bool → Bool → ℕ → Bool × ℕ
check ok error count =
    if ok
    then if error
      then if leb 10 (u8 (count + 1)) then (false, 0) else (true, u8 (count + 1))
      else (false, count)
    else (true, 0)

unfoldable pub check_packet : PcPico → Board → Board
check_packet p b =
    let (error, count) = check (rx_checksum_ok p) b.checksum_error b.checksum_ok_count in
    record b { rx_counter = p.packet_id; checksum_error = error; checksum_ok_count = count }

-- The PWM channels from `i` on, `n` of them.
unfoldable pub update_pwm : Config → PcPico → ℕ → ℕ → List ℕ → List ℕ × List PwmCall
update_pwm c p zero i buffer = (buffer, [])
update_pwm c p (suc n) i buffer =
    let (buffer', calls) = update_pwm c p n (i + 1) (set buffer i (get_or p.pwm_frequency i 0)) in
    (buffer', Pwm.set_duty (c.pwm_pin i) (u16 (get_or p.pwm_duty i 0)) ++ calls)

-- The steps and the PWM, unless the packets are in error.
unfoldable pub actuate : Config → Reads → PcPico → Board → Board × List PwmCall
actuate c r p b =
    let (buffer, calls) = update_pwm c p pwm_count 0 b.pwm_freq_buffer in
    if b.checksum_error then (b, []) else (
      record b {
        steps =
            apply_stepgen_commands c.dir_invert r.full b.checksum_error p.stepgen_command b.steps;
        pwm_freq_buffer = buffer;
      },
      calls,
    )

-- `CTRL_ENC_RESET(i)`
abbrev pub reset_requested : PcPico → ℕ → Bool
reset_requested p i = test_bit p.enc_control (2 + i)

-- A reset asked for and not done yet.
unfoldable pub reset_encoder : Config → Reads → PcPico → ℕ → Board → Board
reset_encoder c r p i b =
    let done = u8 (set_bit b.enc_reset_done i) in
    let by_irq : Board = record b {
      enc_reset_done = done;
      irq = reset_count (r.reset_pins i) i b.irq;
    } in
    let by_pio : Board = record b {
      enc_reset_done = done;
      pio_enc_offset = set b.pio_enc_offset i (r.reset_count_pio i);
    } in
    if reset_requested p i
    then if test_bit b.enc_reset_done i
      then b
      else if leb 32 (encoder_at c.encoder_config i).base_pin
      then by_irq
      else by_pio
    else record b { enc_reset_done = clear_bit b.enc_reset_done i }

-- The count to report: 0 as long as the reset is asked for.
unfoldable pub encoder_report : Config → Reads → ℕ → Board → ℕ
encoder_report c r i b =
    if test_bit b.enc_reset_done i
    then 0
    else if is_irq (encoder_at c.encoder_config i)
    then read_count i b.irq
    else sub32 (r.count_pio i) (get_or b.pio_enc_offset i 0)

unfoldable pub update_encoder : Config → Reads → PcPico → ℕ → Board → Board
update_encoder c r p i b =
    let b1 = reset_encoder c r p i b in
    record b1 {
      tx = record (b1.tx) {
        encoder_timestamp = set b1.tx.encoder_timestamp i (r.timestamp i);
        encoder_counter = set b1.tx.encoder_counter i (encoder_report c r i b1);
        encoder_velocity = set b1.tx.encoder_velocity i 0;
      };
    }

-- The encoders from `i` on, `n` of them.
unfoldable pub update_encoders : Config → Reads → PcPico → ℕ → ℕ → Board → Board
update_encoders c r p zero i b = b
update_encoders c r p (suc n) i b = update_encoders c r p n (i + 1) (update_encoder c r p i b)

-- `interrupt_data` takes the flags of the index interrupts, which start anew.
unfoldable pub take_index_flags : Board → Board
take_index_flags b = record b {
  tx = record (b.tx) { interrupt_data = b.index_reset_flags };
  index_reset_flags = 0;
}

-- The input words, from the expander and from the pins.
unfoldable pub sync_io : Reads → Board → Board
sync_io r b =
    let (inputs, flex) = sync_inputs r.flex_value b.tx.inputs b.flex in
    let words = set (set inputs 0 (r.pins_low % word)) 1 (r.pins_high / word) in
    record b {
      tx = record (b.tx) { inputs = words };
      flex = flex;
      input_buffer =
          set (set (set b.input_buffer 0 (get_or words 0 0)) 1 (get_or words 1 0)) 2
            (get_or words 2 0);
    }

-- The output pins from `i` on.
unfoldable pub put_outputs : List OutputPin → List ℕ → ℕ → List (ℕ × ℕ)
put_outputs [] outputs i = []
put_outputs (pin ∷ pins) outputs i =
    let rest = put_outputs pins outputs (u8 (i + 1)) in
    if pin.gpio == pin_null
    then rest
    else if ltb pin.gpio 32
    then (pin.gpio, bit_at (get_or outputs 0 0) i) ∷ rest
    else (pin.gpio, bit_at (get_or outputs 1 0) (i % 32)) ∷ rest

-- The stepgen positions from `i` on, `n` of them.
unfoldable pub copy_positions : ℕ → ℕ → List ℕ → List ℕ → List ℕ
copy_positions zero i position tx = tx
copy_positions (suc n) i position tx =
    copy_positions n (i + 1) position (set tx i (get_or position i 0))

-- The rest of the reply, and its checksum.
unfoldable pub finish_tx : Board → Board
finish_tx b = record b {
  tx = seal_pico_pc (record (b.tx) {
    step_ring_fill = 0;
    step_ring_status = 0;
    stepgen_position = copy_positions stepgens 0 b.steps.position b.tx.stepgen_position;
    stepgen_overflow = b.steps.overflow;
    packet_id = b.rx_counter;
  });
  steps = record (b.steps) { overflow = 0 };
}

unfoldable pub stamp : Reads → Board → Board
stamp r b = record b {
  tx = record (b.tx) { jitter = u32 (r.now1 + 2 ^ 64 - b.last_packet_time) };
  last_packet_time = r.now2;
}

unfoldable pub handle_data : Config → Reads → PcPico → Board → Board × Effects
handle_data c r p b =
    let (b1, pwm) = actuate c r p (check_packet p (stamp r b)) in
    let b2 = take_index_flags (update_encoders c r p encoders 0 b1) in
    let b3 = sync_io r b2 in
    let (packet, flex) = push_outputs p.outputs b3.flex in
    (
      finish_tx (record b3 { flex = flex }),
      record { pwm = pwm; gpio_put = put_outputs c.output_pins p.outputs 0; flex = packet },
    )
