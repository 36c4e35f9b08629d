-- ===== src/Firmware/GpioCallback.antt =====
-- firmware/src/main.c, `gpio_callback` and `reset_encoder_counter`: the interrupt of the pins, on
-- core 1. `pins` is what the pins read at the call.
use flexi_ninja.Prelude.{ℕ, Bool, false, List, [], get_or, set, u8, set_bit, ◌∷◌, ◌++◌, ◌==◌}
use flexi_ninja.Prelude.{if◌then◌else◌}
use flexi_ninja.Transmission.Packet.{encoders}
use flexi_ninja.Firmware.IrqEncoder.{
  EncoderPin, IrqCall, encoder_at, is_irq, reset_count, handle_edge,
}
use flexi_ninja.Firmware.HandleData.{Config}
use flexi_ninja.Firmware.CoreState.{
  Core1, Call, irq, zero_y, edge_fall, edge_rise, level_high, each,
}

unfoldable pub reset_encoder_counter : Config → ℕ → ℕ → Core1 → Core1 × List Call
reset_encoder_counter c pins i s =
    let by_irq : Core1 = record s {
      board = record (s.board) { irq = reset_count pins i s.board.irq };
    } in
    let by_pio : Core1 = record s { encoder = set s.encoder i 0 } in
    if is_irq (encoder_at c.encoder_config i) then (by_irq, []) else (by_pio, zero_y i ∷ [])

-- The interrupt of an index pin on or off.
abbrev pub index_call : EncoderPin → Bool → IrqCall
index_call pin on = record {
  gpio = pin.index_pin;
  events = if pin.index_active_level == level_high then edge_rise else edge_fall;
  on = on;
}

-- What `gpio_callback` does for encoder `i` at an edge of its index pin.
unfoldable pub index_edge : Config → ℕ → ℕ → Core1 → Core1 × List Call
index_edge c pins i s =
    let (s1, calls) = reset_encoder_counter c pins i s in
    let flagged : Core1 = record s1 {
      board = record (s1.board) { index_reset_flags = u8 (set_bit s1.board.index_reset_flags i) };
    } in
    let disarmed : Core1 = record flagged {
      enc_index_enabled = set flagged.enc_index_enabled i 0;
    } in
    if get_or s1.enc_index_enabled i 0 == 1
    then (disarmed, calls ++ (irq (index_call (encoder_at c.encoder_config i) false) ∷ []))
    else (flagged, calls)

-- The round of `gpio_callback` for encoder `i`: an interrupt of pin `gpio`, of a rise or a fall.
unfoldable pub callback_one : Config → ℕ → ℕ → ℕ → Core1 → Core1 × List Call
callback_one c pins gpio i s =
    let (at_index, calls) = index_edge c pins i s in
    let is_index = gpio == (encoder_at c.encoder_config i).index_pin in
    let s1 = if is_index then at_index else s in
    (
      record s1 { board = record (s1.board) { irq = (handle_edge pins i gpio s1.board.irq).0 } },
      if is_index then calls else [],
    )

unfoldable pub gpio_callback : Config → ℕ → ℕ → Core1 → Core1 × List Call
gpio_callback c pins gpio s = each (callback_one c pins gpio) encoders 0 s
