-- ===== src/Driver/Io.antt =====
-- hal-driver/flexi-ninja.c, `bb_hal_process_recv` and `bb_hal_process_send`: the input and output
-- pins of the board, and those of its expander, as HAL pins. A HAL bit is a Bool.
pub mod Bits
use flexi_ninja.Prelude.{ℕ, Bool, not, List, [], map, ltb, get_or, bit_at, set_bit, ◌+◌, ◌-◌, ◌%◌}
use flexi_ninja.Prelude.{◌||◌, ◌∷◌, ◌==◌, if◌then◌else◌}
use flexi_ninja.Firmware.HandleData.{pin_null}

-- `(inputs[0] >> gpio) & 1`, or the second word from gpio 32 on
unfoldable pub input_bit : List ℕ → ℕ → ℕ
input_bit inputs gpio =
    if ltb gpio 32
    then bit_at (get_or inputs 0 0) (gpio % 32)
    else bit_at (get_or inputs 1 0) ((gpio - 32) % 32)

abbrev pub with_not : ℕ → Bool × Bool
with_not bit = (bit == 1, not (bit == 1))

-- The HAL pins `input` and `input-not` of the pins at these gpios, and those of the expander.
unfoldable pub bb_hal_process_recv :
    List ℕ → List ℕ → List ℕ → List (Bool × Bool) × List (Bool × Bool)
bb_hal_process_recv input_pins ex_input_pins inputs = (
  map (λ gpio. with_not (input_bit inputs gpio)) input_pins,
  map (λ ex_num. with_not (bit_at (get_or inputs 2 0) ex_num)) ex_input_pins,
)

-- The round for output pin `i`.
unfoldable pub gather_output : ℕ → Bool → ℕ → ℕ × ℕ → ℕ × ℕ
gather_output gpio on i (outs0, outs1) =
    if gpio == pin_null || not on
    then (outs0, outs1)
    else if ltb i 32
    then (set_bit outs0 i, outs1)
    else (outs0, set_bit outs1 (i % 32))

-- The loop over the output pins from `i` on; a pin is its gpio and its HAL bit.
unfoldable pub gather_outputs : List (ℕ × Bool) → ℕ → ℕ × ℕ → ℕ × ℕ
gather_outputs [] i outs = outs
gather_outputs ((gpio, on) ∷ pins) i outs =
    gather_outputs pins (i + 1) (gather_output gpio on i outs)

-- The loop over the outputs of the expander; a pin is its `ex_num` and its HAL bit.
unfoldable pub gather_ex : List (ℕ × Bool) → ℕ → ℕ
gather_ex [] outs0 = outs0
gather_ex ((ex_num, on) ∷ pins) outs0 = gather_ex pins (if on then set_bit outs0 ex_num else outs0)

abbrev pub probe_select_bit : ℕ
probe_select_bit = 31

-- `tx_buffer->outputs`
unfoldable pub bb_hal_process_send : List (ℕ × Bool) → List (ℕ × Bool) → Bool → List ℕ
bb_hal_process_send output_pins ex_output_pins probe_select =
    let outs = gather_outputs output_pins 0 (0, 0) in
    let outs0 = gather_ex ex_output_pins outs.0 in
    (if probe_select then set_bit outs0 probe_select_bit else outs0) ∷ outs.1 ∷ []
