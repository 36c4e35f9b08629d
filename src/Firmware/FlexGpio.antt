-- ===== src/Firmware/FlexGpio.antt =====
-- firmware/src/flexgpio.c: the I2C expander of inputs and outputs. The bus is outside: the packet
-- read is an argument, the packet written is returned.
pub mod Laws
use flexi_ninja.Prelude.{ℕ, Bool, true, false, List, get_or, set, test_bit, clear_bit, ◌^◌, ◌==◌}
use flexi_ninja.Prelude.{if◌then◌else◌}

-- `output_packet_t`
pub record OutputPacket : Type 0 where
  pub value : ℕ
  pub mcu_irq_mask : ℕ
  pub probe_irq_mask : ℕ

-- `flexgpio_pending`, and the static `last_probe_mask` of `flexgpio_push_outputs`.
pub record FlexGpio : Type 0 where
  pub pending : Bool
  pub last_probe_mask : ℕ

-- `EX_INPUT_MASK`
abbrev pub ex_input_mask : ℕ
ex_input_mask = 0x07f8

abbrev pub probe_select_bit : ℕ
probe_select_bit = 31

unfoldable pub initial : FlexGpio
initial = record { pending = false; last_probe_mask = 0 }

unfoldable pub irq_handler : FlexGpio → FlexGpio
irq_handler f = record f { pending = true }

-- `flexgpio_init`, less the set-up of the pins and the bus.
unfoldable pub init : FlexGpio → FlexGpio × OutputPacket
init f = (
  record f { pending = true },
  record { value = 0; mcu_irq_mask = ex_input_mask; probe_irq_mask = 2 ^ 4 },
)

-- `value` is what `flexgpio_read` gets, if it is called.
unfoldable pub sync_inputs : ℕ → List ℕ → FlexGpio → List ℕ × FlexGpio
sync_inputs value inputs f =
    if f.pending then (set inputs 2 value, record f { pending = false }) else (inputs, f)

unfoldable pub push_outputs : List ℕ → FlexGpio → OutputPacket × FlexGpio
push_outputs outputs f =
    let value = get_or outputs 0 0 in
    let probe_mask = if test_bit value probe_select_bit then 2 ^ 3 else 2 ^ 4 in
    (
      record {
        value = clear_bit value probe_select_bit;
        mcu_irq_mask = ex_input_mask;
        probe_irq_mask = probe_mask;
      },
      if probe_mask == f.last_probe_mask
          then f
          else record { pending = true; last_probe_mask = probe_mask },
    )
