-- ===== src/Firmware/Boot.antt =====
-- firmware/src/main.c, `main`: the start of the board up to `handle_udp`, built for
-- BOARD_FLEXI_2350 with RASPBERRY_PI_SPI, after the pins (Pins). The SDK is outside: `add k` is
-- what `pio_add_program_at_offset` returns for the step program and block `k` (`none` is negative),
-- `can_add k` and `count i` what it says for the encoder program and the counter. Where a state
-- machine is missing the source goes on with a structure that is not filled in; the result is then
-- `none`.
pub mod Pins
pub mod Machines
pub mod First
pub mod Tests
use flexi_ninja.Prelude.{ℕ, Bool, true, false, Option, none, some, List, [], leb, get_or, set}
use flexi_ninja.Prelude.{replicate, ◌+◌, ◌&&◌, ◌∷◌, ◌++◌, ◌==◌, if◌then◌else◌}
use flexi_ninja.Transmission.Packet.{PicoPc, encoders, seal_pico_pc}
use flexi_ninja.Firmware.IrqEncoder.{EncoderPin, IrqEncoders}
use flexi_ninja.Firmware.Stepgen.{StepState}
use flexi_ninja.Firmware.FlexGpio
use flexi_ninja.Firmware.HandleData.{Board, OutputPin, pin_null}
use flexi_ninja.Firmware.PioUtils.{PioAlloc, get_next_pio}
use flexi_ninja.Firmware.PioUtils
use flexi_ninja.Firmware.Boot.Pins.{
  BootCall, gpio_init, gpio_set_dir, gpio_invert, gpio_set_pulls, add_program, pio_gpio_init,
  pio_output, sm_start, encoder_start,
}

pub record StepgenPin : Type 0 where
  pub step_pin : ℕ
  pub dir_pin : ℕ
  pub invert : Bool

-- `PIO_def_t`
pub record PioDef : Type 0 where
  pub pio_blk : ℕ
  pub sm : ℕ
  pub program_address : ℕ

-- The allocator, the local `offset`, and `stepgen_pio` so far.
pub record PioBoot : Type 0 where
  pub alloc : PioAlloc
  pub offset : List (Option ℕ)
  pub stepgen_pio : List PioDef

abbrev pub stepgen_len : ℕ
stepgen_len = 23

abbrev pub quadrature_encoder_len : ℕ
quadrature_encoder_len = 24

-- `(uint)offset`, where -1 is the largest.
abbrev pub address : Option ℕ → ℕ
address none = 4294967295
address (some a) = a

abbrev pub or_else {ℓ} : {A : Type ℓ} → Option A → Option A → Option A
or_else none y = y
or_else (some x) y = some x

abbrev pub loads : Option ℕ → ℕ → ℕ → List BootCall
loads none blk len = add_program blk len ∷ []
loads (some a) blk len = []

-- Stepgen pins on the state machine that was found.
unfoldable pub use_machine :
    (ℕ → Option ℕ)
    → StepgenPin
    → Option (ℕ × ℕ) × PioAlloc
    → PioBoot
    → Option (PioBoot × List BootCall)
use_machine add pin (none, alloc) st = none
use_machine add pin (some (blk, sm), alloc) st =
    let known = get_or st.offset blk none in
    let offset = or_else known (add blk) in
    let inverted = if pin.invert then gpio_invert pin.step_pin ∷ [] else [] in
    let found : PioDef = record { pio_blk = blk; sm = sm; program_address = address offset } in
    some (
      record {
        alloc = alloc;
        offset = set st.offset blk offset;
        stepgen_pio = st.stepgen_pio ++ (found ∷ []);
      },
      loads known blk stepgen_len
          ++ (pio_gpio_init blk pin.step_pin
              ∷ pio_gpio_init blk pin.dir_pin
              ∷ (inverted
                  ++ (pio_output blk sm pin.step_pin
                      ∷ pio_output blk sm pin.dir_pin
                      ∷ sm_start blk sm (address offset)
                      ∷ []))),
    )

-- One after the other, with the calls so far.
abbrev pub after {ℓ} :
    {A : Type ℓ}
    → Option (A × List BootCall)
    → (A → List BootCall → Option (A × List BootCall))
    → Option (A × List BootCall)
after none next = none
after (some (st, calls)) next = next st calls

unfoldable pub start_stepgens :
    (ℕ → Option ℕ) → List StepgenPin → PioBoot → List BootCall → Option (PioBoot × List BootCall)
start_stepgens add [] st calls = some (st, calls)
start_stepgens add (pin ∷ pins) st calls =
    after (use_machine add pin (get_next_pio stepgen_len st.alloc) st)
      (λ st' more. start_stepgens add pins st' (calls ++ more))

-- `offset[0]` first, then the stepgens.
unfoldable pub init_stepgens : (ℕ → Option ℕ) → List StepgenPin → Option (PioBoot × List BootCall)
init_stepgens add pins =
    start_stepgens add pins
      (record { alloc = PioUtils.initial; offset = add 0 ∷ none ∷ none ∷ []; stepgen_pio = [] })
      (add_program 0 stepgen_len ∷ [])

-- The allocator, `pio_enc_offset`, and `encoder_pio` so far; `none` is `sm == 255`.
pub record EncoderBoot : Type 0 where
  pub alloc : PioAlloc
  pub pio_enc_offset : List ℕ
  pub encoder_pio : List (Option (ℕ × ℕ))

abbrev pub encoder_pins : ℕ → List BootCall
encoder_pins base =
    gpio_init base
    ∷ gpio_init (base + 1)
    ∷ gpio_set_dir base false
    ∷ gpio_set_dir (base + 1) false
    ∷ gpio_set_pulls base true false
    ∷ gpio_set_pulls (base + 1) true false
    ∷ []

-- An encoder that counts in a state machine.
unfoldable pub use_counter :
    (ℕ → Bool)
    → ℕ
    → ℕ
    → ℕ
    → Option (ℕ × ℕ) × PioAlloc
    → EncoderBoot
    → Option (EncoderBoot × List BootCall)
use_counter can_add count i base (none, alloc) st = none
use_counter can_add count i base (some (blk, sm), alloc) st = some (
  record {
    alloc = alloc;
    pio_enc_offset = set st.pio_enc_offset i count;
    encoder_pio = st.encoder_pio ++ (some (blk, sm) ∷ []);
  },
  encoder_pins base
      ++ ((if can_add blk then add_program blk quadrature_encoder_len ∷ [] else [])
          ++ (encoder_start blk sm base ∷ [])),
)

-- The round for encoder `i`: the second one counts by interrupts if its pins are high ones.
unfoldable pub start_encoder :
    (ℕ → Bool) → (ℕ → ℕ) → ℕ → EncoderPin → EncoderBoot → Option (EncoderBoot × List BootCall)
start_encoder can_add count i pin st =
    let by_pio =
      use_counter can_add (count i) i pin.base_pin (get_next_pio quadrature_encoder_len st.alloc)
        st in
    if i == 1 && leb 32 pin.base_pin
    then some (record st { encoder_pio = st.encoder_pio ++ (none ∷ []) }, encoder_pins pin.base_pin)
    else by_pio

unfoldable pub start_encoders :
    (ℕ → Bool)
    → (ℕ → ℕ)
    → ℕ
    → List EncoderPin
    → EncoderBoot
    → List BootCall
    → Option (EncoderBoot × List BootCall)
start_encoders can_add count i [] st calls = some (st, calls)
start_encoders can_add count i (pin ∷ pins) st calls =
    after (start_encoder can_add count i pin st)
      (λ st' more. start_encoders can_add count (i + 1) pins st' (calls ++ more))

-- The encoders, after the stepgens took their state machines.
unfoldable pub init_encoders :
    (ℕ → Bool) → (ℕ → ℕ) → List EncoderPin → PioAlloc → Option (EncoderBoot × List BootCall)
init_encoders can_add count pins alloc =
    start_encoders can_add count 0 pins
      (record { alloc = alloc; pio_enc_offset = replicate encoders 0; encoder_pio = [] }) []

-- `memset(tx_buffer, 0, tx_size)`
abbrev pub zero_report : PicoPc
zero_report = record {
  encoder_counter = 0 ∷ 0 ∷ [];
  encoder_velocity = 0 ∷ 0 ∷ [];
  encoder_timestamp = 0 ∷ 0 ∷ [];
  interrupt_data = 0;
  stepgen_position = 0 ∷ 0 ∷ 0 ∷ 0 ∷ 0 ∷ 0 ∷ [];
  stepgen_overflow = 0;
  inputs = 0 ∷ 0 ∷ 0 ∷ 0 ∷ [];
  jitter = 0;
  step_ring_fill = 0;
  step_ring_status = 0;
  packet_id = 0;
  checksum = 0;
}

-- The global variables when `handle_udp` is called: as they are initialised, with the interrupt
-- encoders of core 1, the offsets of the others, and a first report with its checksum.
unfoldable pub boot_board : IrqEncoders → EncoderBoot → Board
boot_board irq st = record {
  rx_counter = 0;
  checksum_error = false;
  checksum_ok_count = 0;
  last_packet_time = 0;
  steps = record { position = replicate 6 0; overflow = 0; puts = [] };
  pwm_freq_buffer = 0 ∷ [];
  irq = irq;
  pio_enc_offset = st.pio_enc_offset;
  enc_reset_done = 0;
  index_reset_flags = 0;
  input_buffer = replicate 4 0;
  flex = (FlexGpio.init FlexGpio.initial).0;
  tx = seal_pico_pc zero_report;
}
