-- ===== src/Firmware/IrqEncoder.antt =====
-- firmware/src/irq_encoder.c: the quadrature decoder that counts in the GPIO interrupt. An encoder
-- counts so if its base pin is 32 or more. `pins` is what `gpio_get_all64()` reads at the call; the
-- calls that switch interrupts on or off are returned in order. A counter is an int32 bit pattern.
pub mod Track
use flexi_ninja.Prelude.{ℕ, Bool, true, false, List, [], bit_and, bit_or, ltb, leb, length}
use flexi_ninja.Prelude.{get_or, set, u8, add32, ◌+◌, ◌%◌, ◌&&◌, ◌||◌, ◌∷◌, ◌++◌, ◌==◌}
use flexi_ninja.Prelude.{if◌then◌else◌, ◌<<<◌, ◌>>>◌}

pub record EncoderPin : Type 0 where
  pub base_pin : ℕ
  pub index_pin : ℕ
  pub index_active_level : ℕ

-- `gpio_set_irq_enabled_with_callback(gpio, events, on, …)`
pub record IrqCall : Type 0 where
  pub gpio : ℕ
  pub events : ℕ
  pub on : Bool

-- The file's static variables. `cfg_count` is the length of `cfg`.
pub record IrqEncoders : Type 0 where
  pub counter : List ℕ
  pub prev_state : List ℕ
  pub cfg : List EncoderPin

-- `GPIO_IRQ_EDGE_RISE | GPIO_IRQ_EDGE_FALL`
abbrev pub edge_both : ℕ
edge_both = 12

-- -1 as an int32
abbrev pub minus_one : ℕ
minus_one = 4294967295

unfoldable pub transition : List ℕ
transition =
    0 ∷ minus_one ∷ 1 ∷ 0 ∷ 1 ∷ 0 ∷ 0 ∷ minus_one ∷ minus_one ∷ 0 ∷ 0 ∷ 1 ∷ 0 ∷ 1 ∷ minus_one ∷ 0
    ∷ []

no_encoder : EncoderPin
no_encoder = record { base_pin = 0; index_pin = 255; index_active_level = 0 }

unfoldable pub encoder_at : List EncoderPin → ℕ → EncoderPin
unfolding no_encoder
encoder_at cfg i = get_or cfg i no_encoder

-- `irq_encoder_is_irq`
unfoldable pub is_irq : EncoderPin → Bool
is_irq cfg = leb 32 cfg.base_pin

-- `(gpio_get_all64() >> base) & 3`, then the two bits swapped into A = bit 0, B = bit 1
unfoldable pub read_state : ℕ → ℕ → ℕ
read_state pins base =
    let raw = pins >>> base % 4 in bit_or (bit_and raw 2 >>> 1) (bit_and raw 1 <<< 1)

abbrev edge_calls : EncoderPin → Bool → List IrqCall
edge_calls cfg on =
    record { gpio = cfg.base_pin; events = edge_both; on = on }
    ∷ record { gpio = cfg.base_pin + 1; events = edge_both; on = on }
    ∷ []

-- The loop of `irq_encoder_init`, from encoder `i` on.
init_from : ℕ → ℕ → List EncoderPin → IrqEncoders → List IrqCall → IrqEncoders × List IrqCall
unfolding read_state
init_from pins i [] s calls = (s, calls)
init_from pins i (c ∷ config) s calls =
    let fresh : IrqEncoders = record s {
      prev_state = set s.prev_state i (read_state pins c.base_pin);
      counter = set s.counter i 0;
    } in
    let skip = ltb c.base_pin 32 in
    init_from pins (i + 1) config (if skip then s else fresh)
      (if skip then calls else (calls ++ edge_calls c true))

unfoldable pub init : ℕ → List EncoderPin → IrqEncoders → IrqEncoders × List IrqCall
unfolding init_from
init pins config s = init_from pins 0 config (record s { cfg = config }) []

-- The guard `i >= cfg_count || cfg[i].base_pin < 32` of each function, negated.
unfoldable pub counts : List EncoderPin → ℕ → Bool
unfolding encoder_at
counts cfg i = ltb i (length cfg) && leb 32 (encoder_at cfg i).base_pin

unfoldable pub handle_edge : ℕ → ℕ → ℕ → IrqEncoders → IrqEncoders × Bool
handle_edge pins i gpio s =
    let base = (encoder_at s.cfg i).base_pin in
    let cur = read_state pins base in
    let idx = u8 (bit_or (get_or s.prev_state i 0 <<< 2) cur) in
    if counts s.cfg i && (gpio == base || gpio == base + 1)
    then (
      record s {
        counter = set s.counter i (add32 (get_or s.counter i 0) (get_or transition idx 0));
        prev_state = set s.prev_state i cur;
      },
      true,
    )
    else (s, false)

unfoldable pub read_count : ℕ → IrqEncoders → ℕ
read_count i s = get_or s.counter i 0

-- `prev_state[i]` taken from the pins
abbrev resync : ℕ → ℕ → IrqEncoders → IrqEncoders
resync pins i s = record s {
  prev_state = set s.prev_state i (read_state pins (encoder_at s.cfg i).base_pin);
}

unfoldable pub reset_count : ℕ → ℕ → IrqEncoders → IrqEncoders
reset_count pins i s =
    let t : IrqEncoders = record s { counter = set s.counter i 0 } in
    if counts s.cfg i then resync pins i t else t

unfoldable pub enable : ℕ → ℕ → IrqEncoders → IrqEncoders × List IrqCall
enable pins i s =
    let t : IrqEncoders = record s { counter = set s.counter i 0 } in
    if counts s.cfg i then (resync pins i t, edge_calls (encoder_at s.cfg i) true) else (s, [])

unfoldable pub disable : ℕ → IrqEncoders → IrqEncoders × List IrqCall
disable i s = if counts s.cfg i then (s, edge_calls (encoder_at s.cfg i) false) else (s, [])
