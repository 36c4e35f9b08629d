-- ===== src/Transmission/Packet.antt =====
-- firmware/lib/modules/inc/transmission.h: the two packed structs, as records, and as the bytes that
-- `memcpy` moves (little endian, no padding). The board is BOARD_FLEXI_2350: 6 stepgens, 2 encoders,
-- 1 PWM channel, no analog channel. A signed field is its bit pattern.
use flexi_ninja.Prelude.{ℕ, zero, suc, Bool, List, [], get_or, ◌+◌, ◌*◌, ◌/◌, ◌%◌, ◌∷◌, ◌++◌}
use flexi_ninja.Transmission.Checksum.{calculate_checksum, checksum_ok}

abbrev pub stepgens : ℕ
stepgens = 6

abbrev pub encoders : ℕ
encoders = 2

abbrev pub pwm_count : ℕ
pwm_count = 1

-- `transmission_pc_pico_t`
pub record PcPico : Type 0 where
  pub stepgen_command : List ℕ
  pub outputs : List ℕ
  pub pwm_duty : List ℕ
  pub pwm_frequency : List ℕ
  pub pio_timing : ℕ
  pub dir_setup_ns : ℕ
  pub enc_control : ℕ
  pub packet_id : ℕ
  pub checksum : ℕ

-- `transmission_pico_pc_t`
pub record PicoPc : Type 0 where
  pub encoder_counter : List ℕ
  pub encoder_velocity : List ℕ
  pub encoder_timestamp : List ℕ
  pub interrupt_data : ℕ
  pub stepgen_position : List ℕ
  pub stepgen_overflow : ℕ
  pub inputs : List ℕ
  pub jitter : ℕ
  pub step_ring_fill : ℕ
  pub step_ring_status : ℕ
  pub packet_id : ℕ
  pub checksum : ℕ

-- `sizeof` of the two
abbrev pub pc_pico_size : ℕ
pc_pico_size = 47

abbrev pub pico_pc_size : ℕ
pico_pc_size = 74

abbrev pub le16 : ℕ → List ℕ
le16 n = n % 256 ∷ n / 256 % 256 ∷ []

abbrev pub le32 : ℕ → List ℕ
le32 n = n % 256 ∷ n / 256 % 256 ∷ n / 65536 % 256 ∷ n / 16777216 % 256 ∷ []

unfoldable pub words : List ℕ → List ℕ
words [] = []
words (w ∷ ws) = le32 w ++ words ws

pc_pico_body : PcPico → List ℕ
pc_pico_body p =
    words p.stepgen_command
    ++ (words p.outputs
        ++ (words p.pwm_duty
            ++ (words p.pwm_frequency
                ++ (le16 p.pio_timing
                    ++ (le16 p.dir_setup_ns ++ (p.enc_control ∷ p.packet_id ∷ []))))))

-- All bytes of the struct.
unfoldable pub pc_pico_bytes : PcPico → List ℕ
unfolding pc_pico_body
pc_pico_bytes p = pc_pico_body p ++ (p.checksum ∷ [])

pico_pc_body : PicoPc → List ℕ
pico_pc_body p =
    words p.encoder_counter
    ++ (words p.encoder_velocity
        ++ (words p.encoder_timestamp
            ++ (p.interrupt_data
                ∷ (words p.stepgen_position
                    ++ (p.stepgen_overflow
                        ∷ (words p.inputs
                            ++ (le32 p.jitter
                                ++ (p.step_ring_fill ∷ p.step_ring_status ∷ p.packet_id ∷ []))))))))

unfoldable pub pico_pc_bytes : PicoPc → List ℕ
unfolding pico_pc_body
pico_pc_bytes p = pico_pc_body p ++ (p.checksum ∷ [])

-- The fields of a struct at an offset.
abbrev pub byte_at : List ℕ → ℕ → ℕ
byte_at bytes i = get_or bytes i 0

abbrev pub word16_at : List ℕ → ℕ → ℕ
word16_at bytes i = byte_at bytes i + 256 * byte_at bytes (i + 1)

abbrev pub word_at : List ℕ → ℕ → ℕ
word_at bytes i =
    byte_at bytes i
    + 256 * byte_at bytes (i + 1)
    + 65536 * byte_at bytes (i + 2)
    + 16777216 * byte_at bytes (i + 3)

-- `n` words from offset `i` on
abbrev pub words_at : ℕ → List ℕ → ℕ → List ℕ
words_at zero bytes i = []
words_at (suc n) bytes i = word_at bytes i ∷ words_at n bytes (i + 4)

-- What the fields read after `memcpy` of received bytes over the struct.
unfoldable pub pc_pico_of_bytes : List ℕ → PcPico
pc_pico_of_bytes bytes = record {
  stepgen_command = words_at stepgens bytes 0;
  outputs = words_at 2 bytes 24;
  pwm_duty = words_at pwm_count bytes 32;
  pwm_frequency = words_at pwm_count bytes 36;
  pio_timing = word16_at bytes 40;
  dir_setup_ns = word16_at bytes 42;
  enc_control = byte_at bytes 44;
  packet_id = byte_at bytes 45;
  checksum = byte_at bytes 46;
}

unfoldable pub pico_pc_of_bytes : List ℕ → PicoPc
pico_pc_of_bytes bytes = record {
  encoder_counter = words_at encoders bytes 0;
  encoder_velocity = words_at encoders bytes 8;
  encoder_timestamp = words_at encoders bytes 16;
  interrupt_data = byte_at bytes 24;
  stepgen_position = words_at stepgens bytes 25;
  stepgen_overflow = byte_at bytes 49;
  inputs = words_at 4 bytes 50;
  jitter = word_at bytes 66;
  step_ring_fill = byte_at bytes 70;
  step_ring_status = byte_at bytes 71;
  packet_id = byte_at bytes 72;
  checksum = byte_at bytes 73;
}

unfoldable pub rx_checksum_ok : PcPico → Bool
rx_checksum_ok p = checksum_ok pc_pico_size (pc_pico_bytes p)

unfoldable pub tx_checksum_ok : PicoPc → Bool
tx_checksum_ok p = checksum_ok pico_pc_size (pico_pc_bytes p)

-- `tx_buffer->checksum = calculate_checksum(tx_buffer, tx_size - 1)` of the PC and of the board
unfoldable pub seal_pc_pico : PcPico → PcPico
seal_pc_pico p = record p { checksum = calculate_checksum (pc_pico_bytes p) 46 }

unfoldable pub seal_pico_pc : PicoPc → PicoPc
seal_pico_pc p = record p { checksum = calculate_checksum (pico_pc_bytes p) 73 }
