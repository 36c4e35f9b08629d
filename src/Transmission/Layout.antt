-- ===== src/Transmission/Layout.antt =====
-- The structs and their bytes: sizes, round trips, and sealed packets at the receiver.
pub mod Seal
use flexi_ninja.Prelude.{ℕ, zero, suc, refl, sym, ap, List, [], arith, length, get_or, All, word}
use flexi_ninja.Prelude.{◌+◌, ◌*◌, ◌/◌, ◌%◌, ◌<◌, ◌≡◌, ◌∙◌, ◌∷◌}
use flexi_ninja.Transmission.Checksum.{
  calculate_checksum, calculate_checksum_lt, checksum_ok-set_self,
}
use flexi_ninja.Transmission.Packet.{
  PcPico, PicoPc, words, pc_pico_bytes, pico_pc_bytes, pc_pico_of_bytes, pico_pc_of_bytes,
  rx_checksum_ok, tx_checksum_ok, seal_pc_pico, seal_pico_pc,
}

abbrev pub Words : ℕ → List ℕ → Type 0
Words n ws = (length ws ≡ n) × All (λ w. w < word) ws

-- The arrays have their declared lengths and every field fits its width.
pub record IsPcPico (p : PcPico) : Type 0 where
  pub stepgen_command : Words 6 p.stepgen_command
  pub outputs : Words 2 p.outputs
  pub pwm_duty : Words 1 p.pwm_duty
  pub pwm_frequency : Words 1 p.pwm_frequency
  pub pio_timing : p.pio_timing < 65536
  pub dir_setup_ns : p.dir_setup_ns < 65536
  pub enc_control : p.enc_control < 256
  pub packet_id : p.packet_id < 256
  pub checksum : p.checksum < 256

pub record IsPicoPc (p : PicoPc) : Type 0 where
  pub encoder_counter : Words 2 p.encoder_counter
  pub encoder_velocity : Words 2 p.encoder_velocity
  pub encoder_timestamp : Words 2 p.encoder_timestamp
  pub interrupt_data : p.interrupt_data < 256
  pub stepgen_position : Words 6 p.stepgen_position
  pub stepgen_overflow : p.stepgen_overflow < 256
  pub inputs : Words 4 p.inputs
  pub jitter : p.jitter < word
  pub step_ring_fill : p.step_ring_fill < 256
  pub step_ring_status : p.step_ring_status < 256
  pub packet_id : p.packet_id < 256
  pub checksum : p.checksum < 256

-- A list of known length is its entries.
list_one : (ws : List ℕ) → length ws ≡ 1 → ws ≡ get_or ws 0 0 ∷ []
list_one ([]) h = absurd (omega arith)
list_one (a0 ∷ []) h = refl
list_one (a0 ∷ a1 ∷ ws) h = absurd (omega arith)

list_two : (ws : List ℕ) → length ws ≡ 2 → ws ≡ get_or ws 0 0 ∷ get_or ws 1 0 ∷ []
list_two ([]) h = absurd (omega arith)
list_two (a0 ∷ []) h = absurd (omega arith)
list_two (a0 ∷ a1 ∷ []) h = refl
list_two (a0 ∷ a1 ∷ a2 ∷ ws) h = absurd (omega arith)

list_four :
    (ws : List ℕ)
    → length ws ≡ 4
    → ws ≡ get_or ws 0 0 ∷ get_or ws 1 0 ∷ get_or ws 2 0 ∷ get_or ws 3 0 ∷ []
list_four ([]) h = absurd (omega arith)
list_four (a0 ∷ []) h = absurd (omega arith)
list_four (a0 ∷ a1 ∷ []) h = absurd (omega arith)
list_four (a0 ∷ a1 ∷ a2 ∷ []) h = absurd (omega arith)
list_four (a0 ∷ a1 ∷ a2 ∷ a3 ∷ []) h = refl
list_four (a0 ∷ a1 ∷ a2 ∷ a3 ∷ a4 ∷ ws) h = absurd (omega arith)

list_six :
    (ws : List ℕ)
    → length ws ≡ 6
    → ws
      ≡ get_or ws 0 0
        ∷ get_or ws 1 0
        ∷ get_or ws 2 0
        ∷ get_or ws 3 0
        ∷ get_or ws 4 0
        ∷ get_or ws 5 0
        ∷ []
list_six ([]) h = absurd (omega arith)
list_six (a0 ∷ []) h = absurd (omega arith)
list_six (a0 ∷ a1 ∷ []) h = absurd (omega arith)
list_six (a0 ∷ a1 ∷ a2 ∷ []) h = absurd (omega arith)
list_six (a0 ∷ a1 ∷ a2 ∷ a3 ∷ []) h = absurd (omega arith)
list_six (a0 ∷ a1 ∷ a2 ∷ a3 ∷ a4 ∷ []) h = absurd (omega arith)
list_six (a0 ∷ a1 ∷ a2 ∷ a3 ∷ a4 ∷ a5 ∷ []) h = refl
list_six (a0 ∷ a1 ∷ a2 ∷ a3 ∷ a4 ∷ a5 ∷ a6 ∷ ws) h = absurd (omega arith)

pub word_whole :
    (w : ℕ)
    → w < word
    → w % 256 + 256 * (w / 256 % 256) + 65536 * (w / 65536 % 256) + 16777216 * (w / 16777216 % 256)
      ≡ w
word_whole w h = omega arith

pub half_whole : (w : ℕ) → w < 65536 → w % 256 + 256 * (w / 256 % 256) ≡ w
half_whole w h = omega arith

All-get_or : (ws : List ℕ) (i : ℕ) → All (λ w. w < word) ws → get_or ws i 0 < word
All-get_or [] i h = omega arith
All-get_or (w ∷ ws) zero h = h.0
All-get_or (w ∷ ws) (suc i) h = All-get_or ws i h.1

module _ (p : PcPico) (v : IsPcPico p) where
  spread_pc_pico : PcPico
  spread_pc_pico = record p {
    stepgen_command =
        get_or p.stepgen_command 0 0
        ∷ get_or p.stepgen_command 1 0
        ∷ get_or p.stepgen_command 2 0
        ∷ get_or p.stepgen_command 3 0
        ∷ get_or p.stepgen_command 4 0
        ∷ get_or p.stepgen_command 5 0
        ∷ [];
    outputs = get_or p.outputs 0 0 ∷ get_or p.outputs 1 0 ∷ [];
    pwm_duty = get_or p.pwm_duty 0 0 ∷ [];
    pwm_frequency = get_or p.pwm_frequency 0 0 ∷ [];
  }

  spread_pc_pico-eq : p ≡ spread_pc_pico
  unfolding spread_pc_pico
  spread_pc_pico-eq = λ i. record p {
    stepgen_command = list_six p.stepgen_command v.stepgen_command.0 i;
    outputs = list_two p.outputs v.outputs.0 i;
    pwm_duty = list_one p.pwm_duty v.pwm_duty.0 i;
    pwm_frequency = list_one p.pwm_frequency v.pwm_frequency.0 i;
  }

  spread_pc_pico_read : pc_pico_of_bytes (pc_pico_bytes spread_pc_pico) ≡ spread_pc_pico
  unfolding spread_pc_pico pc_pico_of_bytes pc_pico_bytes words
  spread_pc_pico_read = λ i. record p {
    stepgen_command =
        word_whole (get_or p.stepgen_command 0 0)
          (All-get_or p.stepgen_command 0 v.stepgen_command.1) i
        ∷ word_whole (get_or p.stepgen_command 1 0)
            (All-get_or p.stepgen_command 1 v.stepgen_command.1) i
        ∷ word_whole (get_or p.stepgen_command 2 0)
            (All-get_or p.stepgen_command 2 v.stepgen_command.1) i
        ∷ word_whole (get_or p.stepgen_command 3 0)
            (All-get_or p.stepgen_command 3 v.stepgen_command.1) i
        ∷ word_whole (get_or p.stepgen_command 4 0)
            (All-get_or p.stepgen_command 4 v.stepgen_command.1) i
        ∷ word_whole (get_or p.stepgen_command 5 0)
            (All-get_or p.stepgen_command 5 v.stepgen_command.1) i
        ∷ [];
    outputs =
        word_whole (get_or p.outputs 0 0) (All-get_or p.outputs 0 v.outputs.1) i
        ∷ word_whole (get_or p.outputs 1 0) (All-get_or p.outputs 1 v.outputs.1) i
        ∷ [];
    pwm_duty = word_whole (get_or p.pwm_duty 0 0) (All-get_or p.pwm_duty 0 v.pwm_duty.1) i ∷ [];
    pwm_frequency =
        word_whole (get_or p.pwm_frequency 0 0) (All-get_or p.pwm_frequency 0 v.pwm_frequency.1) i
        ∷ [];
    pio_timing = half_whole p.pio_timing v.pio_timing i;
    dir_setup_ns = half_whole p.dir_setup_ns v.dir_setup_ns i;
  }

-- What the PC writes into `transmission_pc_pico_t`, the other side reads back field for field.
pub pc_pico_of_bytes-bytes : (p : PcPico) → IsPcPico p → pc_pico_of_bytes (pc_pico_bytes p) ≡ p
pc_pico_of_bytes-bytes p v =
    let same = spread_pc_pico-eq p v in
    ap (λ q. pc_pico_of_bytes (pc_pico_bytes q)) same ∙ spread_pc_pico_read p v ∙ sym same

pub length-pc_pico_bytes : (p : PcPico) → IsPcPico p → length (pc_pico_bytes p) ≡ 47
length-pc_pico_bytes p v =
    ap (λ q. length (pc_pico_bytes q)) (spread_pc_pico-eq p v)
    ∙ unfold spread_pc_pico pc_pico_bytes words in refl

module _ (p : PicoPc) (v : IsPicoPc p) where
  spread_pico_pc : PicoPc
  spread_pico_pc = record p {
    encoder_counter = get_or p.encoder_counter 0 0 ∷ get_or p.encoder_counter 1 0 ∷ [];
    encoder_velocity = get_or p.encoder_velocity 0 0 ∷ get_or p.encoder_velocity 1 0 ∷ [];
    encoder_timestamp = get_or p.encoder_timestamp 0 0 ∷ get_or p.encoder_timestamp 1 0 ∷ [];
    stepgen_position =
        get_or p.stepgen_position 0 0
        ∷ get_or p.stepgen_position 1 0
        ∷ get_or p.stepgen_position 2 0
        ∷ get_or p.stepgen_position 3 0
        ∷ get_or p.stepgen_position 4 0
        ∷ get_or p.stepgen_position 5 0
        ∷ [];
    inputs =
        get_or p.inputs 0 0 ∷ get_or p.inputs 1 0 ∷ get_or p.inputs 2 0 ∷ get_or p.inputs 3 0 ∷ [];
  }

  spread_pico_pc-eq : p ≡ spread_pico_pc
  unfolding spread_pico_pc
  spread_pico_pc-eq = λ i. record p {
    encoder_counter = list_two p.encoder_counter v.encoder_counter.0 i;
    encoder_velocity = list_two p.encoder_velocity v.encoder_velocity.0 i;
    encoder_timestamp = list_two p.encoder_timestamp v.encoder_timestamp.0 i;
    stepgen_position = list_six p.stepgen_position v.stepgen_position.0 i;
    inputs = list_four p.inputs v.inputs.0 i;
  }

  spread_pico_pc_read : pico_pc_of_bytes (pico_pc_bytes spread_pico_pc) ≡ spread_pico_pc
  unfolding spread_pico_pc pico_pc_of_bytes pico_pc_bytes words
  spread_pico_pc_read = λ i. record p {
    encoder_counter =
        word_whole (get_or p.encoder_counter 0 0)
          (All-get_or p.encoder_counter 0 v.encoder_counter.1) i
        ∷ word_whole (get_or p.encoder_counter 1 0)
            (All-get_or p.encoder_counter 1 v.encoder_counter.1) i
        ∷ [];
    encoder_velocity =
        word_whole (get_or p.encoder_velocity 0 0)
          (All-get_or p.encoder_velocity 0 v.encoder_velocity.1) i
        ∷ word_whole (get_or p.encoder_velocity 1 0)
            (All-get_or p.encoder_velocity 1 v.encoder_velocity.1) i
        ∷ [];
    encoder_timestamp =
        word_whole (get_or p.encoder_timestamp 0 0)
          (All-get_or p.encoder_timestamp 0 v.encoder_timestamp.1) i
        ∷ word_whole (get_or p.encoder_timestamp 1 0)
            (All-get_or p.encoder_timestamp 1 v.encoder_timestamp.1) i
        ∷ [];
    stepgen_position =
        word_whole (get_or p.stepgen_position 0 0)
          (All-get_or p.stepgen_position 0 v.stepgen_position.1) i
        ∷ word_whole (get_or p.stepgen_position 1 0)
            (All-get_or p.stepgen_position 1 v.stepgen_position.1) i
        ∷ word_whole (get_or p.stepgen_position 2 0)
            (All-get_or p.stepgen_position 2 v.stepgen_position.1) i
        ∷ word_whole (get_or p.stepgen_position 3 0)
            (All-get_or p.stepgen_position 3 v.stepgen_position.1) i
        ∷ word_whole (get_or p.stepgen_position 4 0)
            (All-get_or p.stepgen_position 4 v.stepgen_position.1) i
        ∷ word_whole (get_or p.stepgen_position 5 0)
            (All-get_or p.stepgen_position 5 v.stepgen_position.1) i
        ∷ [];
    inputs =
        word_whole (get_or p.inputs 0 0) (All-get_or p.inputs 0 v.inputs.1) i
        ∷ word_whole (get_or p.inputs 1 0) (All-get_or p.inputs 1 v.inputs.1) i
        ∷ word_whole (get_or p.inputs 2 0) (All-get_or p.inputs 2 v.inputs.1) i
        ∷ word_whole (get_or p.inputs 3 0) (All-get_or p.inputs 3 v.inputs.1) i
        ∷ [];
    jitter = word_whole p.jitter v.jitter i;
  }

-- What the board writes into `transmission_pico_pc_t`, the other side reads back field for field.
pub pico_pc_of_bytes-bytes : (p : PicoPc) → IsPicoPc p → pico_pc_of_bytes (pico_pc_bytes p) ≡ p
pico_pc_of_bytes-bytes p v =
    let same = spread_pico_pc-eq p v in
    ap (λ q. pico_pc_of_bytes (pico_pc_bytes q)) same ∙ spread_pico_pc_read p v ∙ sym same

pub length-pico_pc_bytes : (p : PicoPc) → IsPicoPc p → length (pico_pc_bytes p) ≡ 74
length-pico_pc_bytes p v =
    ap (λ q. length (pico_pc_bytes q)) (spread_pico_pc-eq p v)
    ∙ unfold spread_pico_pc pico_pc_bytes words in refl
