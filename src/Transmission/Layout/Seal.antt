-- ===== src/Transmission/Layout/Seal.antt =====
-- A packet with its checksum: it passes the check of the other side.
use flexi_ninja.Prelude.{ℕ, refl, sym, ap, true, arith, set, ◌≡◌, ◌∙◌}
use flexi_ninja.Transmission.Checksum.{
  calculate_checksum, calculate_checksum_lt, checksum_ok-set_self,
}
use flexi_ninja.Transmission.Packet.{
  PcPico, PicoPc, pc_pico_bytes, pico_pc_bytes, words, seal_pc_pico, seal_pico_pc, rx_checksum_ok,
  tx_checksum_ok,
}
use flexi_ninja.Transmission.Layout.{
  IsPcPico, IsPicoPc, spread_pc_pico, spread_pc_pico-eq, spread_pico_pc, spread_pico_pc-eq,
  length-pc_pico_bytes, length-pico_pc_bytes,
}

-- The checksum is the last byte of the struct, and of no other.
bytes-seal_pc_pico :
    (p : PcPico)
    → IsPcPico p
    → (c : ℕ) → pc_pico_bytes (record p { checksum = c }) ≡ set (pc_pico_bytes p) 46 c
unfolding spread_pc_pico pc_pico_bytes words
bytes-seal_pc_pico p v c =
    let same = spread_pc_pico-eq p v in
    ap (λ (q : PcPico). pc_pico_bytes (record q { checksum = c })) same
    ∙ refl
    ∙ sym (ap (λ q. set (pc_pico_bytes q) 46 c) same)

bytes-seal_pico_pc :
    (p : PicoPc)
    → IsPicoPc p
    → (c : ℕ) → pico_pc_bytes (record p { checksum = c }) ≡ set (pico_pc_bytes p) 73 c
unfolding spread_pico_pc pico_pc_bytes words
bytes-seal_pico_pc p v c =
    let same = spread_pico_pc-eq p v in
    ap (λ (q : PicoPc). pico_pc_bytes (record q { checksum = c })) same
    ∙ refl
    ∙ sym (ap (λ q. set (pico_pc_bytes q) 73 c) same)

pub rx_checksum_ok-seal : (p : PcPico) → IsPcPico p → rx_checksum_ok (seal_pc_pico p) ≡ true
unfolding rx_checksum_ok seal_pc_pico
rx_checksum_ok-seal p v =
    rw (bytes-seal_pc_pico p v (calculate_checksum (pc_pico_bytes p) 46))
      (checksum_ok-set_self 47 (pc_pico_bytes p) (length-pc_pico_bytes p v) (omega arith))

pub seal_pc_pico-IsPcPico : (p : PcPico) → IsPcPico p → IsPcPico (seal_pc_pico p)
unfolding seal_pc_pico
seal_pc_pico-IsPcPico p v = record {
  stepgen_command = v.stepgen_command;
  outputs = v.outputs;
  pwm_duty = v.pwm_duty;
  pwm_frequency = v.pwm_frequency;
  pio_timing = v.pio_timing;
  dir_setup_ns = v.dir_setup_ns;
  enc_control = v.enc_control;
  packet_id = v.packet_id;
  checksum = calculate_checksum_lt (pc_pico_bytes p) 46;
}

pub tx_checksum_ok-seal : (q : PicoPc) → IsPicoPc q → tx_checksum_ok (seal_pico_pc q) ≡ true
unfolding tx_checksum_ok seal_pico_pc
tx_checksum_ok-seal q w =
    rw (bytes-seal_pico_pc q w (calculate_checksum (pico_pc_bytes q) 73))
      (checksum_ok-set_self 74 (pico_pc_bytes q) (length-pico_pc_bytes q w) (omega arith))

pub seal_pico_pc-IsPicoPc : (q : PicoPc) → IsPicoPc q → IsPicoPc (seal_pico_pc q)
unfolding seal_pico_pc
seal_pico_pc-IsPicoPc q w = record {
  encoder_counter = w.encoder_counter;
  encoder_velocity = w.encoder_velocity;
  encoder_timestamp = w.encoder_timestamp;
  interrupt_data = w.interrupt_data;
  stepgen_position = w.stepgen_position;
  stepgen_overflow = w.stepgen_overflow;
  inputs = w.inputs;
  jitter = w.jitter;
  step_ring_fill = w.step_ring_fill;
  step_ring_status = w.step_ring_status;
  packet_id = w.packet_id;
  checksum = calculate_checksum_lt (pico_pc_bytes q) 73;
}

-- A packet that the PC seals is accepted by the board, and one that the board seals by the PC.
pub seal_accepted :
    (p : PcPico) (q : PicoPc)
    → IsPcPico p
    → IsPicoPc q
    → (rx_checksum_ok (seal_pc_pico p) ≡ true) × (tx_checksum_ok (seal_pico_pc q) ≡ true)
seal_accepted p q v w = (rx_checksum_ok-seal p v, tx_checksum_ok-seal q w)
