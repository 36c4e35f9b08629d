-- ===== src/Transmission/Tests.antt =====
-- The theorems on packets and on the PIO table at concrete inputs.
use flexi_ninja.Prelude.{ℕ, refl, true, false, List, [], arith, set, ◌≡◌, ◌∷◌}
use flexi_ninja.Transmission.Table.{jump_table}
use flexi_ninja.Transmission.Checksum.{calculate_checksum, checksum_ok, checksum_ok-set}
use flexi_ninja.Transmission.Packet.{
  PcPico, PicoPc, pc_pico_bytes, pico_pc_bytes, pc_pico_of_bytes, pico_pc_of_bytes,
}
use flexi_ninja.Transmission.Layout.{
  IsPcPico, IsPicoPc, pc_pico_of_bytes-bytes, pico_pc_of_bytes-bytes,
}

abbrev command_packet : PcPico
command_packet = record {
  stepgen_command = 1034 ∷ 0 ∷ 2047 ∷ 0 ∷ 0 ∷ 4294967295 ∷ [];
  outputs = 2147483649 ∷ 0 ∷ [];
  pwm_duty = 2048 ∷ [];
  pwm_frequency = 5000 ∷ [];
  pio_timing = 298;
  dir_setup_ns = 500;
  enc_control = 17;
  packet_id = 7;
  checksum = 0;
}

command_packet-IsPcPico : IsPcPico command_packet
command_packet-IsPcPico = record {
  stepgen_command = (
    refl,
    (omega arith, (omega arith, (omega arith, (omega arith, (omega arith, (omega arith, tt)))))),
  );
  outputs = (refl, (omega arith, (omega arith, tt)));
  pwm_duty = (refl, (omega arith, tt));
  pwm_frequency = (refl, (omega arith, tt));
  pio_timing = omega arith;
  dir_setup_ns = omega arith;
  enc_control = omega arith;
  packet_id = omega arith;
  checksum = omega arith;
}

abbrev report_packet : PicoPc
report_packet = record {
  encoder_counter = 12 ∷ 4294967290 ∷ [];
  encoder_velocity = 0 ∷ 0 ∷ [];
  encoder_timestamp = 123456 ∷ 123460 ∷ [];
  interrupt_data = 1;
  stepgen_position = 10 ∷ 20 ∷ 30 ∷ 40 ∷ 50 ∷ 4294967236 ∷ [];
  stepgen_overflow = 2;
  inputs = 1 ∷ 2 ∷ 3 ∷ 0 ∷ [];
  jitter = 1001;
  step_ring_fill = 0;
  step_ring_status = 0;
  packet_id = 7;
  checksum = 0;
}

report_packet-IsPicoPc : IsPicoPc report_packet
report_packet-IsPicoPc = record {
  encoder_counter = (refl, (omega arith, (omega arith, tt)));
  encoder_velocity = (refl, (omega arith, (omega arith, tt)));
  encoder_timestamp = (refl, (omega arith, (omega arith, tt)));
  interrupt_data = omega arith;
  stepgen_position = (
    refl,
    (omega arith, (omega arith, (omega arith, (omega arith, (omega arith, (omega arith, tt)))))),
  );
  stepgen_overflow = omega arith;
  inputs = (refl, (omega arith, (omega arith, (omega arith, (omega arith, tt)))));
  jitter = omega arith;
  step_ring_fill = omega arith;
  step_ring_status = omega arith;
  packet_id = omega arith;
  checksum = omega arith;
}

pc_pico_of_bytes-bytes_example : pc_pico_of_bytes (pc_pico_bytes command_packet) ≡ command_packet
pc_pico_of_bytes-bytes_example = pc_pico_of_bytes-bytes command_packet command_packet-IsPcPico

pico_pc_of_bytes-bytes_example : pico_pc_of_bytes (pico_pc_bytes report_packet) ≡ report_packet
pico_pc_of_bytes-bytes_example = pico_pc_of_bytes-bytes report_packet report_packet-IsPicoPc

-- Four bytes and their checksum.
abbrev sealed_buffer : List ℕ
sealed_buffer = 1 ∷ 2 ∷ 3 ∷ 4 ∷ 230 ∷ []

sealed_buffer_ok : checksum_ok 5 sealed_buffer ≡ true
unfolding checksum_ok calculate_checksum jump_table
sealed_buffer_ok = refl

checksum_ok-set_example : checksum_ok 5 (set sealed_buffer 2 7) ≡ false
checksum_ok-set_example =
    checksum_ok-set 5 sealed_buffer 2 7 refl (omega arith) (omega arith) (omega arith) (omega arith)
      sealed_buffer_ok
