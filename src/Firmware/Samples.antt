-- ===== src/Firmware/Samples.antt =====
-- A board of BOARD_FLEXI_2350 for the tests.
use flexi_ninja.Prelude.{false, [], ◌∷◌}
use flexi_ninja.Transmission.Packet.{PicoPc}
use flexi_ninja.Firmware.IrqEncoder.{IrqEncoders}
use flexi_ninja.Firmware.Stepgen.{StepState}
use flexi_ninja.Firmware.HandleData.{Config, Board, Reads}
use flexi_ninja.Firmware.CoreState.{Core1}
use flexi_ninja.Firmware.StepProgram.{freq_generator, assembled}

abbrev pub config : Config
config = record {
  dir_invert = λ i. false;
  encoder_config =
      record { base_pin = 9; index_pin = 11; index_active_level = 1 }
      ∷ record { base_pin = 46; index_pin = 45; index_active_level = 1 }
      ∷ [];
  output_pins = record { gpio = 255; invert = false } ∷ [];
  pwm_pin = λ i. 26;
}

abbrev pub steps : StepState
steps = record { position = 0 ∷ 0 ∷ 0 ∷ 0 ∷ 0 ∷ 5 ∷ []; overflow = 0; puts = [] }

abbrev pub irq : IrqEncoders
irq = record { counter = 0 ∷ 7 ∷ []; prev_state = 0 ∷ 0 ∷ []; cfg = config.encoder_config }

abbrev pub reply : PicoPc
reply = record {
  encoder_counter = 0 ∷ 0 ∷ [];
  encoder_velocity = 0 ∷ 0 ∷ [];
  encoder_timestamp = 0 ∷ 0 ∷ [];
  interrupt_data = 0;
  stepgen_position = 0 ∷ 0 ∷ 0 ∷ 0 ∷ 0 ∷ 0 ∷ [];
  stepgen_overflow = 0;
  inputs = 0 ∷ 0 ∷ 0 ∷ 0 ∷ [];
  jitter = 0;
  step_ring_fill = 0;
  step_ring_status = 0;
  packet_id = 0;
  checksum = 36;
}

abbrev pub board : Board
board = record {
  rx_counter = 0;
  checksum_error = false;
  checksum_ok_count = 0;
  last_packet_time = 1000;
  steps = steps;
  pwm_freq_buffer = 0 ∷ [];
  irq = irq;
  pio_enc_offset = 0 ∷ 0 ∷ [];
  enc_reset_done = 0;
  index_reset_flags = 0;
  input_buffer = 0 ∷ 0 ∷ 0 ∷ 0 ∷ [];
  flex = record { pending = false; last_probe_mask = 0 };
  tx = reply;
}

abbrev pub reads : Reads
reads = record {
  now1 = 2000;
  now2 = 2001;
  full = λ i k. false;
  reset_pins = λ i. 0;
  reset_count_pio = λ i. 0;
  timestamp = λ i. 2002;
  count_pio = λ i. 3;
  flex_value = 0;
  pins_low = 0;
  pins_high = 0;
}

-- Core 1 with that board.
abbrev pub core : Core1
core = record {
  board = board;
  connected = 1;
  timeout_error = 0;
  timeout_us = 100000;
  checksum_index = 1;
  checksum_index_in = 1;
  first_data = false;
  first_send = 0;
  encoder = 4 ∷ 9 ∷ [];
  enc_index_enabled = 1 ∷ 0 ∷ [];
  enc_irq_enabled = 0 ∷ 0 ∷ [];
  sety = 0;
  nop = 0;
  old = record { dir_n = 0; dir_d1 = 0; dir_d2 = 0; sety = 0; nop_delay = 0 };
  programs = freq_generator assembled ∷ freq_generator assembled ∷ [];
  old_pwm_frequency = 0 ∷ [];
}
