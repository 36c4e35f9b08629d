-- ===== src/Driver/Samples.antt =====
-- A driver for the tests, with an arithmetic of whole numbers.
use flexi_ninja.Prelude.{true, false, [], ◌∷◌}
use flexi_ninja.Prelude.Int.{pos}
use flexi_ninja.Driver.Arith.Whole.{whole}
use flexi_ninja.Driver.Axis.{Axis}
use flexi_ninja.Driver.Send.{Module}
use flexi_ninja.Driver.Watchdog.{Watchdog}
use flexi_ninja.Driver.Recv.{Encoder, Link}

-- An axis at 10000 steps.
abbrev pub axis : Axis whole
axis = record {
  command = pos 0;
  feedback = pos 0;
  scale = pos 1;
  velocity_mode = false;
  enable = true;
  debug_steps = 0;
  last_actual_position = 0;
  prev_pos = pos 10000;
  curr_pos = pos 10000;
  first_data = false;
  last_dir = 0;
}

abbrev pub module_data : Module whole
module_data = record {
  watchdog_expired = false;
  watchdog_running = true;
  error_triggered = false;
  io_ready_in = true;
  io_ready_out = false;
  index_triggered = false ∷ false ∷ [];
  enc_enabled = true ∷ false ∷ [];
  enc_reset_pending = 0;
  pulse_width = 2500;
  old_pulse_width = 0;
  table = λ i. 0;
  axes = axis ∷ axis ∷ axis ∷ axis ∷ axis ∷ axis ∷ [];
  debug_steps_reset = false;
  dir_setup_ns = 500;
  output_pins = (255, false) ∷ [];
  ex_output_pins = (29, true) ∷ [];
  probe_select = false;
  pwm = record { enable = true; output = 2048; frequency = 5000; maxscale = 4096; min_limit = 0 };
  tx_counter = 255;
}

abbrev pub watchdog : Watchdog
watchdog = record {
  current_time = 5000;
  last_received_time = 4990;
  watchdog_timeout = 100;
  watchdog_running = true;
  watchdog_expired = false;
  checksum_index = 0;
  checksum_index_in = 0;
}

abbrev pub encoder : Encoder whole
encoder = record {
  enabled = true;
  index = true;
  reset = false;
  scale = pos 4000;
  filter_tau = pos 0;
  filter_dt = pos 0;
  vel_threshold = pos 0;
  raw_count = 3990;
  position = pos 0;
  velocity = pos 3;
  rpm = pos 180;
  filter_y = pos 3;
  index_triggered = false;
  timestamp = 1000;
  delta_time = 1000;
  delta_count = 12;
  delta_count_accum = 12;
  delta_pos = pos 0;
  prev_pos = pos 0;
}

abbrev pub link : Link whole
link = record {
  watchdog = watchdog;
  status = record {
    connected = true;
    io_ready_out = true;
    checksum_error = false;
    jitter = 0;
    step_ring_fill = 0;
    step_ring_active = false;
    step_ring_underflow = false;
    step_ring_overflow = false;
  };
  enc_reset_pending = 0;
  encoders = encoder ∷ encoder ∷ [];
  axes = axis ∷ [];
  input_pins = 24 ∷ 32 ∷ [];
  ex_input_pins = 5 ∷ [];
  inputs = (true, false) ∷ (false, true) ∷ [];
  ex_inputs = (true, false) ∷ [];
}
