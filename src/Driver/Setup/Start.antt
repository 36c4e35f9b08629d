-- ===== src/Driver/Setup/Start.antt =====
-- hal-driver/flexi-ninja.c, `rtapi_app_main` and `module_init`: what the set-up writes.
-- `hal_malloc` gives memory of which the rest keeps what it has; the HAL pins with no initial value
-- keep theirs.
use flexi_ninja.Prelude.{ℕ, Bool, true, false, List, [], map, ◌∷◌}
use flexi_ninja.Prelude.Int.{pos}
use flexi_ninja.Driver.Arith.{Arith}
use flexi_ninja.Driver.Axis.{Axis}
use flexi_ninja.Driver.Send.{Module, PwmPins}
use flexi_ninja.Driver.Recv.{Encoder, Link, Status}
use flexi_ninja.Driver.Watchdog.{Watchdog}

abbrev pub off_pins : List (ℕ × Bool) → List (ℕ × Bool)
off_pins pins = map (λ pin. (pin.0, false)) pins

unfoldable pub init_pwm_pins : PwmPins → PwmPins
init_pwm_pins p = record p { enable = false; frequency = 5000; min_limit = 0; maxscale = 4096 }

-- The periods without a packet are counted from 0; ten are allowed.
unfoldable pub init_watchdog : Watchdog
init_watchdog = record {
  current_time = 0;
  last_received_time = 0;
  watchdog_timeout = 10;
  watchdog_running = false;
  watchdog_expired = false;
  checksum_index = 1;
  checksum_index_in = 1;
}

unfoldable pub init_status : Status → Status
init_status s = record s {
  step_ring_fill = 0;
  step_ring_active = false;
  step_ring_underflow = false;
  step_ring_overflow = false;
}

module _ (ar : Arith) where
  open ar use {lit, f32, of_int}

  -- `last_dir` is -1, which is no direction.
  unfoldable pub init_axis : Axis ar → Axis ar
  init_axis a = record a {
    scale = of_int (pos 1000);
    velocity_mode = false;
    enable = false;
    debug_steps = 0;
    first_data = true;
    last_dir = 255;
  }

  unfoldable pub init_encoder : Encoder ar → Encoder ar
  init_encoder e = record e {
    enabled = true;
    reset = false;
    scale = of_int (pos 1);
    filter_tau = f32 (lit 20 1000);
    filter_dt = f32 (lit 1 1000);
    vel_threshold = f32 (lit 1 1000);
    filter_y = of_int (pos 0);
    timestamp = 0;
    delta_time = 0;
    delta_count_accum = 0;
    prev_pos = of_int (pos 0);
  }

  -- With the static variables `timing` and `old_pulse_width`.
  unfoldable pub init_module : Module ar → Module ar
  init_module d = record d {
    watchdog_expired = false;
    watchdog_running = false;
    error_triggered = false;
    enc_enabled = true ∷ true ∷ [];
    pulse_width = 2500;
    old_pulse_width = 0;
    table = λ i. 0;
    axes = map (init_axis) d.axes;
    dir_setup_ns = 2500;
    output_pins = off_pins d.output_pins;
    ex_output_pins = off_pins d.ex_output_pins;
    probe_select = false;
    pwm = init_pwm_pins d.pwm;
  }

  unfoldable pub init_link : Link ar → Link ar
  init_link l = record l {
    watchdog = init_watchdog;
    status = init_status l.status;
    encoders = map (init_encoder) l.encoders;
    axes = map (init_axis) l.axes;
  }
