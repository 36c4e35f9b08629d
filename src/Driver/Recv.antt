-- ===== src/Driver/Recv.antt =====
-- hal-driver/flexi-ninja.c, `udp_io_process_recv`: what the driver takes from the board's reply,
-- with the velocity filter of the encoders. `debug_mode` is an argument. A 32-bit number is its bit
-- pattern.
pub mod Laws
pub mod Axes
use flexi_ninja.Prelude.{ℕ, Bool, true, false, not, List, [], ltb, get_or, u8, word, add32, sub32}
use flexi_ninja.Prelude.{is_neg32, test_bit, set_bit, clear_bit, ◌+◌, ◌-◌, ◌&&◌, ◌∷◌, ◌==◌}
use flexi_ninja.Prelude.{if◌then◌else◌}
use flexi_ninja.Prelude.Int.{ℤ, pos, negsuc}
use flexi_ninja.Transmission.Packet.{PicoPc, tx_checksum_ok}
use flexi_ninja.Driver.Arith.{Arith}
use flexi_ninja.Driver.Axis.{Axis, pattern}
use flexi_ninja.Driver.Io.{bb_hal_process_recv}
use flexi_ninja.Driver.Watchdog.{Watchdog, received}

-- The number that an int32 bit pattern stands for.
abbrev pub signed32 : ℕ → ℤ
signed32 w = if is_neg32 w then negsuc (word - 1 - w) else pos w

-- The HAL pins on the connection.
pub record Status : Type 0 where
  pub connected : Bool
  pub io_ready_out : Bool
  pub checksum_error : Bool
  pub jitter : ℕ
  pub step_ring_fill : ℕ
  pub step_ring_active : Bool
  pub step_ring_underflow : Bool
  pub step_ring_overflow : Bool

-- The ring's pins and `io_ready_out` at 0, as at an expired watchdog.
abbrev pub quiet : Status → Status
quiet s = record s {
  step_ring_fill = 0;
  step_ring_active = false;
  step_ring_underflow = false;
  step_ring_overflow = false;
  io_ready_out = false;
}

module _ (ar : Arith) where
  open ar use {F, of_int, lit, f32, add, sub, mul, div, fabs, fmax, lt, to_i32}

  -- The fields of an encoder, its HAL pins and its filter's `y` included.
  pub record Encoder : Type 0 where
    pub enabled : Bool
    pub index : Bool
    pub reset : Bool
    pub scale : F
    pub filter_tau : F
    pub filter_dt : F
    pub vel_threshold : F
    pub raw_count : ℕ
    pub position : F
    pub velocity : F
    pub rpm : F
    pub filter_y : F
    pub index_triggered : Bool
    pub timestamp : ℕ
    pub delta_time : ℕ
    pub delta_count : ℕ
    pub delta_count_accum : ℕ
    pub delta_pos : F
    pub prev_pos : F

  abbrev zero_f : F
  zero_f = of_int (pos 0)

  -- The deltas at 0 and the position taken as the previous one; the count and the time are the
  -- board's.
  unfoldable pub rebase : ℕ → ℕ → Encoder → Encoder
  rebase count timestamp e = record e {
    raw_count = count;
    timestamp = timestamp;
    delta_count = 0;
    delta_count_accum = 0;
    delta_time = 0;
    delta_pos = zero_f;
    prev_pos = f32 e.position;
  }

  -- An encoder that is switched off.
  unfoldable pub clear_encoder : Encoder → Encoder
  clear_encoder e = record e {
    raw_count = 0;
    position = zero_f;
    velocity = zero_f;
    rpm = zero_f;
    delta_count = 0;
    delta_count_accum = 0;
    delta_time = 0;
    delta_pos = zero_f;
    timestamp = 0;
    prev_pos = zero_f;
  }

  -- `lpf_update`: the filter's new `y`
  unfoldable pub lpf_update : F → F → F → F
  lpf_update alpha y x = f32 (add y (f32 (mul alpha (f32 (sub x y)))))

  -- `filter[i].alpha`
  unfoldable pub filter_alpha : Encoder → F
  filter_alpha e =
      let tau = f32 (fmax (f32 e.filter_tau) (lit 1 1000000)) in
      let dt = f32 (fmax (f32 e.filter_dt) (lit 1 1000000)) in f32 (div dt (f32 (add tau dt)))

  -- The new `delta_pos`, filter state and velocity, by the time that passed.
  unfoldable pub measure_velocity : Encoder → F × F × F
  measure_velocity e =
      let moved = f32 (div (f32 (of_int (signed32 e.delta_count_accum))) e.scale) in
      let rate = f32 (mul moved (f32 (div (lit 1000000 1) (f32 (of_int (pos e.delta_time)))))) in
      let y = lpf_update (filter_alpha e) e.filter_y rate in
      if e.delta_time == 0
      then (zero_f, e.filter_y, e.velocity)
      else if ltb 2500000 e.delta_time
      then (zero_f, e.filter_y, zero_f)
      else (moved, y, y)

  unfoldable pub update_encoder_velocity_from_deltas : Encoder → Encoder
  update_encoder_velocity_from_deltas e =
      let (delta, y, raw) = measure_velocity e in
      let velocity = if lt (f32 (fabs (f32 raw))) e.vel_threshold then zero_f else raw in
      if not e.enabled then record e { velocity = zero_f; rpm = zero_f } else record e {
        delta_pos = delta;
        filter_y = y;
        velocity = velocity;
        rpm = mul velocity (lit 60 1);
      }

  -- The count since the last packet; with the index armed, less a turn that the index took off.
  unfoldable pub count_delta : ℕ → Encoder → ℕ
  count_delta count e =
      let delta = sub32 count e.raw_count in
      let half = div e.scale (of_int (pos 2)) in
      let turn = pattern (to_i32 e.scale) in
      if not e.index_triggered
      then delta
      else if lt (of_int (signed32 delta)) (sub zero_f half)
      then add32 delta turn
      else if lt half (of_int (signed32 delta))
      then sub32 delta turn
      else delta

  -- The round of the loop for an encoder, at the board's count, time and index flag.
  unfoldable pub receive_encoder : ℕ → ℕ → Bool → Encoder → Encoder
  receive_encoder count timestamp index_reset_event e0 =
      let scale = if lt e0.scale (lit 1 1) then lit 1 1 else e0.scale in
      let e : Encoder = record e0 {
        scale = scale;
        index_triggered = e0.index;
        position = div (f32 (of_int (signed32 count))) scale;
      } in
      let delta = count_delta count e in
      let counted : Encoder = record e {
        raw_count = count;
        delta_count = delta;
        delta_count_accum = delta;
        delta_time = sub32 timestamp e.timestamp;
      } in
      let filtered = update_encoder_velocity_from_deltas counted in
      if not e0.enabled
      then clear_encoder (record e0 { scale = scale })
      else if e.timestamp == 0
      then rebase count timestamp e
      else if index_reset_event
      then record (rebase count timestamp e) { index_triggered = false }
      else record filtered { timestamp = timestamp; prev_pos = f32 filtered.position }

  unfoldable pub receive_encoders : PicoPc → ℕ → List Encoder → List Encoder
  receive_encoders rx i [] = []
  receive_encoders rx i (e ∷ es) =
      receive_encoder (get_or rx.encoder_counter i 0) (get_or rx.encoder_timestamp i 0)
        (test_bit rx.interrupt_data i) e
      ∷ receive_encoders rx (i + 1) es

  -- `enc_reset_pending`: the reset pin of each encoder that is on.
  unfoldable pub pending_resets : ℕ → ℕ → List Encoder → ℕ
  pending_resets pending i [] = pending
  pending_resets pending i (e ∷ es) =
      let wanted = if e.reset then u8 (set_bit pending (2 + i)) else clear_bit pending (2 + i) in
      pending_resets (if e.enabled then wanted else pending) (i + 1) es

  -- The feedback of an axis from the board's position.
  unfoldable pub receive_axis : ℕ → Axis ar → Axis ar
  receive_axis actual a =
      let delta = f32 (of_int (signed32 (sub32 actual a.last_actual_position))) in
      let scale = if lt a.scale (lit 1 1) then lit 1 1 else a.scale in
      record a {
        last_actual_position = actual;
        scale = scale;
        feedback = add a.feedback (div delta scale);
      }

  unfoldable pub receive_axes : PicoPc → ℕ → List (Axis ar) → List (Axis ar)
  receive_axes rx i [] = []
  receive_axes rx i (a ∷ axes) =
      receive_axis (get_or rx.stepgen_position i 0) a ∷ receive_axes rx (i + 1) axes

  -- What the function uses of `module_data_t`. `inputs` and `ex_inputs` are the HAL pins of the pins
  -- at `input_pins` and `ex_input_pins`.
  pub record Link : Type 0 where
    pub watchdog : Watchdog
    pub status : Status
    pub enc_reset_pending : ℕ
    pub encoders : List Encoder
    pub axes : List (Axis ar)
    pub input_pins : List ℕ
    pub ex_input_pins : List ℕ
    pub inputs : List (Bool × Bool)
    pub ex_inputs : List (Bool × Bool)

  -- A packet that passes.
  unfoldable pub accept : PicoPc → Link → Link
  accept rx d =
      let (inputs, ex_inputs) = bb_hal_process_recv d.input_pins d.ex_input_pins rx.inputs in
      record d {
        watchdog = received d.watchdog;
        status = record (d.status) {
          connected = true;
          jitter = sub32 1000 rx.jitter;
          step_ring_fill = rx.step_ring_fill;
          step_ring_active = test_bit rx.step_ring_status 0;
          step_ring_underflow = test_bit rx.step_ring_status 1;
          step_ring_overflow = test_bit rx.step_ring_status 2;
        };
        enc_reset_pending = pending_resets d.enc_reset_pending 0 d.encoders;
        encoders = receive_encoders rx 0 d.encoders;
        axes = receive_axes rx 0 d.axes;
        inputs = inputs;
        ex_inputs = ex_inputs;
      }

  unfoldable pub udp_io_process_recv : Bool → PicoPc → Link → Link
  udp_io_process_recv debug_mode rx d =
      let bad =
        not (d.watchdog.last_received_time == 0) && not (tx_checksum_ok rx) && not debug_mode in
      if d.watchdog.watchdog_expired
      then record d { status = quiet d.status }
      else if bad
      then record d {
        status = record (quiet d.status) { checksum_error = true; connected = false };
      }
      else accept rx d
