-- ===== src/Firmware/StepRing.antt =====
-- firmware/src/main.c, the part under `use_timer_interrupt == 1`: a ring of three packets' step
-- commands between the packet handler and the timer interrupt. The clock and the hardware alarm are
-- outside: the times read and the alarm claimed are arguments. Interrupts are off while a function
-- changes the ring, so each is one step.
pub mod Queue
pub mod Fifo
use flexi_ninja.Prelude.{ℕ, Bool, true, false, not, Option, none, some, List, [], ltb, get_or}
use flexi_ninja.Prelude.{set, take, replicate, u8, u32, sub32, ◌+◌, ◌-◌, ◌*◌, ◌/◌, ◌%◌, ◌^◌, ◌&&◌}
use flexi_ninja.Prelude.{◌==◌, if◌then◌else◌}
use flexi_ninja.Transmission.Packet.{stepgens}

abbrev pub step_ring_buffer_size : ℕ
step_ring_buffer_size = 3

-- `alarm_num` is `none` for -1.
pub record StepRing : Type 0 where
  pub slots : List (List ℕ)
  pub head : ℕ
  pub tail : ℕ
  pub count : ℕ
  pub period_us : ℕ
  pub last_packet_us : ℕ
  pub next_alarm_us : ℕ
  pub overflow : Bool
  pub underflow : Bool
  pub timer_started : Bool
  pub alarm_num : Option ℕ

unfoldable pub initial : StepRing
initial = record {
  slots = replicate step_ring_buffer_size (replicate stepgens 0);
  head = 0;
  tail = 0;
  count = 0;
  period_us = 1000;
  last_packet_us = 0;
  next_alarm_us = 0;
  overflow = false;
  underflow = false;
  timer_started = false;
  alarm_num = none;
}

-- `reset_step_ring_buffer`
unfoldable pub reset : StepRing → StepRing
reset r = record r {
  head = 0;
  tail = 0;
  count = 0;
  last_packet_us = 0;
  overflow = false;
  underflow = false;
}

-- `arm_step_timer`; `claimed` is what `hardware_alarm_claim_unused` returns if it is called.
unfoldable pub arm : ℕ → Option ℕ → StepRing → StepRing
arm now_us claimed r =
    let alarm : Option ℕ = elim (r.alarm_num) [ some a ↦ some a | none ↦ claimed ] in
    elim alarm [
      | none ↦ record r { alarm_num = none }
      | some a ↦ record r {
        alarm_num = some a;
        next_alarm_us = (now_us + r.period_us) % 2 ^ 64;
        timer_started = true;
      }
    ]

-- The running mean of the packet period; a gap out of range is left out.
unfoldable pub measure : ℕ → ℕ → StepRing → StepRing
measure timeout_us now_us r =
    let measured = sub32 now_us r.last_packet_us in
    if not (r.last_packet_us == 0) && ltb 50 measured && ltb measured timeout_us
    then record r { period_us = u32 (r.period_us * 3 + measured + 2) / 4 }
    else r

-- The slot write and what follows it, with room in the ring.
unfoldable pub store : List ℕ → StepRing → StepRing
store step_commands r = record r {
  slots = set r.slots r.head (take stepgens step_commands);
  head = u8 ((r.head + 1) % step_ring_buffer_size);
  count = u8 (r.count + 1);
  overflow = false;
}

-- `enqueue_stepgen_commands`: the packet comes at `now_us`, and `now64_us` is the time if the timer
-- is armed.
unfoldable pub enqueue : ℕ → ℕ → ℕ → Option ℕ → List ℕ → StepRing → StepRing
enqueue timeout_us now_us now64_us claimed step_commands r =
    let m : StepRing = record (measure timeout_us now_us r) { last_packet_us = now_us } in
    let s = store step_commands m in
    if ltb m.count step_ring_buffer_size
    then if not s.timer_started && s.count == step_ring_buffer_size
      then arm now64_us claimed (record s { underflow = false })
      else s
    else record m { overflow = true }

unfoldable pub is_alarm : ℕ → Option ℕ → Bool
is_alarm triggered none = false
is_alarm triggered (some a) = triggered == a

-- `timer_callback`; the commands are what it hands to `apply_stepgen_commands`.
unfoldable pub timer_callback : ℕ → ℕ → StepRing → Option (List ℕ) × StepRing
timer_callback triggered now64_us r =
    if not (is_alarm triggered r.alarm_num)
    then (none, r)
    else if r.count == 0
    then (none, record r { timer_started = false; underflow = true })
    else (
      some (get_or r.slots r.tail []),
      record r {
        tail = u8 ((r.tail + 1) % step_ring_buffer_size);
        count = r.count - 1;
        next_alarm_us = (now64_us + r.period_us) % 2 ^ 64;
      },
    )

-- `stop_timer`
unfoldable pub stop_timer : StepRing → StepRing
unfolding reset
stop_timer r = reset (record r { alarm_num = none; timer_started = false })
