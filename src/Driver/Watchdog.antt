-- ===== src/Driver/Watchdog.antt =====
-- hal-driver/flexi-ninja.c, `watchdog_process`: the communication watchdog of the driver, a count of
-- servo periods since the last good packet.
pub mod Expiry
use flexi_ninja.Prelude.{ℕ, Bool, true, not, ltb, ◌+◌, ◌-◌, ◌&&◌, if◌then◌else◌}

-- `current_time` counts periods from 0 and `last_received_time` is one of its values.
pub record Watchdog : Type 0 where
  pub current_time : ℕ
  pub last_received_time : ℕ
  pub watchdog_timeout : ℕ
  pub watchdog_running : Bool
  pub watchdog_expired : Bool
  pub checksum_index : ℕ
  pub checksum_index_in : ℕ

unfoldable pub watchdog_process : Watchdog → Watchdog
watchdog_process d =
    let now = d.current_time + 1 in
    let elapsed = now - d.last_received_time in
    let late = ltb d.watchdog_timeout elapsed in
    let first = late && not d.watchdog_expired in
    record d {
      current_time = now;
      watchdog_running = true;
      checksum_index_in = if first then 1 else d.checksum_index_in;
      checksum_index = if first then 1 else d.checksum_index;
      watchdog_expired = late;
    }

-- The end of `udp_io_process_recv` at a good packet.
unfoldable pub received : Watchdog → Watchdog
received d = record d { last_received_time = d.current_time }
