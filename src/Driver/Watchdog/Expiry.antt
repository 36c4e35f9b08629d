-- ===== src/Driver/Watchdog/Expiry.antt =====
-- The watchdog expires exactly when the timeout has passed without a packet.
use flexi_ninja.Prelude.{ℕ, zero, suc, refl, true, arith, ltb, ◌+◌, ◌≡◌}
use flexi_ninja.Driver.Watchdog.{Watchdog, watchdog_process, received}

-- `n` periods without a packet
abbrev pub silent : ℕ → Watchdog → Watchdog
silent zero d = d
silent (suc n) d = watchdog_process (silent n d)

silent_times :
    (n : ℕ) (d : Watchdog)
    → ((silent n d).current_time ≡ d.current_time + n)
      × ((silent n d).last_received_time ≡ d.last_received_time)
      × ((silent n d).watchdog_timeout ≡ d.watchdog_timeout)
unfolding watchdog_process
silent_times zero d = (omega arith, refl, refl)
silent_times (suc n) d = let s = silent_times n d in (omega (arith, s.0), s.1, s.2)

-- After a good packet and `n` periods, at least one, without another, the watchdog runs, and it is
-- expired if and only if `n` is above the timeout.
pub watchdog_expires :
    (n : ℕ) (d : Watchdog)
    → let after = silent (suc n) (received d) in
      (after.watchdog_running ≡ true) × (after.watchdog_expired ≡ ltb d.watchdog_timeout (suc n))
unfolding watchdog_process received
watchdog_expires n d = let s = silent_times n (received d) in (refl, ground (arith, s.0, s.1, s.2))
