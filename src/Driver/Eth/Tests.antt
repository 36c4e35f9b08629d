-- ===== src/Driver/Eth/Tests.antt =====
-- The theorems on position mode of the Ethernet driver at concrete inputs.
use flexi_ninja.Prelude.{ℕ, refl, true, arith, ◌≤◌, ◌<◌, ◌≡◌}
use flexi_ninja.Prelude.Int.{pos, ◌-ℤ◌, ◌+ℤ◌, ◌*ℤ◌}
use flexi_ninja.Driver.Samples.{axis}
use flexi_ninja.Driver.Arith.Whole.{whole, whole-IsExact}
use flexi_ninja.Driver.Timing.{timing, fits}
use flexi_ninja.Firmware.Stepgen.{word_steps}
use flexi_ninja.Driver.Axis.{move_toward}
use flexi_ninja.Driver.Axis.Position.{gap}
use flexi_ninja.Driver.Eth.{eth_move}
use flexi_ninja.Driver.Eth.Steps.{eth_move_lost, eth_move-move_toward}

-- A period of 1 ms at 150 MHz, with pulses of 12 cycles, which 1023 steps fit.
abbrev period_cycles : ℕ
period_cycles = 150000

abbrev pulse : ℕ
pulse = 12

many_fit : fits whole period_cycles pulse 1023 ≡ true
unfolding fits ◌+ℤ◌ ◌*ℤ◌
many_fit = refl

far : 1023 < gap (pos 10000) (pos 12000)
unfolding ◌-ℤ◌
far = omega arith

near : gap (pos 10000) (pos 10010) ≤ 1023
unfolding ◌-ℤ◌
near = omega arith

eth_move_lost_example :
    let (w, a') = eth_move whole (timing whole period_cycles pulse) (pos 12000) axis in
    (word_steps w ≡ 1023)
    × (a'.prev_pos ≡ pos 12000)
    × ((eth_move whole (timing whole period_cycles pulse) (pos 12000) a').0 ≡ 0)
eth_move_lost_example =
    eth_move_lost whole whole-IsExact period_cycles pulse (pos 12000) axis far many_fit

eth_move-move_toward_example :
    let table = timing whole period_cycles pulse in
    ((eth_move whole table (pos 10010) axis).0 ≡ (move_toward whole table (pos 10010) axis).0)
    × ((eth_move whole table (pos 10010) axis).1.prev_pos
        ≡ (move_toward whole table (pos 10010) axis).1.prev_pos)
eth_move-move_toward_example =
    eth_move-move_toward whole whole-IsExact (timing whole period_cycles pulse) (pos 10010) axis
      near
