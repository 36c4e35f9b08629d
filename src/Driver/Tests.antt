-- ===== src/Driver/Tests.antt =====
-- The driver's theorems at concrete inputs, with an arithmetic of whole numbers.
use flexi_ninja.Prelude.{ℕ, refl, sym, ap, true, false, some, [], arith, ltb, length, u8, ◌+◌}
use flexi_ninja.Prelude.{◌-◌, ◌*◌, ◌≤◌, ◌≡◌, ◌∙◌, ◌∷◌}
use flexi_ninja.Prelude.Int.{pos, ◌+ℤ◌, ◌-ℤ◌, ◌*ℤ◌}
use flexi_ninja.Transmission.Packet.{PcPico, rx_checksum_ok}
use flexi_ninja.Firmware.Stepgen.{word_steps}
use flexi_ninja.Driver.Samples.{axis, module_data, watchdog, link}
use flexi_ninja.Driver.Arith.Whole.{whole, whole-IsExact}
use flexi_ninja.Driver.Timing.{timing, fits}
use flexi_ninja.Driver.Axis.{Axis, Limits, axis_step, move_toward}
use flexi_ninja.Driver.Axis.Enable.{goal, zero_place, again, axis_step-again}
use flexi_ninja.Driver.Axis.Position.{gap, at_most_1023, hold, hold_reaches}
use flexi_ninja.Driver.Axis.Link.{move_toward_lost}
use flexi_ninja.Driver.Watchdog.{received}
use flexi_ninja.Driver.Watchdog.Expiry.{silent, watchdog_expires}
use flexi_ninja.Driver.Send.{udp_io_process_send}
use flexi_ninja.Driver.Send.Laws.{udp_io_process_send-accepted}
use flexi_ninja.Transmission.Packet.{PicoPc, tx_checksum_ok, pico_pc_bytes, words}
use flexi_ninja.Transmission.Table.{jump_table}
use flexi_ninja.Transmission.Checksum.{checksum_ok, calculate_checksum}
use flexi_ninja.Driver.Recv.{udp_io_process_recv}
use flexi_ninja.Driver.Recv.Laws.{receive_all, disconnected, udp_io_process_recv-rejected}

-- A period of 1 ms at 150 MHz, with pulses of 375 cycles.
abbrev period_cycles : ℕ
period_cycles = 150000

abbrev pulse : ℕ
pulse = 375

ten_fit : fits whole period_cycles pulse 10 ≡ true
unfolding fits ◌+ℤ◌ ◌*ℤ◌
ten_fit = refl

ten_left : at_most_1023 (gap (pos 10000) (pos 10010)) ≡ 10
unfolding ◌-ℤ◌
ten_left = refl

many_left : at_most_1023 (gap (pos 10000) (pos 12000)) ≡ 1023
unfolding ◌-ℤ◌
many_left = refl

many_unfit : fits whole period_cycles pulse 1023 ≡ false
unfolding fits ◌+ℤ◌ ◌*ℤ◌
many_unfit = refl

move_toward_lost_example :
    let (w, a') = move_toward whole (timing whole period_cycles pulse) (pos 12000) axis in
    (word_steps w ≡ 0) × (gap a'.prev_pos (pos 12000) ≡ gap (pos 10000) (pos 12000) - 1023)
move_toward_lost_example =
    move_toward_lost whole whole-IsExact period_cycles pulse (pos 12000) axis
      (ap (fits whole period_cycles pulse) many_left ∙ many_unfit)

near : gap (pos 10000) (pos 8000) ≤ 2 * 1023
unfolding ◌-ℤ◌
near = omega arith

hold_reaches_example :
    (hold whole whole-IsExact (timing whole period_cycles pulse) (pos 8000) 2 axis).prev_pos
    ≡ pos 8000
hold_reaches_example =
    hold_reaches whole whole-IsExact (timing whole period_cycles pulse) (pos 8000) 2 axis near

-- The axis stands at 10010 steps, where its command is.
abbrev standing : Axis whole
standing = record axis { command = pos 10; prev_pos = pos 10010 }

abbrev limits : Limits whole
limits = record { timing = timing whole period_cycles pulse; max_f = 200000; period = 1000000 }

goal_is : goal whole standing ≡ pos 10010
unfolding ◌+ℤ◌ ◌*ℤ◌
goal_is = refl

ten_away : gap (zero_place whole standing) (goal whole standing) ≡ 10
unfolding ◌+ℤ◌ ◌-ℤ◌ ◌*ℤ◌
ten_away = refl

axis_step-again_example :
    ((axis_step whole limits 0 false standing).0 ≡ 0)
    × (word_steps (again whole limits 0 false standing).0
        ≡ at_most_1023 (gap (zero_place whole standing) (goal whole standing)))
axis_step-again_example =
    axis_step-again whole whole-IsExact limits 0 false standing period_cycles pulse refl refl refl
      refl (sym goal_is) (omega (arith, ten_away))
      (ap (λ (g : ℕ). fits whole period_cycles pulse (at_most_1023 g)) ten_away ∙ ten_fit)

watchdog_expires_example :
    let after = silent 101 (received watchdog) in
    (after.watchdog_running ≡ true) × (after.watchdog_expired ≡ ltb 100 101)
watchdog_expires_example = watchdog_expires 100 watchdog

udp_io_process_send-accepted_example :
    let (d1, packet) = udp_io_process_send whole 1000000 module_data in
    ((p : PcPico) × (packet ≡ some p)
      × (rx_checksum_ok p ≡ true)
      × (p.packet_id ≡ u8 255)
      × (length p.stepgen_command ≡ 6))
    × (d1.io_ready_out ≡ true)
    × (d1.tx_counter ≡ u8 (255 + 1))
udp_io_process_send-accepted_example =
    udp_io_process_send-accepted whole 1000000 module_data refl refl refl

abbrev bad_reply : PicoPc
bad_reply = record {
  encoder_counter = 0 ∷ 0 ∷ [];
  encoder_velocity = 0 ∷ 0 ∷ [];
  encoder_timestamp = 0 ∷ 0 ∷ [];
  interrupt_data = 0;
  stepgen_position = 0 ∷ 0 ∷ 0 ∷ 0 ∷ 0 ∷ 0 ∷ [];
  stepgen_overflow = 0;
  inputs = 0 ∷ 0 ∷ 0 ∷ 0 ∷ [];
  jitter = 0;
  step_ring_fill = 0;
  step_ring_status = 0;
  packet_id = 0;
  checksum = 0;
}

-- 73 zero bytes have the sum 36.
bad_reply_bad : tx_checksum_ok bad_reply ≡ false
unfolding tx_checksum_ok checksum_ok calculate_checksum jump_table pico_pc_bytes words
bad_reply_bad = refl

udp_io_process_recv-rejected_example :
    let d' = receive_all whole (bad_reply ∷ bad_reply ∷ []) link in
    let after = udp_io_process_recv whole false bad_reply d' in
    (d' ≡ record link { status = disconnected whole link.status })
    × (after ≡ record (udp_io_process_recv whole false bad_reply link) { status = after.status })
udp_io_process_recv-rejected_example =
    udp_io_process_recv-rejected whole bad_reply bad_reply (bad_reply ∷ []) link refl (omega arith)
      (bad_reply_bad, (bad_reply_bad, tt))
