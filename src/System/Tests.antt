-- ===== src/System/Tests.antt =====
-- The theorems on driver and board at concrete inputs.
use flexi_ninja.Prelude.{ℕ, refl, true, false, some, List, [], arith, get_or, ◌+◌, ◌*◌, ◌/◌, ◌<◌}
use flexi_ninja.Prelude.{◌≡◌, ◌∷◌}
use flexi_ninja.Prelude.Int.{◌+ℤ◌, ◌*ℤ◌}
use flexi_ninja.PioSettings.{pio_settings, high_cycles}
use flexi_ninja.Driver.Send.{Module, udp_io_process_send}
use flexi_ninja.Driver.Samples.{link}
use flexi_ninja.Driver.Recv.{Link, udp_io_process_recv}
use flexi_ninja.Firmware.HandleData.{handle_data}
use flexi_ninja.Firmware.Samples.{config, board, reads, reply}
use flexi_ninja.System.Sync.Axes.{InSync}
use flexi_ninja.Firmware.Server.{Server, serve_spi}
use flexi_ninja.System.Connection.{Connection, start, exchange, receive, Connection-InSync}
use flexi_ninja.Driver.Arith.Whole.{whole, whole-IsExact}
use flexi_ninja.Driver.Timing.{fits}
use flexi_ninja.Firmware.StepProgram.{Patch, Machine, freq_generator, dir_pin, run}
use flexi_ninja.Firmware.StepProgram.Run.{settle, pulses}
use flexi_ninja.Firmware.PulseLoad.Loaded.{IsEntry}
use flexi_ninja.System.StepTime.Budget.{steps_word, low_part, run-steps_word, steps_word_overruns}
use flexi_ninja.System.Samples.{
  off_axis, driver, origin, board-InSync, driver-IsLive, first_exchange, first_packet,
  first_packet-IsPcPico, server, wire, pc, reads-IsReads, board-IsBoard, server-IsServing,
}
use flexi_ninja.Driver.Platform.Frame.{u8-tx_frame}
use flexi_ninja.Driver.Platform.{rx_packet}
use flexi_ninja.Firmware.HandleData.Buffers.{HasTypes, IsBuffers, IsClock, handle_data-HasTypes}
use flexi_ninja.System.Round.{IsServing, serve_spi-IsServing}
use flexi_ninja.Transmission.Packet.{tx_checksum_ok}

-- Entry 190 of the table, 375 cycles, and a direction setup of 1.5 µs.
abbrev patch : Patch
patch = record { dir_n = 4; dir_d1 = 31; dir_d2 = 31; sety = 24; nop_delay = 13 }

abbrev machine : List ℕ → Machine
machine fifo = record { pc = 1; x = 0; y = 0; osr = 0; fifo = fifo; cycles = 1000; trace = [] }

patch-IsEntry : IsEntry 190 patch
unfolding pio_settings
patch-IsEntry = record { in_table = omega arith; sety_is = refl; nop_is = refl }

ten_fit : fits whole 150000 (high_cycles 190) 10 ≡ true
unfolding fits ◌+ℤ◌ ◌*ℤ◌ pio_settings
ten_fit = refl

abbrev ten_steps : ℕ
ten_steps = steps_word whole 190 150000 10 0 1

run-steps_word_example :
    (k : ℕ) × (let m' = run k (freq_generator patch) (machine (ten_steps ∷ [])) in
      (m'.pc ≡ 1)
      × (m'.fifo ≡ [])
      × (m'.cycles ≡ 1000 + (settle patch 0 + 10 * (150000 / 10 + 1) + 8))
      × (m'.trace
          ≡ pulses patch
              (low_part 190 150000 10)
              10
              (1000 + 6 + settle patch 0)
              (dir_pin (1000 + 3) 1 ∷ [])))
run-steps_word_example =
    run-steps_word whole whole-IsExact 190 patch patch-IsEntry 150000 10 0 1 (omega arith)
      (omega arith) (omega arith) ten_fit (omega arith) (omega arith) (machine (ten_steps ∷ [])) []
      refl refl

steps_word_overruns_example :
    (k : ℕ) × (let m' = run k (freq_generator patch) (machine (ten_steps ∷ [])) in
      (m'.pc ≡ 1)
      × (m'.fifo ≡ [])
      × (m'.trace
          ≡ pulses patch
              (low_part 190 150000 10)
              10
              (1000 + 6 + settle patch 0)
              (dir_pin (1000 + 3) 1 ∷ []))
      × (1000 + 150000 < m'.cycles))
steps_word_overruns_example =
    steps_word_overruns whole whole-IsExact 190 patch patch-IsEntry 150000 10 0 1 (omega arith)
      (omega arith) (omega arith) ten_fit (omega arith) (omega arith) (machine (ten_steps ∷ [])) []
      refl refl

abbrev one_exchange :
    Connection whole off_axis 1000000 config driver board 1
      (udp_io_process_send whole 1000000 driver).0
      (handle_data config reads first_packet board).0
one_exchange = exchange start reads driver-IsLive first_exchange.1

-- The driver then receives the report that the board had before.
abbrev received : Link whole
received =
    udp_io_process_recv whole false reply
      (record link { axes = (udp_io_process_send whole 1000000 driver).0.axes })

abbrev driver_after : Module whole
driver_after = record ((udp_io_process_send whole 1000000 driver).0) { axes = received.axes }

Connection-InSync_example :
    InSync whole off_axis 1000000 origin driver_after
      (handle_data config reads first_packet board).0
Connection-InSync_example =
    Connection-InSync whole off_axis 1000000 config whole-IsExact origin driver board board-InSync (
      receive one_exchange false reply
        (record link { axes = (udp_io_process_send whole 1000000 driver).0.axes }) refl)

serve_spi-IsServing_example :
    (s' : Server) × (reply : List ℕ) × (serve_spi config reads wire server ≡ some (s', reply))
    × (rx_packet reply ≡ board.tx)
    × (let l' = udp_io_process_recv whole false (rx_packet reply) pc in
        let d' : Module whole = record ((udp_io_process_send whole 1000000 driver).0) {
          axes = l'.axes;
        } in
        (l'.status.connected ≡ true)
        × (l'.watchdog.last_received_time ≡ 5000)
        × InSync whole off_axis 1000000 origin d' s'.board
        × IsServing s')
serve_spi-IsServing_example =
    serve_spi-IsServing whole whole-IsExact off_axis 1000000 origin config reads wire driver pc
      server first_packet board-InSync server-IsServing driver-IsLive reads-IsReads first_exchange.1
      refl refl (λ i h. u8-tx_frame first_packet first_packet-IsPcPico i) (λ k. refl) (omega arith)

board-IsBuffers : IsBuffers board
board-IsBuffers = record {
  checksum_ok_count = omega arith;
  last_packet_time = omega arith;
  pwm_freq_buffer = omega arith;
  pio_enc_offset = omega arith;
  enc_reset_done = omega arith;
  input_buffer = omega arith;
}

reads-IsClock : IsClock reads
reads-IsClock = record { now2 = omega arith; reset_count_pio = λ i. omega arith }

handle_data-HasTypes_example :
    let b' = (handle_data config reads first_packet board).0 in
    HasTypes b'
    × (tx_checksum_ok b'.tx ≡ true)
    × (b'.tx.packet_id ≡ first_packet.packet_id)
    × ((i : ℕ) → i < 6 → get_or b'.tx.stepgen_position i 0 ≡ get_or b'.steps.position i 0)
handle_data-HasTypes_example =
    handle_data-HasTypes config reads first_packet board reads-IsReads reads-IsClock
      first_packet-IsPcPico (board-IsBoard, board-IsBuffers)
