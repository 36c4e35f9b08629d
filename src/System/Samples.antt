-- ===== src/System/Samples.antt =====
-- A driver and a board in step, for the tests: one axis is to go ten steps, the others are off.
use flexi_ninja.Prelude.{ℕ, zero, suc, refl, sym, inl, inr, true, false, none, some, [], arith}
use flexi_ninja.Prelude.{get_or, replicate, ◌<◌, ◌≡◌, ◌∙◌, ◌∷◌, ◌==◌, if◌then◌else◌}
use flexi_ninja.Prelude.Int.{ℤ, pos, ◌+ℤ◌, ◌-ℤ◌, ◌*ℤ◌}
use flexi_ninja.PioSettings.{pio_settings, high_cycles}
use flexi_ninja.Transmission.Packet.{PcPico}
use flexi_ninja.Driver.Axis.{Axis, pattern}
use flexi_ninja.Driver.Axis.Position.{gap, at_most_1023}
use flexi_ninja.Driver.Send.{Module, pico_clock, udp_io_process_send}
use flexi_ninja.Driver.Samples.{axis, module_data}
use flexi_ninja.Firmware.Stepgen.Laws.{position_at, accepts_of_room}
use flexi_ninja.Firmware.HandleData.{handle_data}
use flexi_ninja.Firmware.Samples.{config, board, reads}
use flexi_ninja.System.Sync.{target, IsReady}
use flexi_ninja.System.Sync.Axes.{InSync, IsLive}
use flexi_ninja.System.Sync.Exchange.{exchange-InSync}
use flexi_ninja.Firmware.Server.{Server}
use mathlib.Core.Path.{subst}
use mathlib.Core.Option.{some-injective}
use flexi_ninja.Transmission.Layout.{IsPcPico}
use flexi_ninja.Driver.Send.Laws.{udp_io_process_send-IsPcPico}
use flexi_ninja.Driver.Arith.Whole.{whole, whole-IsExact}
use flexi_ninja.Driver.Timing.{fits, total_cycles, nearest, nearest_cycles, scan, cycle_time_ns}
use flexi_ninja.Firmware.Boot.{EncoderBoot, boot_board}
use flexi_ninja.Firmware.PioUtils.{initial}
use flexi_ninja.Driver.Samples.{link}
use flexi_ninja.Driver.Recv.{Link}
use flexi_ninja.Driver.Platform.{tx_frame}
use flexi_ninja.Firmware.Samples.{reply}
use flexi_ninja.Firmware.Server.{SpiReads}
use flexi_ninja.Firmware.HandleData.Shape.{IsBoard, IsReads}
use flexi_ninja.System.Round.{IsServing}
use flexi_ninja.Transmission.Packet.{tx_checksum_ok, pico_pc_bytes, words}
use flexi_ninja.Transmission.Checksum.{checksum_ok, calculate_checksum}
use flexi_ninja.Transmission.Table.{jump_table}

-- Axis 0 is told to go ten steps on, the others are off.
abbrev pub far_axis : Axis whole
far_axis = record axis { command = pos 10 }

abbrev pub off_axis : Axis whole
off_axis = record axis { enable = false }

abbrev pub driver : Module whole
driver = record module_data {
  axes = far_axis ∷ off_axis ∷ off_axis ∷ off_axis ∷ off_axis ∷ off_axis ∷ [];
}

abbrev pub origin : ℕ → ℤ
origin i = if i == 5 then pos 9995 else pos 10000

pub board-InSync : InSync whole off_axis 1000000 origin driver board
unfolding ◌-ℤ◌
board-InSync = record {
  axes_length = refl;
  position_length = refl;
  healthy = refl;
  table = inl refl;
  same = places;
}
  where
    places :
        (i : ℕ)
        → i < 6
        → position_at board.steps i ≡ pattern ((get_or driver.axes i off_axis).prev_pos -ℤ origin i)
    places zero h = refl
    places (suc zero) h = refl
    places (suc (suc zero)) h = refl
    places (suc (suc (suc zero))) h = refl
    places (suc (suc (suc (suc zero)))) h = refl
    places (suc (suc (suc (suc (suc zero))))) h = refl
    places (suc (suc (suc (suc (suc (suc i)))))) h = absurd (omega (arith, h))

far_axis_fit :
    fits whole
      (total_cycles pico_clock 1000000)
      (high_cycles (nearest whole pico_clock driver.pulse_width))
      (at_most_1023 (gap far_axis.prev_pos (target whole far_axis)))
    ≡ true
unfolding fits total_cycles nearest nearest_cycles scan cycle_time_ns pio_settings ◌+ℤ◌ ◌-ℤ◌ ◌*ℤ◌
far_axis_fit = refl

pub driver-IsLive : IsLive whole off_axis 1000000 driver reads
driver-IsLive = record {
  fresh = refl;
  running = refl;
  pulse = λ e. absurd (omega (arith, e));
  ready = each_ready;
  room = λ i h. accepts_of_room (reads.full i) 0 (omega arith) refl;
}
  where
    each_ready :
        (i : ℕ)
        → i < 6
        → IsReady whole
            (total_cycles pico_clock 1000000)
            (high_cycles (nearest whole pico_clock driver.pulse_width))
            (get_or driver.axes i off_axis)
    each_ready zero h =
        inr (record { on = refl; by_position = refl; started = refl; fit = λ _. far_axis_fit })
    each_ready (suc zero) h = inl refl
    each_ready (suc (suc zero)) h = inl refl
    each_ready (suc (suc (suc zero))) h = inl refl
    each_ready (suc (suc (suc (suc zero)))) h = inl refl
    each_ready (suc (suc (suc (suc (suc zero))))) h = inl refl
    each_ready (suc (suc (suc (suc (suc (suc i)))))) h = absurd (omega (arith, h))

-- The packet of an exchange.
pub first_exchange :
    let d' = (udp_io_process_send whole 1000000 driver).0 in
    (p : PcPico) × ((udp_io_process_send whole 1000000 driver).1 ≡ some p)
    × InSync whole off_axis 1000000 origin d' (handle_data config reads p board).0
first_exchange =
    exchange-InSync whole whole-IsExact off_axis 1000000 origin config reads driver board
      board-InSync driver-IsLive

abbrev pub first_packet : PcPico
first_packet = first_exchange.0

pub first_packet-IsPcPico : IsPcPico first_packet
first_packet-IsPcPico =
    let (q, out, valid) = udp_io_process_send-IsPcPico whole 1000000 driver refl refl refl in
    subst IsPcPico (some-injective q first_packet (sym out ∙ first_exchange.1)) valid

abbrev pub server : Server
server = record {
  board = board;
  store = record { flash_config = none; save_requested = false; sector = [] };
  rx = replicate 47 0;
  spi_rx_frame = replicate 74 0;
  socket = record { first_send = 1; destination = ([], 0) };
  source = ([], 0);
}

-- The bytes of that frame on SPI, all in time.
abbrev pub wire : SpiReads
wire = record {
  early = λ k. true;
  readable = λ k. true;
  writable = λ k. true;
  incoming = λ n. get_or (tx_frame first_packet) n 0;
  polls = 74;
}

pub reads-IsReads : IsReads reads
reads-IsReads = record {
  timestamp = λ i. omega arith;
  flex_value = omega arith;
  pins_high = omega arith;
}

pub board-IsBoard : IsBoard board
board-IsBoard = record {
  rx_counter = omega arith;
  position = omega arith;
  overflow = omega arith;
  counter = omega arith;
  index_reset_flags = omega arith;
  tx = record {
    encoder_counter = omega arith;
    encoder_velocity = omega arith;
    encoder_timestamp = omega arith;
    interrupt_data = omega arith;
    stepgen_position = omega arith;
    stepgen_overflow = omega arith;
    inputs = omega arith;
    jitter = omega arith;
    step_ring_fill = omega arith;
    step_ring_status = omega arith;
    packet_id = omega arith;
    checksum = omega arith;
  };
}

-- 73 zero bytes have the sum 36.
reply_sealed : tx_checksum_ok reply ≡ true
unfolding tx_checksum_ok checksum_ok calculate_checksum jump_table pico_pc_bytes words
reply_sealed = refl

pub server-IsServing : IsServing server
server-IsServing = record { board = board-IsBoard; report = reply_sealed; frame = refl }

abbrev pub pc : Link whole
pc = record link { axes = (udp_io_process_send whole 1000000 driver).0.axes }

abbrev pub encoders_started : EncoderBoot
encoders_started = record {
  alloc = initial;
  pio_enc_offset = 0 ∷ 0 ∷ [];
  encoder_pio = some (2, 0) ∷ none ∷ [];
}

abbrev pub started : Server
started = record server { board = boot_board board.irq encoders_started }
