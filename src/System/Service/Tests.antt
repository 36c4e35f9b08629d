-- ===== src/System/Service/Tests.antt =====
-- From power-up: axis 0 is switched on and told to go ten steps, the packet is served, an index
-- edge falls, and core 1 finds the link lost.
use flexi_ninja.Prelude.{ℕ, zero, suc, refl, sym, ap, inl, inr, true, Option, some, List, []}
use flexi_ninja.Prelude.{arith, get_or, ◌<◌, ◌≡◌, ◌∙◌, ◌∷◌}
use flexi_ninja.Prelude.Int.{pos, ◌+ℤ◌, ◌-ℤ◌, ◌*ℤ◌}
use flexi_ninja.PioSettings.{pio_settings, high_cycles}
use flexi_ninja.Transmission.Packet.{PcPico}
use flexi_ninja.Transmission.Layout.{IsPcPico}
use flexi_ninja.Driver.Arith.Whole.{whole, whole-IsExact}
use flexi_ninja.Driver.Axis.{Axis}
use flexi_ninja.Driver.Axis.Position.{gap, at_most_1023}
use flexi_ninja.Driver.Timing.{fits, total_cycles, nearest, nearest_cycles, scan, cycle_time_ns}
use flexi_ninja.Driver.Send.{Module, pico_clock, udp_io_process_send}
use flexi_ninja.Driver.Send.Laws.{udp_io_process_send-IsPcPico}
use flexi_ninja.Driver.Recv.{Link}
use flexi_ninja.Driver.Samples.{module_data, link}
use flexi_ninja.Driver.Setup.Start.{init_module, init_axis}
use flexi_ninja.Driver.Platform.{tx_frame}
use flexi_ninja.Driver.Platform.Frame.{u8-tx_frame}
use flexi_ninja.Firmware.Stepgen.Laws.{accepts_of_room}
use flexi_ninja.Firmware.HandleData.{Board}
use flexi_ninja.Firmware.CoreState.{Core1}
use flexi_ninja.Firmware.GpioCallback.{gpio_callback}
use flexi_ninja.Firmware.Core1.{core1_round}
use flexi_ninja.Firmware.Samples.{config, board, reads, core}
use flexi_ninja.Firmware.Server.{Server, SpiReads, serve_spi}
use flexi_ninja.System.Sync.{target, IsReady}
use flexi_ninja.System.Sync.Axes.{InSync, IsLive}
use flexi_ninja.System.Sync.Begin.{
  begin, begun, begun_origin, begun-InSync, udp_io_process_send-begun,
}
use flexi_ninja.System.Round.{IsServing, serve_spi-IsServing}
use flexi_ninja.System.Start.{init_module-boot_board}
use flexi_ninja.System.Samples.{off_axis, started, encoders_started, reads-IsReads}
use flexi_ninja.System.Connection.{KeepsPlace}
use flexi_ninja.System.Service.{
  start, linuxcnc, interrupt, core1, exchange, IsPeriod, after_reply, Service-IsServing,
  Service-boot_board,
}

abbrev power_up : Module whole
power_up = init_module whole module_data

-- LinuxCNC runs, with axis 0 on.
abbrev on_axis : Axis whole
on_axis = record off_axis { enable = true; first_data = true; command = pos 10 }

abbrev ready : Module whole
ready = record power_up {
  watchdog_running = true;
  axes = on_axis ∷ off_axis ∷ off_axis ∷ off_axis ∷ off_axis ∷ off_axis ∷ [];
}

ready-KeepsPlace : KeepsPlace whole off_axis 1000000 config power_up ready
unfolding init_module init_axis
ready-KeepsPlace = record {
  axes_length = refl;
  place = places;
  table = refl;
  old_pulse_width = refl;
}
  where
    places :
        (i : ℕ)
        → i < 6
        → (get_or ready.axes i off_axis).prev_pos ≡ (get_or power_up.axes i off_axis).prev_pos
    places zero h = refl
    places (suc zero) h = refl
    places (suc (suc zero)) h = refl
    places (suc (suc (suc zero))) h = refl
    places (suc (suc (suc (suc zero)))) h = refl
    places (suc (suc (suc (suc (suc zero))))) h = refl
    places (suc (suc (suc (suc (suc (suc i)))))) h = absurd (omega (arith, h))

on_axis_fit :
    fits whole
      (total_cycles pico_clock 1000000)
      (high_cycles (nearest whole pico_clock ready.pulse_width))
      (at_most_1023 (gap (begin whole on_axis).prev_pos (target whole (begin whole on_axis))))
    ≡ true
unfolding init_module fits total_cycles nearest nearest_cycles scan cycle_time_ns pio_settings ◌+ℤ◌
    ◌-ℤ◌ ◌*ℤ◌
on_axis_fit = refl

ready-IsLive : IsLive whole off_axis 1000000 (begun whole ready) reads
unfolding init_module
ready-IsLive = record {
  fresh = refl;
  running = refl;
  pulse = λ e. absurd (omega (arith, e));
  ready = each_ready;
  room = λ i h. accepts_of_room (reads.full i) 0 (omega arith) refl;
}
  where
    each_ready :
        (i : ℕ)
        → i < 6
        → IsReady whole
            (total_cycles pico_clock 1000000)
            (high_cycles (nearest whole pico_clock ready.pulse_width))
            (get_or (begun whole ready).axes i off_axis)
    each_ready zero h =
        inr (record { on = refl; by_position = refl; started = refl; fit = λ _. on_axis_fit })
    each_ready (suc zero) h = inl refl
    each_ready (suc (suc zero)) h = inl refl
    each_ready (suc (suc (suc zero))) h = inl refl
    each_ready (suc (suc (suc (suc zero)))) h = inl refl
    each_ready (suc (suc (suc (suc (suc zero))))) h = inl refl
    each_ready (suc (suc (suc (suc (suc (suc i)))))) h = absurd (omega (arith, h))

abbrev sent : Module whole × Option PcPico
sent = udp_io_process_send whole 1000000 ready

ready_sends : (p : PcPico) × (sent.1 ≡ some p) × IsPcPico p
unfolding init_module
ready_sends = udp_io_process_send-IsPcPico whole 1000000 ready refl refl refl

abbrev packet : PcPico
packet = ready_sends.0

-- Its frame, all in time.
abbrev frame : SpiReads
frame = record {
  early = λ k. true;
  readable = λ k. true;
  writable = λ k. true;
  incoming = λ n. get_or (tx_frame packet) n 0;
  polls = 74;
}

abbrev receiver : Link whole
receiver = record link { axes = sent.0.axes }

abbrev first_period : IsPeriod whole off_axis 1000000 ready reads frame receiver packet
first_period = record {
  live = ready-IsLive;
  clean = reads-IsReads;
  sent = ready_sends.1;
  shared = refl;
  alive = refl;
  wired = λ i h. u8-tx_frame packet ready_sends.2 i;
  free = λ k. refl;
  enough = omega arith;
}

-- The board is ready when LinuxCNC is.
ready_sync :
    InSync whole off_axis 1000000
      (λ i. (get_or module_data.axes i off_axis).prev_pos)
      ready
      started.board
    × IsServing started
ready_sync =
    let start_sync =
      init_module-boot_board whole off_axis 1000000 module_data board.irq encoders_started started
        refl (omega arith) refl refl in
    Service-IsServing whole off_axis 1000000 whole-IsExact config power_up started
      (λ i. (get_or module_data.axes i off_axis).prev_pos) start_sync
      (linuxcnc start ready-KeepsPlace)

begun_sends : udp_io_process_send whole 1000000 (begun whole ready) ≡ sent
unfolding init_module
begun_sends = udp_io_process_send-begun whole 1000000 ready refl refl

abbrev served :
    (s' : Server) × (reply : List ℕ) × (serve_spi config reads frame started ≡ some (s', reply))
served =
    let (sync, serving) = ready_sync in
    let o =
      begun_origin whole off_axis ready (λ i. (get_or module_data.axes i off_axis).prev_pos) in
    let (s', reply, ended, got, rest) =
      serve_spi-IsServing whole whole-IsExact off_axis 1000000 o config reads frame
        (begun whole ready) receiver started packet
        (begun-InSync whole off_axis 1000000 (λ i. (get_or module_data.axes i off_axis).prev_pos)
          ready started.board sync)
        serving ready-IsLive reads-IsReads (ap (λ x. x.1) begun_sends ∙ ready_sends.1)
        (sym (ap (λ x. x.0.axes) begun_sends)) refl (λ i h. u8-tx_frame packet ready_sends.2 i)
        (λ k. refl) (omega arith) in
    (s', reply, ended)

abbrev core_of : Board → Core1
core_of b = record core { board = b }

-- An edge of the index pin of encoder 0, then the link is found lost.
abbrev after_edge : Board
after_edge = (gpio_callback config 0 11 (core_of served.0.board)).0.board

abbrev after_round : Board
after_round = (core1_round config (λ i. 0) (λ i. 5) 9999999 0 packet (core_of after_edge)).0.board

Service-boot_board_example :
    InSync whole off_axis 1000000
      (begun_origin whole off_axis ready (λ i. (get_or module_data.axes i off_axis).prev_pos))
      (after_reply whole off_axis 1000000 ready receiver served.1)
      after_round
    × IsServing (record (served.0) { board = after_round })
Service-boot_board_example =
    Service-boot_board whole off_axis 1000000 whole-IsExact config module_data board.irq
      encoders_started started refl (omega arith) refl refl
      (core1
        (interrupt
          (exchange (linuxcnc start ready-KeepsPlace) reads frame receiver first_period served.2)
          (core_of served.0.board) refl 0 11)
        (core_of after_edge) refl (λ i. 0) (λ i. 5) 9999999 0 packet)
