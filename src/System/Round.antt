-- ===== src/System/Round.antt =====
-- A whole period of the two programs: hal-driver/flexi-ninja.c sends its frame over SPI, the board
-- handles the packet in it, and the driver receives the report that came back meanwhile.
use flexi_ninja.Prelude.{ℕ, sym, ap, true, false, some, List, arith, length, get_or, take, u8}
use flexi_ninja.Prelude.{◌≤◌, ◌<◌, ◌≡◌, ◌∙◌}
use mathlib.Core.Path.{subst}
use mathlib.Core.Option.{some-injective}
use flexi_ninja.Prelude.Int.{ℤ}
use flexi_ninja.Transmission.Packet.{PcPico, PicoPc, pico_pc_bytes, tx_checksum_ok}
use flexi_ninja.Transmission.Layout.{IsPcPico, length-pico_pc_bytes}
use flexi_ninja.Driver.Arith.{Arith, IsExact}
use flexi_ninja.Driver.Axis.{Axis}
use flexi_ninja.Driver.Send.{Module, udp_io_process_send}
use flexi_ninja.Driver.Send.Laws.{udp_io_process_send-IsPcPico}
use flexi_ninja.Driver.Recv.{Link, accept, udp_io_process_recv}
use flexi_ninja.Driver.Platform.{tx_frame, rx_packet}
use flexi_ninja.Driver.Platform.Frame.{frame_bytes, rx_packet-bytes}
use flexi_ninja.Firmware.HandleData.{Config, Board, Reads, handle_data}
use flexi_ninja.Firmware.HandleData.Shape.{IsBoard, IsReads}
use flexi_ninja.Firmware.HandleData.Report.{handle_data-IsBoard}
use flexi_ninja.Firmware.Transport.Exchange.{ready}
use flexi_ninja.Firmware.Server.{Server, SpiReads, serve_spi}
use flexi_ninja.Firmware.Server.Replies.{after_packet, serve_spi-packet, take_all}
use flexi_ninja.System.Sync.Axes.{InSync, IsLive}
use flexi_ninja.System.Sync.Exchange.{exchange-InSync}
use flexi_ninja.System.Connection.{receive-InSync}
use flexi_ninja.System.Wire.{after_packet-InSync}
use flexi_ninja.Driver.Watchdog.{received}

-- What the board keeps from one period to the next: its state in its types, and a report that the
-- driver takes.
pub record IsServing (s : Server) : Type 0 where
  pub board : IsBoard s.board
  pub report : tx_checksum_ok s.board.tx ≡ true
  pub frame : length s.spi_rx_frame ≡ 74

after_packet-IsBoard :
    (c : Config) (r : Reads) (p : PcPico) (b : Board)
    → IsReads r
    → IsPcPico p
    → IsBoard b
    → IsBoard (after_packet c r p b) × (tx_checksum_ok (after_packet c r p b).tx ≡ true)
after_packet-IsBoard c r p b clean v h =
    let (kept, ok, id, steps) = handle_data-IsBoard c r p b clean v h in
    (
      record {
        rx_counter = omega arith;
        position = kept.position;
        overflow = kept.overflow;
        counter = kept.counter;
        index_reset_flags = kept.index_reset_flags;
        tx = kept.tx;
      },
      ok,
    )

-- A report with its checksum is taken.
recv_connected :
    (ar : Arith) (rx : PicoPc) (l : Link ar)
    → l.watchdog.watchdog_expired ≡ false
    → tx_checksum_ok rx ≡ true
    → let l' = udp_io_process_recv ar false rx l in
      (l'.status.connected ≡ true) × (l'.watchdog.last_received_time ≡ l.watchdog.current_time)
unfolding udp_io_process_recv accept received
recv_connected ar rx l alive ok = ground (arith, alive, ok)

module _ (ar : Arith) (ex : IsExact ar) (z : Axis ar) (period : ℕ) (origin : ℕ → ℤ) where
  -- A whole period: driver and board are in step, the board's state and report are as a period
  -- leaves them, the driver is live and not cut off, the board reads the bytes of the driver's
  -- frame, all in time, and can send at every poll. Then the board ends its round, the driver gets
  -- the report that the board had, takes it and is connected, and driver and board are as before:
  -- in step, with the next report ready that the driver will take.
  pub serve_spi-IsServing :
      (c : Config) (r : Reads) (io : SpiReads) (d : Module ar) (l : Link ar) (s : Server)
      (p : PcPico)
      → InSync ar z period origin d s.board
      → IsServing s
      → IsLive ar z period d r
      → IsReads r
      → (udp_io_process_send ar period d).1 ≡ some p
      → l.axes ≡ (udp_io_process_send ar period d).0.axes
      → l.watchdog.watchdog_expired ≡ false
      → ((i : ℕ) → i < 74 → u8 (io.incoming i) ≡ get_or (tx_frame p) i 0)
      → ((k : ℕ) → io.writable k ≡ true)
      → 74 ≤ ready io.readable 0 io.polls
      → (s' : Server) × (reply : List ℕ) × (serve_spi c r io s ≡ some (s', reply))
        × (rx_packet reply ≡ s.board.tx)
        × (let l' = udp_io_process_recv ar false (rx_packet reply) l in
            let d' : Module ar = record ((udp_io_process_send ar period d).0) { axes = l'.axes } in
            (l'.status.connected ≡ true)
            × (l'.watchdog.last_received_time ≡ l.watchdog.current_time)
            × InSync ar z period origin d' s'.board
            × IsServing s')
  serve_spi-IsServing c r io d l s p h serving live clean sent shared alive wired free enough =
      let d1 = (udp_io_process_send ar period d).0 in
      let (q, here, synced) = exchange-InSync ar ex z period origin c r d s.board h live in
      let (t, out, fits) =
        udp_io_process_send-IsPcPico ar period d h.axes_length live.fresh live.running in
      let valid : IsPcPico p = subst IsPcPico (some-injective t p (sym out ∙ sent)) fits in
      let size = length-pico_pc_bytes s.board.tx serving.board.tx in
      let (s', n, ended, few, board, frame, all) =
        serve_spi-packet c r io p s valid
          (λ i hi. wired i (omega (arith, hi)) ∙ frame_bytes p i valid hi) serving.frame size
          enough in
      let reply = take n (pico_pc_bytes s.board.tx) in
      let whole : reply ≡ pico_pc_bytes s.board.tx =
        ap (λ (k : ℕ). take k (pico_pc_bytes s.board.tx)) (all free)
        ∙ take_all 74 (pico_pc_bytes s.board.tx) size in
      let got : rx_packet reply ≡ s.board.tx =
        ap rx_packet whole ∙ rx_packet-bytes s.board.tx serving.board.tx in
      let taken =
        recv_connected ar (rx_packet reply) l alive (ap tx_checksum_ok got ∙ serving.report) in
      let handled : InSync ar z period origin d1 (handle_data c r p s.board).0 =
        subst (λ x. InSync ar z period origin d1 (handle_data c r x s.board).0)
          (some-injective q p (sym here ∙ sent)) synced in
      let counted : InSync ar z period origin d1 s'.board =
        subst (InSync ar z period origin d1) (sym board)
          (after_packet-InSync ar z period origin c r p d1 s.board handled) in
      let after = after_packet-IsBoard c r p s.board clean valid serving.board in
      (
        s',
        reply,
        ended,
        got,
        (
          taken.0,
          taken.1,
          receive-InSync ar z period c ex origin false (rx_packet reply) l d1 s'.board shared
              counted,
          record {
            board = subst IsBoard (sym board) after.0;
            report = ap (λ (b : Board). tx_checksum_ok b.tx) board ∙ after.1;
            frame = frame;
          },
        ),
      )
