-- ===== src/System/Wire.antt =====
-- A period on the wire: the driver's packet as the bytes that the board clocks in over SPI.
use flexi_ninja.Prelude.{ℕ, sym, some, List, length, get_or, take, u8, ◌≤◌, ◌<◌, ◌≡◌, ◌∙◌}
use mathlib.Core.Path.{subst}
use mathlib.Core.Option.{some-injective}
use flexi_ninja.Prelude.Int.{ℤ}
use flexi_ninja.Transmission.Packet.{PcPico, pc_pico_bytes, pico_pc_bytes}
use flexi_ninja.Transmission.Layout.{IsPcPico}
use flexi_ninja.Driver.Arith.{Arith, IsExact}
use flexi_ninja.Driver.Axis.{Axis}
use flexi_ninja.Driver.Send.{Module, udp_io_process_send}
use flexi_ninja.Driver.Send.Laws.{udp_io_process_send-IsPcPico}
use flexi_ninja.Firmware.HandleData.{Config, Board, Reads, handle_data}
use flexi_ninja.Firmware.Transport.Exchange.{ready}
use flexi_ninja.Firmware.Server.{Server, SpiReads, serve_spi}
use flexi_ninja.Firmware.Server.Replies.{after_packet, serve_spi-packet}
use flexi_ninja.System.Sync.Axes.{InSync, IsLive}
use flexi_ninja.System.Sync.Exchange.{exchange-InSync}

module _ (ar : Arith) (z : Axis ar) (period : ℕ) (origin : ℕ → ℤ) where
  -- Counting the packet moves no axis.
  pub after_packet-InSync :
      (c : Config) (r : Reads) (p : PcPico) (d : Module ar) (b : Board)
      → InSync ar z period origin d (handle_data c r p b).0
      → InSync ar z period origin d (after_packet c r p b)
  after_packet-InSync c r p d b h = record {
    axes_length = h.axes_length;
    position_length = h.position_length;
    healthy = h.healthy;
    table = h.table;
    same = h.same;
  }

module _ (ar : Arith) (ex : IsExact ar) (z : Axis ar) (period : ℕ) (origin : ℕ → ℤ) where
  -- One period with the bytes on the wire: driver and board are in step, the driver's watchdog runs
  -- and its axes may go on, the board's FIFOs have room in time, its frame buffer and its report have
  -- 74 bytes, the first 47 bytes that it reads are those of the driver's packet, and all 74 can be
  -- read before the polls end. Then the board ends its round, and driver and board are in step again.
  serve_spi-InSync :
      (c : Config) (r : Reads) (io : SpiReads) (d : Module ar) (s : Server) (p : PcPico)
      → InSync ar z period origin d s.board
      → IsLive ar z period d r
      → (udp_io_process_send ar period d).1 ≡ some p
      → ((i : ℕ) → i < 47 → u8 (io.incoming i) ≡ get_or (pc_pico_bytes p) i 0)
      → length s.spi_rx_frame ≡ 74
      → length (pico_pc_bytes s.board.tx) ≡ 74
      → 74 ≤ ready io.readable 0 io.polls
      → (s' : Server) × (reply : List ℕ) × (serve_spi c r io s ≡ some (s', reply))
        × InSync ar z period origin (udp_io_process_send ar period d).0 s'.board
  serve_spi-InSync c r io d s p h live sent clocked room report enough =
      let d' = (udp_io_process_send ar period d).0 in
      let (q, here, synced) = exchange-InSync ar ex z period origin c r d s.board h live in
      let (t, out, fits) =
        udp_io_process_send-IsPcPico ar period d h.axes_length live.fresh live.running in
      let valid : IsPcPico p = subst IsPcPico (some-injective t p (sym out ∙ sent)) fits in
      let (s', n, ended, few, board, frame, all) =
        serve_spi-packet c r io p s valid clocked room report enough in
      let handled : InSync ar z period origin d' (handle_data c r p s.board).0 =
        subst (λ x. InSync ar z period origin d' (handle_data c r x s.board).0)
          (some-injective q p (sym here ∙ sent)) synced in
      (
        s',
        take n (pico_pc_bytes s.board.tx),
        ended,
        subst (InSync ar z period origin d') (sym board)
            (after_packet-InSync ar z period origin c r p d' s.board handled),
      )
