-- ===== src/System/Service.antt =====
-- Periods over SPI one after the other, and in between LinuxCNC, the interrupts and core 1, in any
-- order: what hal-driver/flexi-ninja.c and both cores of firmware/src/main.c do while the link is
-- up.
pub mod Tests
use flexi_ninja.Prelude.{ℕ, suc, refl, sym, ap, true, false, Option, some, List, length, get_or}
use flexi_ninja.Prelude.{u8, ◌≤◌, ◌<◌, ◌≡◌, ◌∙◌}
use mathlib.Core.Path.{subst}
use mathlib.Core.Option.{some-injective}
use flexi_ninja.Prelude.Int.{ℤ}
use flexi_ninja.Transmission.Packet.{PcPico, tx_checksum_ok}
use flexi_ninja.Driver.Arith.{Arith, IsExact}
use flexi_ninja.Driver.Axis.{Axis}
use flexi_ninja.Driver.Send.{Module, udp_io_process_send}
use flexi_ninja.Driver.Recv.{Link, udp_io_process_recv}
use flexi_ninja.Driver.Platform.{tx_frame, rx_packet}
use flexi_ninja.Firmware.HandleData.{Config, Board, Reads}
use flexi_ninja.Firmware.HandleData.Shape.{IsBoard, IsReads}
use flexi_ninja.Firmware.Transport.Exchange.{ready}
use flexi_ninja.Firmware.Server.{Server, SpiReads, serve_spi}
use flexi_ninja.Firmware.CoreState.{Core1}
use flexi_ninja.Firmware.GpioCallback.{gpio_callback}
use flexi_ninja.Firmware.Core1.{core1_round}
use flexi_ninja.Firmware.Core1.Apart.{Apart, gpio_callback-Apart, core1_round-Apart}
use flexi_ninja.System.Sync.Axes.{InSync, IsLive}
use flexi_ninja.System.Connection.{KeepsPlace, between-InSync}
use flexi_ninja.Firmware.HandleData.Shape.{AllWords}
use flexi_ninja.Firmware.IrqEncoder.{IrqEncoders}
use flexi_ninja.Firmware.Boot.{EncoderBoot, boot_board}
use flexi_ninja.Driver.Setup.Start.{init_module}
use flexi_ninja.System.Sync.Begin.{begun, begun_origin, begun-InSync, udp_io_process_send-begun}
use flexi_ninja.System.Start.{init_module-boot_board}
use flexi_ninja.System.Round.{IsServing, serve_spi-IsServing}

module _ (ar : Arith) (z : Axis ar) (period : ℕ) where
  -- What a period needs: the driver is live, with the axes that are switched on, and not cut off,
  -- what the hardware of the board gives is in its types, the board reads the bytes of the driver's
  -- frame, all in time, and can send at every poll.
  pub record IsPeriod (d : Module ar) (r : Reads) (io : SpiReads) (l : Link ar) (p : PcPico)
      : Type 0 where
    pub live : IsLive ar z period (begun ar d) r
    pub clean : IsReads r
    pub sent : (udp_io_process_send ar period d).1 ≡ some p
    pub shared : l.axes ≡ (udp_io_process_send ar period d).0.axes
    pub alive : l.watchdog.watchdog_expired ≡ false
    pub wired : (i : ℕ) → i < 74 → u8 (io.incoming i) ≡ get_or (tx_frame p) i 0
    pub free : (k : ℕ) → io.writable k ≡ true
    pub enough : 74 ≤ ready io.readable 0 io.polls

  -- The driver after a period in which this reply came back.
  abbrev pub after_reply : Module ar → Link ar → List ℕ → Module ar
  after_reply d l reply = record ((udp_io_process_send ar period d).0) {
    axes = (udp_io_process_recv ar false (rx_packet reply) l).axes;
  }

  -- So many periods have passed, and axis `i` counts from this origin, which moves when the axis is
  -- switched on. Core 1 shares the board with core 0; the rest of its state is any.
  pub data Service (c : Config) (d : Module ar) (s : Server) (o : ℕ → ℤ)
      : ℕ → (ℕ → ℤ) → Module ar → Server → Type 0 where
    start : Service c d s o 0 o d s
    linuxcnc :
        {n : ℕ} {o1 : ℕ → ℤ} {d1 d2 : Module ar} {s1 : Server}
        → Service c d s o n o1 d1 s1
        → KeepsPlace ar z period c d1 d2
        → Service c d s o n o1 d2 s1
    interrupt :
        {n : ℕ} {o1 : ℕ → ℤ} {d1 : Module ar} {s1 : Server}
        → Service c d s o n o1 d1 s1
        → (core : Core1) → core.board ≡ s1.board
        → (pins gpio : ℕ)
        → Service c d s o n o1 d1 (record s1 { board = (gpio_callback c pins gpio core).0.board })
    core1 :
        {n : ℕ} {o1 : ℕ → ℤ} {d1 : Module ar} {s1 : Server}
        → Service c d s o n o1 d1 s1
        → (core : Core1) → core.board ≡ s1.board
        → (block slice : ℕ → ℕ) (now pins : ℕ) (p : PcPico)
        → Service c d s o n o1 d1
            (record s1 { board = (core1_round c block slice now pins p core).0.board })
    exchange :
        {n : ℕ} {o1 : ℕ → ℤ} {d1 : Module ar} {s1 s2 : Server} {p : PcPico} {reply : List ℕ}
        → Service c d s o n o1 d1 s1
        → (r : Reads) (io : SpiReads) (l : Link ar) → IsPeriod d1 r io l p
        → serve_spi c r io s1 ≡ some (s2, reply)
        → Service c d s o (suc n) (begun_origin ar z d1 o1) (after_reply d1 l reply) s2

  Apart-refl : (b : Board) → IsBoard b → Apart b b
  Apart-refl b h = record { position = refl; error = λ e. e; tx = refl; board = h }

  module _ (ex : IsExact ar) where
    -- Driver in step with the board, and the board ready to serve.
    abbrev Holds : (ℕ → ℤ) → Module ar → Server → Type 1
    Holds origin d s = InSync ar z period origin d s.board × IsServing s

    with_board-Holds :
        (origin : ℕ → ℤ) (d : Module ar) (s : Server) (b b' : Board)
        → b ≡ s.board
        → (Apart b b → Apart b b')
        → Holds origin d s
        → Holds origin d (record s { board = b' })
    with_board-Holds origin d s b b' same keeps (sync, serving) =
        let typed = subst IsBoard (sym same) serving.board in
        let k = keeps (Apart-refl b typed) in
        let kept = subst (InSync ar z period origin d) (sym same) sync in
        (
          record {
            axes_length = kept.axes_length;
            position_length = ap length k.position ∙ kept.position_length;
            healthy = k.error kept.healthy;
            table = kept.table;
            same = λ i hi. ap (λ ps. get_or ps i 0) k.position ∙ kept.same i hi;
          },
          record {
            board = k.board;
            report = ap tx_checksum_ok (k.tx ∙ ap (λ (x : Board). x.tx) same) ∙ serving.report;
            frame = serving.frame;
          },
        )

    exchange-Holds :
        (origin : ℕ → ℤ) (c : Config) (r : Reads) (io : SpiReads) (d : Module ar) (l : Link ar)
        (s s2 : Server) (p : PcPico) (reply : List ℕ)
        → IsPeriod d r io l p
        → serve_spi c r io s ≡ some (s2, reply)
        → Holds origin d s
        → Holds (begun_origin ar z d origin) (after_reply d l reply) s2
    exchange-Holds origin c r io d l s s2 p reply h served (sync, serving) =
        let same = udp_io_process_send-begun ar period d h.live.fresh h.live.running in
        let o = begun_origin ar z d origin in
        let (s', reply', ended, got, after) =
          serve_spi-IsServing ar ex z period o c r io (begun ar d) l s p
            (begun-InSync ar z period origin d s.board sync) serving h.live h.clean
            (ap (λ x. x.1) same ∙ h.sent) (h.shared ∙ sym (ap (λ x. x.0.axes) same)) h.alive h.wired
            h.free h.enough in
        let replied : List ℕ → Module ar × Option PcPico → Module ar = λ bytes x. record (x.0) {
          axes = (udp_io_process_recv ar false (rx_packet bytes) l).axes;
        } in
        let there = subst (λ x. Holds o (replied reply' x) s') same (after.2, after.3) in
        subst {A = Server × List ℕ} (λ x. Holds o (after_reply d l x.1) x.0)
          (some-injective (s', reply') (s2, reply) (sym ended ∙ served)) there

    pub Service-IsServing :
        (c : Config) (d : Module ar) (s : Server) (o : ℕ → ℤ) {n : ℕ} {o' : ℕ → ℤ} {d' : Module ar}
        {s' : Server}
        → Holds o d s
        → Service c d s o n o' d' s'
        → Holds o' d' s'
    Service-IsServing c d s o h start = h
    Service-IsServing c d s o h (linuxcnc {o1} {d1} {d2} {s1} run k) =
        let (before, same) = Service-IsServing c d s o h run in
        (
          between-InSync ar z period c ex o1 d1 d2 s1.board s1.board before k
              (record { position = refl; checksum_error = λ e. e }),
          same,
        )
    Service-IsServing c d s o h (interrupt {o1} {d1} {s1} run core shared pins gpio) =
        with_board-Holds o1 d1 s1 core.board (gpio_callback c pins gpio core).0.board shared
          (gpio_callback-Apart core.board c pins gpio core) (Service-IsServing c d s o h run)
    Service-IsServing c d s o h (core1 {o1} {d1} {s1} run core shared block slice now pins p) =
        with_board-Holds o1 d1 s1 core.board (core1_round c block slice now pins p core).0.board
          shared (core1_round-Apart core.board c pins p block slice now core)
          (Service-IsServing c d s o h run)
    Service-IsServing c d s o h (exchange {o1} {d1} {s1} {s2} {p} {reply} run r io l ok served) =
        exchange-Holds o1 c r io d1 l s1 s2 p reply ok served (Service-IsServing c d s o h run)

    -- From power-up on, whatever the memory of the driver held for its six axes: after any number
    -- of periods over SPI (the driver running, its axes off or in position mode with steps that fit
    -- the period, the board's FIFOs with room in time, all bytes of the frame read in time and the
    -- reply writable), with rounds and interrupts of core 1 and with LinuxCNC at the pins in
    -- between, in any order, driver and board agree on where every axis is, up to its origin, the
    -- board is not in error, and it is ready for the next period with a report that the driver will
    -- take. The origin of an axis moves in the periods that switch it on, and only then, by as much
    -- as the driver's own position jumps.
    pub Service-boot_board :
        (c : Config) (memory : Module ar) (irq : IrqEncoders) (st : EncoderBoot) (s : Server)
        {n : ℕ} {o' : ℕ → ℤ} {d' : Module ar} {s' : Server}
        → length memory.axes ≡ 6
        → AllWords irq.counter
        → s.board ≡ boot_board irq st
        → length s.spi_rx_frame ≡ 74
        → Service c (init_module ar memory) s (λ i. (get_or memory.axes i z).prev_pos) n o' d' s'
        → InSync ar z period o' d' s'.board × IsServing s'
    Service-boot_board c memory irq st s six words started frame run =
        Service-IsServing c (init_module ar memory) s (λ i. (get_or memory.axes i z).prev_pos)
          (init_module-boot_board ar z period memory irq st s six words started frame) run
