-- ===== src/System/Start.antt =====
-- Both programs as they start.
use flexi_ninja.Prelude.{ℕ, zero, suc, refl, sym, ap, inl, List, [], map, arith, length, get_or}
use flexi_ninja.Prelude.{replicate, ◌≡◌, ◌∙◌, ◌∷◌}
use mathlib.Core.Path.{subst}
use flexi_ninja.Transmission.Packet.{tx_checksum_ok}
use flexi_ninja.Firmware.HandleData.{Board}
use flexi_ninja.Prelude.Int.{ℤ, pos, ◌-ℤ◌, -ℤ_parts, eq_of_parts}
use flexi_ninja.Driver.Arith.{Arith}
use flexi_ninja.Driver.Axis.{Axis, pattern}
use flexi_ninja.Driver.Send.{Module}
use flexi_ninja.Driver.Setup.Start.{init_axis, init_module}
use flexi_ninja.Firmware.IrqEncoder.{IrqEncoders}
use flexi_ninja.Firmware.HandleData.Shape.{AllWords, IsBoard}
use flexi_ninja.Firmware.Boot.{EncoderBoot, boot_board}
use flexi_ninja.Firmware.Boot.First.{boot_board-IsBoard}
use flexi_ninja.Firmware.Server.{Server}
use flexi_ninja.System.Sync.Axes.{InSync}
use flexi_ninja.System.Round.{IsServing}

minus_self : (a : ℤ) → a -ℤ a ≡ pos 0
minus_self a = eq_of_parts (a -ℤ a) (pos 0) (omega (arith, -ℤ_parts a a))

zeros : (n i : ℕ) → ◌≡◌ {A = ℕ} (get_or (replicate n 0) i 0) 0
zeros zero i = refl
zeros (suc n) zero = refl
zeros (suc n) (suc i) = zeros n i

module _ (ar : Arith) (z : Axis ar) (period : ℕ) where
  length-init_axis : (axes : List (Axis ar)) → length (map (init_axis ar) axes) ≡ length axes
  length-init_axis [] = refl
  length-init_axis (a ∷ axes) = ap suc (length-init_axis axes)

  init_axis_place :
      (axes : List (Axis ar)) (i : ℕ)
      → (get_or (map (init_axis ar) axes) i z).prev_pos ≡ (get_or axes i z).prev_pos
  unfolding init_axis
  init_axis_place [] i = refl
  init_axis_place (a ∷ axes) zero = refl
  init_axis_place (a ∷ axes) (suc i) = init_axis_place axes i

  start-InSync :
      (memory : Module ar) (irq : IrqEncoders) (st : EncoderBoot)
      → length memory.axes ≡ 6
      → InSync ar z period
          (λ i. (get_or memory.axes i z).prev_pos)
          (init_module ar memory)
          (boot_board irq st)
  unfolding init_module boot_board
  start-InSync memory irq st six = record {
    axes_length = length-init_axis memory.axes ∙ six;
    position_length = refl;
    healthy = refl;
    table = inl refl;
    same = λ i hi.
        let p = (get_or memory.axes i z).prev_pos in
        zeros 6 i
        ∙ sym (
            ap (λ (x : ℤ). pattern (x -ℤ p)) (init_axis_place memory.axes i)
            ∙ ap pattern (minus_self p));
  }

  -- Whatever the memory held: after the set-up of the driver and the start of the board the two are
  -- in step, with every axis at its origin, and the board is ready to serve, with a first report
  -- that the driver will take.
  pub init_module-boot_board :
      (memory : Module ar) (irq : IrqEncoders) (st : EncoderBoot) (s : Server)
      → length memory.axes ≡ 6
      → AllWords irq.counter
      → s.board ≡ boot_board irq st
      → length s.spi_rx_frame ≡ 74
      → InSync ar z period (λ i. (get_or memory.axes i z).prev_pos) (init_module ar memory) s.board
        × IsServing s
  init_module-boot_board memory irq st s six words started frame =
      let (typed, sealed) = boot_board-IsBoard irq st words in
      (
        subst (InSync ar z period (λ i. (get_or memory.axes i z).prev_pos) (init_module ar memory))
            (sym started) (start-InSync memory irq st six),
        record {
          board = subst IsBoard (sym started) typed;
          report = ap (λ (b : Board). tx_checksum_ok b.tx) started ∙ sealed;
          frame = frame;
        },
      )
