-- ===== src/Firmware/Core1/Apart.antt =====
-- What core 1 shares with core 0 and leaves alone: its rounds and its interrupts move no stepgen,
-- write no report and raise no error.
use flexi_ninja.Prelude.{ℕ, refl, sym, Bool, false, List, arith, u8, set_bit, ◌≡◌, ◌==◌}
use flexi_ninja.Prelude.{if◌then◌else◌}
use mathlib.Core.Path.{subst}
use flexi_ninja.Firmware.IrqEncoder
use flexi_ninja.Firmware.IrqEncoder.{IrqEncoders, IrqCall, counts, reset_count, handle_edge}
use flexi_ninja.Transmission.Packet.{PcPico}
use flexi_ninja.Firmware.HandleData.{Config, Board}
use flexi_ninja.Firmware.HandleData.Shape.{
  AllWords, IsBoard, set-AllWords, either, reset_count-AllWords,
}
use flexi_ninja.Firmware.CoreState.{Core1, Call}
use flexi_ninja.Firmware.GpioCallback.{
  reset_encoder_counter, index_edge, callback_one, gpio_callback,
}
use flexi_ninja.Firmware.PulseLoad.{load_pulse}
use flexi_ninja.Firmware.Core1.{disconnect, arm_index, arm_edges, set_pwm, serve_link, core1_round}
use flexi_ninja.Firmware.Core1.Link.{each-keeps}

-- What may become of a board by core 1.
pub record Apart (b b' : Board) : Type 0 where
  pub position : b'.steps.position ≡ b.steps.position
  pub error : b.checksum_error ≡ false → b'.checksum_error ≡ false
  pub tx : b'.tx ≡ b.tx
  pub board : IsBoard b'

handle_edge-AllWords :
    (pins i gpio : ℕ) (s : IrqEncoders)
    → AllWords s.counter
    → AllWords (handle_edge pins i gpio s).0.counter
unfolding handle_edge
handle_edge-AllWords pins i gpio s h =
    either {A = IrqEncoders × Bool} (λ t. AllWords t.0.counter) _ _ _
      (set-AllWords s.counter i _ h (omega arith)) h

enable-AllWords :
    (pins i : ℕ) (s : IrqEncoders)
    → AllWords s.counter
    → AllWords (IrqEncoder.enable pins i s).0.counter
unfolding IrqEncoder.enable
enable-AllWords pins i s h =
    either {A = IrqEncoders × List IrqCall} (λ t. AllWords t.0.counter) (counts s.cfg i) _ _
      (set-AllWords s.counter i 0 h (omega arith)) h

disable-AllWords :
    (i : ℕ) (s : IrqEncoders) → AllWords s.counter → AllWords (IrqEncoder.disable i s).0.counter
unfolding IrqEncoder.disable
disable-AllWords i s h =
    either {A = IrqEncoders × List IrqCall} (λ t. AllWords t.0.counter) (counts s.cfg i) _ _ h h

module _ (b : Board) where
  with_irq-Apart :
      (b' : Board) (irq : IrqEncoders)
      → Apart b b'
      → AllWords irq.counter
      → Apart b (record b' { irq = irq })
  with_irq-Apart b' irq h words = record {
    position = h.position;
    error = h.error;
    tx = h.tx;
    board = record {
      rx_counter = h.board.rx_counter;
      position = h.board.position;
      overflow = h.board.overflow;
      counter = words;
      index_reset_flags = h.board.index_reset_flags;
      tx = h.board.tx;
    };
  }

  with_flags-Apart :
      (b' : Board) (flags : ℕ) → Apart b b' → Apart b (record b' { index_reset_flags = u8 flags })
  with_flags-Apart b' flags h = record {
    position = h.position;
    error = h.error;
    tx = h.tx;
    board = record {
      rx_counter = h.board.rx_counter;
      position = h.board.position;
      overflow = h.board.overflow;
      counter = h.board.counter;
      index_reset_flags = omega arith;
      tx = h.board.tx;
    };
  }

  -- Of a body, or of the whole: the board that it leaves.
  abbrev After : Core1 × List Call → Type 0
  After x = Apart b x.0.board

  module _ (c : Config) (pins : ℕ) where
    reset_encoder_counter-Apart :
        (i : ℕ) (s : Core1) → Apart b s.board → After (reset_encoder_counter c pins i s)
    unfolding reset_encoder_counter
    reset_encoder_counter-Apart i s h =
        either {A = Core1 × List Call} After _ _ _
          (with_irq-Apart s.board (reset_count pins i s.board.irq) h
            (reset_count-AllWords pins i s.board.irq h.board.counter))
          h

    index_edge-Apart : (i : ℕ) (s : Core1) → Apart b s.board → After (index_edge c pins i s)
    unfolding index_edge
    index_edge-Apart i s h =
        let s1 = (reset_encoder_counter c pins i s).0 in
        let flagged =
          with_flags-Apart s1.board (set_bit s1.board.index_reset_flags i)
            (reset_encoder_counter-Apart i s h) in
        either {A = Core1 × List Call} After _ _ _ flagged flagged

    callback_one-Apart :
        (gpio i : ℕ) (s : Core1) → Apart b s.board → After (callback_one c pins gpio i s)
    unfolding callback_one
    callback_one-Apart gpio i s h =
        let is_index = gpio == (IrqEncoder.encoder_at c.encoder_config i).index_pin in
        let s1 = if is_index then (index_edge c pins i s).0 else s in
        let h1 =
          either {A = Core1} (λ t. Apart b t.board) is_index _ s (index_edge-Apart i s h) h in
        with_irq-Apart s1.board (handle_edge pins i gpio s1.board.irq).0 h1
          (handle_edge-AllWords pins i gpio s1.board.irq h1.board.counter)

    pub gpio_callback-Apart :
        (gpio : ℕ) (s : Core1) → Apart b s.board → After (gpio_callback c pins gpio s)
    unfolding gpio_callback
    gpio_callback-Apart gpio s h =
        each-keeps (λ t. Apart b t.board) (callback_one c pins gpio) (callback_one-Apart gpio) 2 0 s
          h

    disconnect-Apart : (s : Core1) → Apart b s.board → After (disconnect c pins s)
    unfolding disconnect
    disconnect-Apart s h =
        let k =
          each-keeps (λ t. Apart b t.board) (reset_encoder_counter c pins)
            reset_encoder_counter-Apart 2 0 (record s { connected = 0 }) h in
        record {
          position = k.position;
          error = λ e. refl;
          tx = k.tx;
          board = record {
            rx_counter = omega arith;
            position = k.board.position;
            overflow = k.board.overflow;
            counter = k.board.counter;
            index_reset_flags = k.board.index_reset_flags;
            tx = k.board.tx;
          };
        }

    module _ (p : PcPico) where
      arm_index-Apart : (i : ℕ) (s : Core1) → Apart b s.board → After (arm_index c p i s)
      unfolding arm_index
      arm_index-Apart i s h =
          let kept : (arm_index c p i s).0.board ≡ s.board = ground arith in
          subst (Apart b) (sym kept) h

      arm_edges-Apart : (i : ℕ) (s : Core1) → Apart b s.board → After (arm_edges c pins p i s)
      unfolding arm_edges
      arm_edges-Apart i s h =
          let irq = s.board.irq in
          let on =
            with_irq-Apart s.board (IrqEncoder.enable pins i irq).0 h
              (enable-AllWords pins i irq h.board.counter) in
          let off =
            with_irq-Apart s.board (IrqEncoder.disable i irq).0 h
              (disable-AllWords i irq h.board.counter) in
          either {A = Core1 × List Call} After _ _ _
            (either {A = Core1 × List Call} After _ _ _ on
              (either {A = Core1 × List Call} After _ _ _ off h))
            h

      load_pulse-Apart :
          (block : ℕ → ℕ) (s : Core1) → Apart b s.board → After (load_pulse block p s)
      unfolding load_pulse
      load_pulse-Apart block s h =
          let kept : (load_pulse block p s).0.board ≡ s.board = ground arith in
          subst (Apart b) (sym kept) h

      set_pwm-Apart :
          (slice : ℕ → ℕ) (i : ℕ) (s : Core1) → Apart b s.board → After (set_pwm c slice p i s)
      unfolding set_pwm
      set_pwm-Apart slice i s h = either {A = Core1 × List Call} After _ _ _ h h

      serve_link-Apart :
          (block slice : ℕ → ℕ) (s : Core1)
          → Apart b s.board
          → After (serve_link c block slice pins p s)
      unfolding serve_link
      serve_link-Apart block slice s h =
          let P : Core1 → Type 0 = λ t. Apart b t.board in
          let s0 : Core1 = record s { timeout_error = 0; connected = 1 } in
          let armed = each-keeps P (arm_index c p) arm_index-Apart 2 0 s0 h in
          let counting = each-keeps P (arm_edges c pins p) arm_edges-Apart 2 0 _ armed in
          let loaded = load_pulse-Apart block _ counting in
          each-keeps P (set_pwm c slice p) (set_pwm-Apart slice) 1 0 _ loaded

      pub core1_round-Apart :
          (block slice : ℕ → ℕ) (now : ℕ) (s : Core1)
          → Apart b s.board
          → Apart b (core1_round c block slice now pins p s).0.board
      unfolding core1_round
      core1_round-Apart block slice now s h =
          let P : Core1 × List Call × Bool → Type 0 = λ x. Apart b x.0.board in
          either P _ _ _ (either P _ _ _ (disconnect-Apart s h) h)
            (serve_link-Apart block slice s h)
