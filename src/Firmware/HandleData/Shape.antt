-- ===== src/Firmware/HandleData/Shape.antt =====
-- What the report is made from, in its C types, which the steps and the encoders of a packet keep.
use flexi_ninja.Prelude.{ℕ, zero, suc, inl, inr, Bool, true, false, List, [], arith, leb}
use flexi_ninja.Prelude.{Bool-cases, get_or, set, All, length-set, u8, word, test_bit, set_bit}
use flexi_ninja.Prelude.{clear_bit, ◌+◌, ◌*◌, ◌<◌, ◌∙◌, ◌∷◌, ◌==◌, if◌then◌else◌}
use flexi_ninja.Transmission.Packet.{PcPico, stepgens}
use flexi_ninja.Transmission.Layout.{IsPicoPc, Words}
use flexi_ninja.Firmware.IrqEncoder.{
  IrqEncoders, counts, reset_count, read_count, is_irq, encoder_at,
}
use flexi_ninja.Firmware.Stepgen.{StepState, accepts, apply_one, apply_from, apply_stepgen_commands}
use flexi_ninja.Firmware.Pwm.{PwmCall}
use flexi_ninja.Firmware.HandleData.{
  Config, Board, Reads, actuate, reset_requested, reset_encoder, encoder_report, update_encoder,
  update_encoders,
}

abbrev pub AllWords : List ℕ → Type 0
AllWords = All (λ w. w < word)

pub set-AllWords : (ws : List ℕ) (i v : ℕ) → AllWords ws → v < word → AllWords (set ws i v)
set-AllWords [] i v h small = tt
set-AllWords (w ∷ ws) zero v h small = (small, h.1)
set-AllWords (w ∷ ws) (suc i) v h small = (h.0, set-AllWords ws i v h.1 small)

pub set-Words : (n : ℕ) (ws : List ℕ) (i v : ℕ) → Words n ws → v < word → Words n (set ws i v)
set-Words n ws i v h small = (length-set ws i v ∙ h.0, set-AllWords ws i v h.1 small)

pub word_at : (ws : List ℕ) (i : ℕ) → AllWords ws → get_or ws i 0 < word
word_at [] zero h = omega arith
word_at [] (suc i) h = omega arith
word_at (w ∷ ws) zero h = h.0
word_at (w ∷ ws) (suc i) h = word_at ws i h.1

-- What the report is made from, and the report, in their C types; Buffers has the rest of the state.
pub record IsBoard (b : Board) : Type 0 where
  pub rx_counter : b.rx_counter < 256
  pub position : Words 6 b.steps.position
  pub overflow : b.steps.overflow < 256
  pub counter : AllWords b.irq.counter
  pub index_reset_flags : b.index_reset_flags < 256
  pub tx : IsPicoPc b.tx

-- What the hardware gives for the report, in its types.
pub record IsReads (r : Reads) : Type 0 where
  pub timestamp : (i : ℕ) → r.timestamp i < word
  pub flex_value : r.flex_value < word
  pub pins_high : r.pins_high < word * word

-- The step state fits after any commands.
abbrev Fits : StepState → Type 0
Fits s = Words 6 s.position × (s.overflow < 256)

module _ (dir_invert : ℕ → Bool) (full : ℕ → ℕ → Bool) where
  apply_one-Fits : (i w : ℕ) (s : StepState) → Fits s → Fits (apply_one dir_invert full i w s)
  unfolding apply_one
  apply_one-Fits i w s h = elim (Bool-cases (w == 0)) [
    | inl e ↦ rw e h
    | inr e ↦ elim (Bool-cases (accepts (full i))) [
      | inl room ↦ rw (e, room) (set-Words 6 s.position i _ h.0 (ground arith), h.1)
      | inr none_left ↦ rw (e, none_left) (h.0, omega arith)
    ]
  ]

  apply_from-Fits :
      (n i : ℕ) (ws : List ℕ) (s : StepState) → Fits s → Fits (apply_from dir_invert full n i ws s)
  unfolding apply_from
  apply_from-Fits zero i ws s h = h
  apply_from-Fits (suc n) i ws s h =
      apply_from-Fits n (i + 1) ws _ (apply_one-Fits i (get_or ws i 0) s h)

  apply_stepgen_commands-Fits :
      (e : Bool) (ws : List ℕ) (s : StepState)
      → Fits s
      → Fits (apply_stepgen_commands dir_invert full e ws s)
  unfolding apply_stepgen_commands
  apply_stepgen_commands-Fits true ws s h = h
  apply_stepgen_commands-Fits false ws s h = apply_from-Fits stepgens 0 ws s h

-- What both branches have, the test has.
pub either : {A : Type 0} (P : A → Type 0) (e : Bool) (x y : A) → P x → P y → P (if e then x else y)
either P true x y hx hy = hx
either P false x y hx hy = hy

pub reset_count-AllWords :
    (pins i : ℕ) (s : IrqEncoders) → AllWords s.counter → AllWords (reset_count pins i s).counter
unfolding reset_count
reset_count-AllWords pins i s h =
    let zeroed = set-AllWords s.counter i 0 h (omega arith) in
    either {A = IrqEncoders} (λ t. AllWords t.counter) (counts s.cfg i) _ _ zeroed zeroed

module _ (c : Config) (r : Reads) (p : PcPico) (clean : IsReads r) where
  pub actuate-IsBoard : (b : Board) → IsBoard b → IsBoard (actuate c r p b).0
  unfolding actuate
  actuate-IsBoard b h =
      let fits =
        apply_stepgen_commands-Fits c.dir_invert r.full b.checksum_error p.stepgen_command b.steps
          (h.position, h.overflow) in
      either {A = Board × List PwmCall} (λ x. IsBoard x.0) b.checksum_error _ _ h
        (record {
          rx_counter = h.rx_counter;
          position = fits.0;
          overflow = fits.1;
          counter = h.counter;
          index_reset_flags = h.index_reset_flags;
          tx = h.tx;
        })

  with_irq :
      (b : Board) (irq : IrqEncoders) (done : ℕ)
      → IsBoard b
      → AllWords irq.counter
      → IsBoard (record b { irq = irq; enc_reset_done = done })
  with_irq b irq done h words = record {
    rx_counter = h.rx_counter;
    position = h.position;
    overflow = h.overflow;
    counter = words;
    index_reset_flags = h.index_reset_flags;
    tx = h.tx;
  }

  with_offset :
      (b : Board) (offset : List ℕ) (done : ℕ)
      → IsBoard b
      → IsBoard (record b { pio_enc_offset = offset; enc_reset_done = done })
  with_offset b offset done h = record {
    rx_counter = h.rx_counter;
    position = h.position;
    overflow = h.overflow;
    counter = h.counter;
    index_reset_flags = h.index_reset_flags;
    tx = h.tx;
  }

  reset_encoder-IsBoard : (i : ℕ) (b : Board) → IsBoard b → IsBoard (reset_encoder c r p i b)
  unfolding reset_encoder
  reset_encoder-IsBoard i b h =
      let done = u8 (set_bit b.enc_reset_done i) in
      let words = reset_count-AllWords (r.reset_pins i) i b.irq h.counter in
      either IsBoard (reset_requested p i) _ _
        (either IsBoard (test_bit b.enc_reset_done i) _ _ h (
          either IsBoard (leb 32 (encoder_at c.encoder_config i).base_pin) _ _
            (with_irq b (reset_count (r.reset_pins i) i b.irq) done h words)
            (with_offset b (set b.pio_enc_offset i (r.reset_count_pio i)) done h)))
        (with_offset b b.pio_enc_offset (clear_bit b.enc_reset_done i) h)

  report_lt : (i : ℕ) (b : Board) → IsBoard b → encoder_report c r i b < word
  unfolding encoder_report read_count
  report_lt i b h =
      let small = word_at b.irq.counter i h.counter in
      either (λ n. n < word) (test_bit b.enc_reset_done i) _ _ (omega arith)
        (either (λ n. n < word) (is_irq (encoder_at c.encoder_config i)) _ _ small (omega arith))

  update_encoder-IsBoard : (i : ℕ) (b : Board) → IsBoard b → IsBoard (update_encoder c r p i b)
  unfolding update_encoder
  update_encoder-IsBoard i b h =
      let g = reset_encoder-IsBoard i b h in
      let b1 = reset_encoder c r p i b in
      record {
        rx_counter = g.rx_counter;
        position = g.position;
        overflow = g.overflow;
        counter = g.counter;
        index_reset_flags = g.index_reset_flags;
        tx = record {
          encoder_counter =
              set-Words 2 b1.tx.encoder_counter i _ g.tx.encoder_counter (report_lt i b1 g);
          encoder_velocity =
              set-Words 2 b1.tx.encoder_velocity i 0 g.tx.encoder_velocity (omega arith);
          encoder_timestamp =
              set-Words 2 b1.tx.encoder_timestamp i _ g.tx.encoder_timestamp (clean.timestamp i);
          interrupt_data = g.tx.interrupt_data;
          stepgen_position = g.tx.stepgen_position;
          stepgen_overflow = g.tx.stepgen_overflow;
          inputs = g.tx.inputs;
          jitter = g.tx.jitter;
          step_ring_fill = g.tx.step_ring_fill;
          step_ring_status = g.tx.step_ring_status;
          packet_id = g.tx.packet_id;
          checksum = g.tx.checksum;
        };
      }

  pub update_encoders-IsBoard :
      (n i : ℕ) (b : Board) → IsBoard b → IsBoard (update_encoders c r p n i b)
  unfolding update_encoders
  update_encoders-IsBoard zero i b h = h
  update_encoders-IsBoard (suc n) i b h =
      update_encoders-IsBoard n (i + 1) _ (update_encoder-IsBoard i b h)
