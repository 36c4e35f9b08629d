-- ===== src/Firmware/Boot/Machines.antt =====
-- Which state machines the stepgens and the encoder get.
use flexi_ninja.Prelude.{ℕ, zero, suc, refl, Bool, true, Option, none, some, List, [], map, arith}
use flexi_ninja.Prelude.{leb, length, ◌+◌, ◌/◌, ◌%◌, ◌≤◌, ◌≡◌, ◌∷◌}
use flexi_ninja.Firmware.IrqEncoder.{EncoderPin}
use flexi_ninja.Firmware.PioUtils.{initial, get_next_pio, scan_block, scan_sm}
use flexi_ninja.Firmware.Boot.Pins.{BootCall}
use flexi_ninja.Firmware.Boot.{
  PioDef, PioBoot, EncoderBoot, StepgenPin, init_stepgens, start_stepgens, use_machine,
  init_encoders, start_encoders, start_encoder, use_counter,
}

abbrev pub machine : PioDef → ℕ × ℕ
machine d = (d.pio_blk, d.sm)

-- The machines of stepgens `i` to `i + n - 1`: four in a block.
abbrev pub four_each : ℕ → ℕ → List (ℕ × ℕ)
four_each zero i = []
four_each (suc n) i = (i / 4, i % 4) ∷ four_each n (i + 1)

-- Both parts of the start: the machines of the stepgens, those of the encoders, and the counts that
-- the encoders start from.
abbrev pub with_encoders :
    Option (EncoderBoot × List BootCall)
    → List PioDef
    → Option (List (ℕ × ℕ) × List (Option (ℕ × ℕ)) × List ℕ)
with_encoders none stepgens = none
with_encoders (some (et, calls)) stepgens =
    some (map machine stepgens, et.encoder_pio, et.pio_enc_offset)

abbrev pub then_encoders :
    (ℕ → Bool)
    → (ℕ → ℕ)
    → List EncoderPin
    → Option (PioBoot × List BootCall)
    → Option (List (ℕ × ℕ) × List (Option (ℕ × ℕ)) × List ℕ)
then_encoders can_add count pins none = none
then_encoders can_add count pins (some (st, calls)) =
    with_encoders (init_encoders can_add count pins st.alloc) st.stepgen_pio

module _ (add : ℕ → Option ℕ) (can_add : ℕ → Bool) (count : ℕ → ℕ) (e0 e1 : EncoderPin) where
  -- With at most eight stepgens and a second encoder on high pins, the start succeeds whatever the
  -- loading of the programs returns: four stepgens share a block, no two have the same machine, the
  -- first encoder gets the first machine of a block of its own and starts at its count, and the
  -- second none.
  pub init_stepgens-init_encoders :
      (pins : List StepgenPin)
      → length pins ≤ 8
      → leb 32 e1.base_pin ≡ true
      → then_encoders can_add count (e0 ∷ e1 ∷ []) (init_stepgens add pins)
        ≡ some (
          four_each (length pins) 0,
          some ((length pins + 3) / 4, 0) ∷ none ∷ [],
          count 0 ∷ 0 ∷ [],
        )
  unfolding init_stepgens start_stepgens use_machine init_encoders start_encoders start_encoder
      use_counter get_next_pio scan_block scan_sm initial
  init_stepgens-init_encoders [] few high = rw high refl
  init_stepgens-init_encoders (p0 ∷ []) few high = rw high refl
  init_stepgens-init_encoders (p0 ∷ p1 ∷ []) few high = rw high refl
  init_stepgens-init_encoders (p0 ∷ p1 ∷ p2 ∷ []) few high = rw high refl
  init_stepgens-init_encoders (p0 ∷ p1 ∷ p2 ∷ p3 ∷ []) few high = rw high refl
  init_stepgens-init_encoders (p0 ∷ p1 ∷ p2 ∷ p3 ∷ p4 ∷ []) few high = rw high refl
  init_stepgens-init_encoders (p0 ∷ p1 ∷ p2 ∷ p3 ∷ p4 ∷ p5 ∷ []) few high = rw high refl
  init_stepgens-init_encoders (p0 ∷ p1 ∷ p2 ∷ p3 ∷ p4 ∷ p5 ∷ p6 ∷ []) few high = rw high refl
  init_stepgens-init_encoders (p0 ∷ p1 ∷ p2 ∷ p3 ∷ p4 ∷ p5 ∷ p6 ∷ p7 ∷ []) few high = rw high refl
  init_stepgens-init_encoders (p0 ∷ p1 ∷ p2 ∷ p3 ∷ p4 ∷ p5 ∷ p6 ∷ p7 ∷ p8 ∷ pins) few high =
      absurd (omega (arith, few))
