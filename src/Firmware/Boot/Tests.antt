-- ===== src/Firmware/Boot/Tests.antt =====
-- The start of BOARD_FLEXI_2350, whose six stepgens have the pins 12 to 23.
use flexi_ninja.Prelude.{ℕ, refl, true, false, none, some, List, [], arith, ◌+◌, ◌≡◌, ◌∷◌}
use flexi_ninja.Firmware.IrqEncoder.{EncoderPin}
use flexi_ninja.Firmware.Boot.{StepgenPin, init_stepgens}
use flexi_ninja.Firmware.Boot.Machines.{four_each, then_encoders, init_stepgens-init_encoders}

abbrev first_encoder : EncoderPin
first_encoder = record { base_pin = 9; index_pin = 11; index_active_level = 1 }

abbrev second_encoder : EncoderPin
second_encoder = record { base_pin = 46; index_pin = 45; index_active_level = 1 }

abbrev pair : ℕ → StepgenPin
pair pin = record { step_pin = pin; dir_pin = pin + 1; invert = false }

abbrev six : List StepgenPin
six = pair 12 ∷ pair 14 ∷ pair 16 ∷ pair 18 ∷ pair 20 ∷ pair 22 ∷ []

init_stepgens-init_encoders_example :
    then_encoders
      (λ k. true)
      (λ i. 7)
      (first_encoder ∷ second_encoder ∷ [])
      (init_stepgens (λ k. some 0) six)
    ≡ some (four_each 6 0, some (2, 0) ∷ none ∷ [], 7 ∷ 0 ∷ [])
init_stepgens-init_encoders_example =
    init_stepgens-init_encoders (λ k. some 0) (λ k. true) (λ i. 7) first_encoder second_encoder six
      (omega arith) refl
