-- ===== src/Firmware/Pwm.antt =====
-- firmware/src/pwm.c: the wrap value of a PWM frequency. `pico_clock` is the board's system clock.
-- The SDK is outside: what a function does to the hardware is the list of its calls.
pub mod Wrap
use flexi_ninja.Prelude.{ℕ, Bool, true, false, List, [], ltb, u16, ◌/◌, ◌∷◌, ◌==◌, if◌then◌else◌}

unfoldable pub pwm_calculate_wrap : ℕ → ℕ → ℕ
pwm_calculate_wrap pico_clock freq =
    let wrap = pico_clock / freq in
    if freq == 0 then 0 else u16 (if ltb 65535 wrap then 65535 else wrap)

pub data PwmCall : Type 0 where
  enabled : ℕ → Bool → PwmCall
  wrap : ℕ → ℕ → PwmCall
  level : ℕ → ℕ → PwmCall

-- `slice` is `pwm_gpio_to_slice_num`.
unfoldable pub set_frequency : ℕ → (ℕ → ℕ) → ℕ → ℕ → List PwmCall
set_frequency pico_clock slice pin frequency =
    let w = pwm_calculate_wrap pico_clock frequency in
    if ltb 0 w
    then enabled (slice pin) false ∷ wrap (slice pin) w ∷ enabled (slice pin) true ∷ []
    else []

unfoldable pub set_duty : ℕ → ℕ → List PwmCall
set_duty pin duty = level pin duty ∷ []
