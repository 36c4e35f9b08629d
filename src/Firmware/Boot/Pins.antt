-- ===== src/Firmware/Boot/Pins.antt =====
-- firmware/src/main.c, `main`, and `ninja_pwm_init` of pwm.c: the pins of the board at its start,
-- and what is called of the SDK, in order.
use flexi_ninja.Prelude.{ℕ, Bool, true, false, List, [], ◌∷◌, ◌++◌, ◌==◌, if◌then◌else◌}
use flexi_ninja.Firmware.HandleData.{OutputPin, pin_null}

pub data BootCall : Type 0 where
  gpio_init : ℕ → BootCall
  gpio_set_dir : ℕ → Bool → BootCall
  gpio_put : ℕ → ℕ → BootCall
  gpio_invert : ℕ → BootCall
  gpio_set_pulls : ℕ → Bool → Bool → BootCall
  pwm_function : ℕ → BootCall
  pwm_slice : ℕ → ℕ → BootCall
  add_program : ℕ → ℕ → BootCall
  pio_gpio_init : ℕ → ℕ → BootCall
  pio_output : ℕ → ℕ → ℕ → BootCall
  sm_start : ℕ → ℕ → ℕ → BootCall
  encoder_start : ℕ → ℕ → ℕ → BootCall

unfoldable pub init_outputs : List OutputPin → List BootCall
init_outputs [] = []
init_outputs (pin ∷ pins) =
    let rest = init_outputs pins in
    let inverted = if pin.invert then gpio_invert pin.gpio ∷ [] else [] in
    if pin.gpio == pin_null
    then rest
    else gpio_init pin.gpio
      ∷ gpio_set_dir pin.gpio true
      ∷ (inverted ++ (gpio_put pin.gpio 0 ∷ rest))

-- `GpioPin`, with `pullup` an int8 bit pattern.
pub record InputPin : Type 0 where
  pub gpio : ℕ
  pub pullup : ℕ

unfoldable pub pulls : InputPin → List BootCall
pulls pin =
    if pin.pullup == 255
    then gpio_set_pulls pin.gpio false true ∷ []
    else if pin.pullup == 1
    then gpio_set_pulls pin.gpio true false ∷ []
    else []

unfoldable pub init_inputs : List InputPin → List BootCall
init_inputs [] = []
init_inputs (pin ∷ pins) =
    gpio_init pin.gpio ∷ gpio_set_dir pin.gpio false ∷ (pulls pin ++ init_inputs pins)

-- `slice` is `pwm_gpio_to_slice_num`.
unfoldable pub ninja_pwm_init : (ℕ → ℕ) → ℕ → List BootCall
ninja_pwm_init slice pin = pwm_function pin ∷ pwm_slice (slice pin) 2048 ∷ []

unfoldable pub init_pwm : (ℕ → ℕ) → List OutputPin → List BootCall
init_pwm slice [] = []
init_pwm slice (pin ∷ pins) =
    let inverted = if pin.invert then gpio_invert pin.gpio ∷ [] else [] in
    ninja_pwm_init slice pin.gpio ++ (inverted ++ init_pwm slice pins)
