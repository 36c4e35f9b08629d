-- ===== src/Driver/Setup/Tests.antt =====
-- The set-up of the driver on a Raspberry Pi 5, and a set-up in which a pin cannot be exported.
use flexi_ninja.Prelude.{ℕ, true, false, not, some, [], ◌≡◌, ◌⊎◌, ◌&&◌, ◌||◌, ◌∷◌, ◌==◌}
use flexi_ninja.Prelude.{if◌then◌else◌}
use flexi_ninja.Prelude.Int.{pos, negsuc, ltb_ℤ}
use flexi_ninja.Driver.Platform.{
  bcm2835, rp1lib, init, init_spi, rt_peripheral_init, initial, library,
}
use flexi_ninja.Driver.Platform.Calls.{IsUp, init_spi_lem}
use flexi_ninja.Driver.Setup.{Names, rtapi_app_main}
use flexi_ninja.Driver.Setup.Load.{Whole, rtapi_app_main_lem}

-- `base_address` is not that of a Pi 4 and `peri_size` is that of RP1.
abbrev ranges : ℕ → ℕ
ranges i = if i == 4 then 16 else if i == 8 then 0x7c else 0

init_spi_lem_example :
    let q = rt_peripheral_init (some (16, ranges)) initial in
    let (q', calls) = init_spi true true (some (16, ranges)) 6 initial in
    (((true && (not q.rp1 || true)) ≡ false)
      × (calls ≡ (if true then init bcm2835 ∷ init rp1lib ∷ [] else init bcm2835 ∷ [])))
    ⊎ ((q' ≡ q) × IsUp (library q) calls)
init_spi_lem_example = init_spi_lem true true (some (16, ranges)) 6 initial

abbrev names : Names
names = record {
  inputs = "HALT" ∷ "DOOR" ∷ [];
  outputs = (255, "") ∷ [];
  ex_inputs = "X_ALM" ∷ [];
  ex_outputs = "X_EN" ∷ [];
  pwm = "SPINDLE_PWM";
  encoder_names = "ENC1" ∷ "ENC2" ∷ [];
}

rtapi_app_main_lem_example :
    let x =
      rtapi_app_main true true true (pos 4) (λ k. if k == 20 then negsuc 21 else pos 0) names in
    Whole (λ k. if k == 20 then negsuc 21 else pos 0) names x
    ⊎ ((ltb_ℤ x.result (pos 0) ≡ true)
        × (x.hal_exits
            ≡ (if true && (true && (true && not (ltb_ℤ (pos 4) (pos 0)))) then 1 else 0)))
rtapi_app_main_lem_example =
    rtapi_app_main_lem true true true (pos 4) (λ k. if k == 20 then negsuc 21 else pos 0) names
