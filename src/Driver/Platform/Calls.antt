-- ===== src/Driver/Platform/Calls.antt =====
-- The calls of the driver and the pins after them.
use flexi_ninja.Prelude.{ℕ, refl, inl, inr, Bool, true, false, not, Option, none, some, List, []}
use flexi_ninja.Prelude.{arith, Bool-cases, ◌≡◌, ◌⊎◌, ◌&&◌, ◌||◌, ◌∷◌, ◌++◌, ◌==◌, if◌then◌else◌}
use flexi_ninja.Driver.Platform.{
  Library, Call, Platform, init, init_calls, begin_bus, set_up, init_spi, rt_peripheral_init,
  library, send_calls, reset_pin, int_pin, bcm2835, rp1lib, pin_output, pin_clear, pin_set,
  delay_ms, usleep, spi_begin, spi_bit_order, spi_data_mode, spi_clock, spi_chip_select,
  spi_polarity, transfer, spi_end, close,
}

-- The library that a call belongs to, if it does.
abbrev pub of_call : Call → Option Library
of_call (init l) = some l
of_call (pin_output l pin) = some l
of_call (pin_clear l pin) = some l
of_call (pin_set l pin) = some l
of_call (delay_ms n) = some bcm2835
of_call (usleep n) = none
of_call (spi_begin l six) = some l
of_call (spi_bit_order six) = some bcm2835
of_call (spi_data_mode six) = some bcm2835
of_call (spi_clock six) = some bcm2835
of_call (spi_chip_select six cs) = some bcm2835
of_call (spi_polarity six cs) = some bcm2835
of_call (transfer l six n) = some l
of_call (spi_end six) = some bcm2835
of_call (close l) = some l

abbrev pub same_library : Library → Library → Bool
same_library bcm2835 bcm2835 = true
same_library rp1lib rp1lib = true
same_library bcm2835 rp1lib = false
same_library rp1lib bcm2835 = false

abbrev pub stays : Library → Option Library → Bool
stays l none = true
stays l (some m) = same_library l m

-- The initialiser of bcm2835.c and its delays, which every platform uses.
abbrev pub is_common : Call → Bool
is_common (init bcm2835) = true
is_common (delay_ms n) = true
is_common call = false

-- Every other call is of the library.
abbrev pub all_stay : Library → List Call → Bool
all_stay l [] = true
all_stay l (call ∷ calls) = (is_common call || stays l (of_call call)) && all_stay l calls

-- The library of a call was initialised; `b` says that bcm2835.c was, `r` that rp1lib.c was.
abbrev pub is_ready : Bool → Bool → Option Library → Bool
is_ready b r none = true
is_ready b r (some bcm2835) = b
is_ready b r (some rp1lib) = r

-- No library is used before its initialiser.
abbrev pub all_ready : Bool → Bool → List Call → Bool
all_ready b r [] = true
all_ready b r (init bcm2835 ∷ calls) = all_ready true r calls
all_ready b r (init rp1lib ∷ calls) = all_ready b true calls
all_ready b r (call ∷ calls) = is_ready b r (of_call call) && all_ready b r calls

abbrev pub after_call : ℕ → Option Bool → Call → Option Bool
after_call pin now (pin_clear l p) = if p == pin then some false else now
after_call pin now (pin_set l p) = if p == pin then some true else now
after_call pin now call = now

-- The level that a pin was last set to by the calls, if it was.
abbrev pub level_after : ℕ → Option Bool → List Call → Option Bool
level_after pin now [] = now
level_after pin now (call ∷ calls) = level_after pin (after_call pin now call) calls

-- Both pins high at the end, no library used before its initialiser, and, but for the initialiser
-- and the delays of bcm2835.c, only the calls of one library.
abbrev pub IsUp : Library → List Call → Type 0
IsUp l calls =
    (all_stay l calls ≡ true)
    × (all_ready false false calls ≡ true)
    × (level_after reset_pin none calls ≡ some true)
    × (level_after int_pin none calls ≡ some true)

set_up-IsUp : (l : Library) (six : Bool) → IsUp l (init_calls l ++ set_up l six)
unfolding set_up begin_bus
set_up-IsUp rp1lib six = (refl, refl, refl, refl)
set_up-IsUp bcm2835 true = (refl, refl, refl, refl)
set_up-IsUp bcm2835 false = (refl, refl, refl, refl)

-- Whatever the platform file says and whichever bus is chosen: if an initialiser that is needed
-- fails, nothing but the initialisers up to it is called; otherwise no library is used before its
-- initialiser, every call but the initialiser and the delays of bcm2835.c is of the library of the
-- platform that was detected, and at the end the board is out of its reset and the interrupt line
-- is idle.
pub init_spi_lem :
    (bcm_ok rp1_ok : Bool) (file : Option (ℕ × (ℕ → ℕ))) (spi_bus : ℕ) (p : Platform)
    → let q = rt_peripheral_init file p in
      let (q', calls) = init_spi bcm_ok rp1_ok file spi_bus p in
      (((bcm_ok && (not q.rp1 || rp1_ok)) ≡ false)
        × (calls ≡ (if bcm_ok then init bcm2835 ∷ init rp1lib ∷ [] else init bcm2835 ∷ [])))
      ⊎ ((q' ≡ q) × IsUp (library q) calls)
unfolding init_spi
init_spi_lem false rp1_ok file spi_bus p = inl (refl, refl)
init_spi_lem true rp1_ok file spi_bus p =
    let q = rt_peripheral_init file p in
    elim (Bool-cases (q.rp1 && not rp1_ok)) [
      | inl failed ↦ rw failed (inl (ground (arith, failed), refl))
      | inr fine ↦ rw fine (inr (refl, set_up-IsUp (library q) (spi_bus == 6)))
    ]

-- An exchange.
send_calls-IsUp :
    (p : Platform) (spi_bus : ℕ)
    → (all_stay (library p) (send_calls p spi_bus) ≡ true)
      × (level_after int_pin none (send_calls p spi_bus) ≡ some true)
unfolding send_calls
send_calls-IsUp p spi_bus = elim (Bool-cases p.rp1) [
  | inl e ↦ rw e (refl, refl)
  | inr e ↦ rw e (refl, refl)
]
