-- ===== src/PioSettings/Table.antt =====
-- What holds of every entry, checked entry by entry.
use flexi_ninja.Prelude.{ℕ, refl, Bool, true, arith, ltb, leb, length, every_below}
use flexi_ninja.Prelude.{every_below_apply, ◌+◌, ◌*◌, ◌≤◌, ◌<◌, ◌≡◌, ◌&&◌, ◌==◌}
use flexi_ninja.PioSettings.{pio_settings, pio_settings_count, sety, nop, high_cycles}

abbrev is_sound : ℕ → Bool
is_sound i =
    ltb (sety i) 32
    && (ltb (nop i) 32
        && (high_cycles i == (sety i + 1) * (nop i + 2)
            && (leb 12 (high_cycles i) && leb (high_cycles i) 800)))

sound_table : every_below pio_settings_count is_sound ≡ true
unfolding every_below pio_settings
sound_table = refl

-- Every entry fits the 5-bit fields of the PIO instructions, so that the masks of the board cut
-- nothing off; its cycles are those of `sety + 1` rounds of `nop + 2`; and the first and the last
-- entry bound them all.
pub pio_settings_sound :
    (i : ℕ)
    → i < 299
    → (sety i < 32)
      × (nop i < 32)
      × (high_cycles i ≡ (sety i + 1) * (nop i + 2))
      × (12 ≤ high_cycles i)
      × (high_cycles i ≤ 800)
pio_settings_sound i h = ground (arith, every_below_apply 299 is_sound i sound_table h)

length_table : length pio_settings ≡ 299
unfolding pio_settings
length_table = refl

pub length-pio_settings : length pio_settings ≡ 299
length-pio_settings = length_table

pub high_cycles_ends : (high_cycles 0 ≡ 12) × (high_cycles 298 ≡ 800)
unfolding pio_settings
high_cycles_ends = (refl, refl)
