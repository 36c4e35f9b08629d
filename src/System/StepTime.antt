-- ===== src/System/StepTime.antt =====
-- hal-driver/flexi-ninja.c, the table `timing`, against firmware/pio/freq_generator.pio: the steps
-- that the driver packs for a servo period, and the cycles that the PIO program takes for them.
pub mod Budget
use flexi_ninja.Prelude.{ℕ, true, not, arith, bit_or, u32, bit_or_sum, ◌+◌, ◌-◌, ◌*◌, ◌/◌, ◌%◌}
use flexi_ninja.Prelude.{◌≤◌, ◌<◌, ◌≡◌, ◌<<<◌}
use native.Mathlib.Nat.{div-le_self, div-add-mod, mod-lt}
use flexi_ninja.Prelude.Int.{pos, ◌+ℤ◌, ◌-ℤ◌, ltb_ℤ}
use flexi_ninja.Driver.Arith.{Arith, IsExact}
use flexi_ninja.Driver.Timing.{timing, fits, pio_cmd}
use flexi_ninja.Driver.Timing.Commands.{command_word, command_word_sum}
use flexi_ninja.Firmware.StepProgram.Command.{word_low, word_changed}

pos_sub : (a b : ℕ) → b ≤ a → pos a -ℤ pos b ≡ pos (a - b)
unfolding ◌-ℤ◌
pos_sub a b h = ground arith

pos_add : (a b : ℕ) → pos a +ℤ pos b ≡ pos (a + b)
unfolding ◌+ℤ◌
pos_add a b = ground arith

not_lt : (a b : ℕ) → not (ltb_ℤ (pos a) (pos b)) ≡ true → b ≤ a
not_lt a b h = ground arith

per_step_small : (total i : ℕ) → 0 < i → total < 1048576 → total / i < 1048576
per_step_small total i hi h = omega (arith, div-le_self total i)

-- `n` steps, each a cycle longer than its share of the period, are longer than the period.
pub shares_overrun : (total n : ℕ) → 0 < n → total < n * (total / n + 1)
shares_overrun total n h = omega (arith, div-add-mod total n, mod-lt total h)

low_packed :
    (n i : ℕ) → i < 1024 → n < 1048576 → u32 (bit_or ((n % 1048576) <<< 12) i) ≡ n * 4096 + i
low_packed n i hi hn =
    let small : n % 1048576 ≡ n = omega arith in
    rw (small, bit_or_sum 12 n i (omega arith)) (omega arith)

module _ (ar : Arith) (ex : IsExact ar) (total high i : ℕ) where
  open ar use {of_int, f32, mul, add, sub, lit, lt, to_u32}

  -- The computations of floats in the table are exact.
  fits_room :
      0 < i
      → total < 1048576
      → high < 1048576
      → fits ar total high i ≡ true
      → 2 * high + 6 ≤ total / i
  unfolding fits
  fits_room hi ht hh fit =
      let q = total / i in
      let hq : q < 1048576 = per_step_small total i hi ht in
      not_lt q (2 * high + 6) (
        rw
          (
            ex.f32_exact (pos q) (omega arith),
            ex.f32_exact (pos high) (omega arith),
            ex.f32_exact (pos 6) (omega arith),
            ex.lit_exact 2 (omega arith),
            ex.mul_exact 2 high (omega arith),
            ex.f32_exact (pos (2 * high)) (omega arith),
            ex.add_exact (pos (2 * high)) (pos 6) (omega arith) (omega arith),
            pos_add (2 * high) 6,
            ex.f32_exact (pos (2 * high + 6)) (omega arith),
            ex.lt_exact (pos q) (pos (2 * high + 6)) (omega arith) (omega arith),
          )
          at fit)

  pio_cmd_exact :
      0 < i
      → i < 1024
      → total < 1048576
      → high < 1048576
      → 2 * high + 6 ≤ total / i
      → pio_cmd ar total high i ≡ (total / i - high - 6) * 4096 + i
  unfolding pio_cmd
  pio_cmd_exact hi hs ht hh room =
      let q = total / i in
      let hq : q < 1048576 = per_step_small total i hi ht in
      rw
        (
          ex.f32_exact (pos q) (omega arith),
          ex.f32_exact (pos high) (omega arith),
          ex.f32_exact (pos 6) (omega arith),
          ex.sub_exact (pos q) (pos high) (omega arith) (omega arith),
          pos_sub q high (omega arith),
          ex.f32_exact (pos (q - high)) (omega arith),
          ex.sub_exact (pos (q - high)) (pos 6) (omega arith) (omega arith),
          pos_sub (q - high) 6 (omega arith),
          ex.f32_exact (pos (q - high - 6)) (omega arith),
          ex.to_u32_exact (q - high - 6) (omega arith),
        )
        (low_packed (q - high - 6) i hs (omega arith))

  -- The word's delay leaves a step as much of the period as its share, and the direction bits.
  pub command_word_low :
      (d s : ℕ)
      → 0 < i
      → i < 1024
      → total < 1048576
      → high < 1048576
      → fits ar total high i ≡ true
      → d < 2
      → s < 2
      → let w = command_word (timing ar total high i) d s in
        (word_low w ≡ total / i - high - 6) × (word_changed w ≡ d) × (2 * high + 6 ≤ total / i)
  unfolding timing
  command_word_low d s hi hs ht hh fit hd hsg =
      let room = fits_room hi ht hh fit in
      let cmd = pio_cmd_exact hi hs ht hh room in
      let low = total / i - high - 6 in
      let entry : timing ar total high i ≡ low * 4096 + i = ground (arith, cmd) in
      let sum = command_word_sum (low * 4096 + i) d s (omega arith) hd hsg in
      rw (entry, sum) (omega arith, omega arith, room)
