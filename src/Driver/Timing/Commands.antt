-- ===== src/Driver/Timing/Commands.antt =====
-- The fields of a command word, as the PC packs them and the board takes them apart.
use flexi_ninja.Prelude.{ℕ, zero, suc, true, arith, bit_or, u32, bit_at, bit_or_sum, bit_or-zero}
use flexi_ninja.Prelude.{set_bit-add, ◌+◌, ◌*◌, ◌/◌, ◌%◌, ◌^◌, ◌<◌, ◌≡◌, ◌==◌, ◌<<<◌}
use flexi_ninja.Prelude.Int.{pos}
use flexi_ninja.Driver.Arith.{Arith}
use flexi_ninja.Driver.Timing.{pio_cmd, timing, fits, dormant_cycles}
use flexi_ninja.Firmware.Stepgen.{word_steps, word_dir}

-- `timing[steps] | (dir_changed << 11) | (sign << 10)`
unfoldable pub command_word : ℕ → ℕ → ℕ → ℕ
command_word t dir_changed sign = bit_or (bit_or t (dir_changed <<< 11)) (sign <<< 10)

or_bit : (m k b : ℕ) → b < 2 → bit_at m k ≡ 0 → bit_or m (b * 2 ^ k) ≡ m + b * 2 ^ k
or_bit m k zero hb h = ground (arith, bit_or-zero m)
or_bit m k (suc zero) hb h = let one : 1 * 2 ^ k ≡ 2 ^ k = omega arith in rw one (set_bit-add m k h)
or_bit m k (suc (suc b)) hb h = absurd (omega arith)

-- The fields do not overlap.
pub command_word_sum :
    (t d s : ℕ) → t % 4096 < 1024 → d < 2 → s < 2 → command_word t d s ≡ t + d * 2048 + s * 1024
unfolding command_word
command_word_sum t d s ht hd hs =
    rw (or_bit t 11 d hd (omega arith)) (or_bit (t + d * 2048) 10 s hs (omega arith))

packed_low : (n i : ℕ) → i < 1024 → u32 (bit_or ((n % 1048576) <<< 12) i) % 4096 ≡ i
packed_low n i h = rw (bit_or_sum 12 (n % 1048576) i (omega arith)) (omega arith)

pio_cmd_low : (ar : Arith) (total high i : ℕ) → i < 1024 → pio_cmd ar total high i % 4096 ≡ i
unfolding pio_cmd
pio_cmd_low ar total high i h =
    packed_low
      (to_u32 (
        f32 (
          sub (f32 (sub (f32 (of_int (pos (total / i)))) (f32 (of_int (pos high)))))
            (f32 (of_int (pos dormant_cycles))))))
      i h
  where
    open ar use {of_int, f32, sub, to_u32}

-- A word that the PC packs for up to 1023 steps, of which the pulses fit the period, reads on the
-- board as that many steps in that direction.
pub command_word_fields :
    (ar : Arith) (total high i d s : ℕ)
    → 0 < i
    → i < 1024
    → fits ar total high i ≡ true
    → d < 2
    → s < 2
    → let w = command_word (timing ar total high i) d s in
      (word_steps w ≡ i) × (word_dir w ≡ (s == 1))
unfolding timing
command_word_fields ar total high i d s hp hi fit hd hs =
    let low = pio_cmd_low ar total high i hi in
    let entry : timing ar total high i ≡ pio_cmd ar total high i = ground arith in
    let sum = command_word_sum (pio_cmd ar total high i) d s (omega (arith, low)) hd hs in
    rw (entry, sum) (omega (arith, low), ground (arith, low))
