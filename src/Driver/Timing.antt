-- ===== src/Driver/Timing.antt =====
-- hal-driver/flexi-ninja.c, `nearest` and the table `timing` of `udp_io_process_send`: from a pulse
-- width to the entry of `pio_settings`, and from a number of steps to the command word.
pub mod Nearest
pub mod Commands
use flexi_ninja.Prelude.{ℕ, zero, suc, Bool, not, bit_or, ltb, leb, u32, ◌+◌, ◌-◌, ◌*◌, ◌/◌, ◌%◌}
use flexi_ninja.Prelude.{◌&&◌, if◌then◌else◌, ◌<<<◌}
use flexi_ninja.PioSettings.{high_cycles, pio_settings_count}
use flexi_ninja.Driver.Arith.{Arith}
use flexi_ninja.Prelude.Int.{pos}

-- `abs(a - b)`
abbrev pub distance : ℕ → ℕ → ℕ
distance a b = if ltb a b then b - a else a - b

-- The loop at entry `i`, with `n` of them left. `value` is at most 800 there, so the int16 `calc`
-- holds each distance.
unfoldable pub scan : ℕ → ℕ → ℕ → ℕ → ℕ → ℕ
scan value zero i min_diff index = index
scan value (suc n) i min_diff index =
    let calc = distance (high_cycles i) value in
    let closer = ltb calc min_diff in
    scan value n (i + 1) (if closer then calc else min_diff) (if closer then i else index)

-- `nearest`, once the period is in clock cycles.
unfoldable pub nearest_cycles : ℕ → ℕ
nearest_cycles value =
    if ltb value (high_cycles 0)
    then 0
    else if ltb (high_cycles (pio_settings_count - 1)) value
    then pio_settings_count - 1
    else scan value pio_settings_count 0 65535 0

-- `dormant_cycles`
abbrev pub dormant_cycles : ℕ
dormant_cycles = 6

-- `total_cycles`, at a period in nanoseconds
unfoldable pub total_cycles : ℕ → ℕ → ℕ
total_cycles pico_clock period = u32 (period * (pico_clock / 1000) / 1000000)

module _ (ar : Arith) where
  open ar use {F, of_int, lit, f32, add, sub, mul, div, lt, to_u32, to_u16}

  -- `cycle_time_ns = 1.0f / pico_clock * 1000000000.0f`
  unfoldable pub cycle_time_ns : ℕ → F
  cycle_time_ns pico_clock =
      f32 (mul (f32 (div (lit 1 1) (f32 (of_int (pos pico_clock))))) (lit 1000000000 1))

  unfoldable pub nearest : ℕ → ℕ → ℕ
  nearest pico_clock period =
      nearest_cycles (to_u16 (f32 (div (f32 (of_int (pos period))) (cycle_time_ns pico_clock))))

  -- The low and high times of `i` steps fit the servo period.
  unfoldable pub fits : ℕ → ℕ → ℕ → Bool
  fits total high i =
      let per_step = f32 (of_int (pos (total / i))) in
      let h = f32 (of_int (pos high)) in
      not (lt per_step (f32 (add (f32 (mul (lit 2 1) h)) (f32 (of_int (pos dormant_cycles))))))

  -- The command word for `i` steps: the cycles left for each step's low time, and the steps.
  unfoldable pub pio_cmd : ℕ → ℕ → ℕ → ℕ
  pio_cmd total high i =
      let per_step = f32 (of_int (pos (total / i))) in
      let h = f32 (of_int (pos high)) in
      let step_counter =
        to_u32 (f32 (sub (f32 (sub per_step h)) (f32 (of_int (pos dormant_cycles))))) in
      u32 (bit_or ((step_counter % 1048576) <<< 12) i)

  -- `timing[i]`, of 1024 entries; entry 0 is never written.
  unfoldable pub timing : ℕ → ℕ → ℕ → ℕ
  timing total high i =
      if leb 1 i && ltb i 1024 && fits total high i then pio_cmd total high i else 0

  -- `max_steps_per_cycle`, after the entries `[1, n]`
  unfoldable pub max_steps : ℕ → ℕ → ℕ → ℕ
  max_steps total high zero = 0
  max_steps total high (suc n) =
      let fewer = max_steps total high n in if fits total high (suc n) then suc n else fewer
