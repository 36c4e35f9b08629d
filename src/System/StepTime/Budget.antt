-- ===== src/System/StepTime/Budget.antt =====
-- A servo period's steps on the pins of the board.
use flexi_ninja.Prelude.{ℕ, refl, sym, ap, true, List, arith, from_bool, ◌+◌, ◌-◌, ◌*◌, ◌/◌, ◌≤◌}
use flexi_ninja.Prelude.{◌<◌, ◌≡◌, ◌∙◌, ◌∷◌, ◌==◌}
use flexi_ninja.PioSettings.{high_cycles}
use flexi_ninja.PioSettings.Table.{pio_settings_sound}
use flexi_ninja.Driver.Arith.{Arith, IsExact}
use flexi_ninja.Driver.Timing.{timing, fits}
use flexi_ninja.Driver.Timing.Commands.{command_word, command_word_fields}
use flexi_ninja.Firmware.Stepgen.{word_steps, word_dir}
use flexi_ninja.Firmware.StepProgram.{Patch, freq_generator, Event, dir_pin, Machine, run}
use flexi_ninja.Firmware.StepProgram.Run.{high_time, settle, step_time, pulses}
use flexi_ninja.Firmware.StepProgram.Command.{
  word_low, word_changed, word_time, word_trace, run-word,
}
use flexi_ninja.Firmware.PulseLoad.Loaded.{IsEntry}
use flexi_ninja.System.StepTime.{command_word_low, shares_overrun}

same_bit : (s : ℕ) → s < 2 → from_bool (s == 1) ≡ s
same_bit s h = ground arith

step_sum :
    (share high low n a : ℕ)
    → low ≡ share - high - 6
    → high + 6 ≤ share
    → a + n * (high + low + 7) + 8 ≡ a + n * (share + 1) + 8
step_sum share high low n a e h =
    let one : high + low + 7 ≡ share + 1 = omega (arith, e) in ap (λ (t : ℕ). a + n * t + 8) one

-- A word by its fields.
word_time_fields :
    (p : Patch) (w n d low : ℕ)
    → word_steps w ≡ n
    → word_changed w ≡ d
    → word_low w ≡ low
    → word_time p w ≡ settle p d + n * step_time p low + 8
word_time_fields p w n d low en ed el = rw (en, ed, el) refl

word_trace_fields :
    (p : Patch) (w n d s low c : ℕ) (trace : List Event)
    → word_steps w ≡ n
    → word_changed w ≡ d
    → word_low w ≡ low
    → from_bool (word_dir w) ≡ s
    → word_trace p w c trace ≡ pulses p low n (c + 6 + settle p d) (dir_pin (c + 3) s ∷ trace)
word_trace_fields p w n d s low c trace en ed el es = rw (es, en, ed, el) refl

IsEntry-high_time : (j : ℕ) (p : Patch) → IsEntry j p → high_time p ≡ high_cycles j
IsEntry-high_time j p e = rw (e.sety_is, e.nop_is) (sym (pio_settings_sound j e.in_table).2)

-- The driver's word for `n` steps, with entry `j` of the table.
abbrev pub steps_word : Arith → ℕ → ℕ → ℕ → ℕ → ℕ → ℕ
steps_word ar j total n d s = command_word (timing ar total (high_cycles j) n) d s

-- What is left of a step's share of the period.
abbrev pub low_part : ℕ → ℕ → ℕ → ℕ
low_part j total n = total / n - high_cycles j - 6

module _ (ar : Arith) (ex : IsExact ar) (j : ℕ) (p : Patch) (entry : IsEntry j p) (total n d s : ℕ)
    (some_steps : 0 < n) (few_steps : n < 1024) (short_period : total < 1048576)
    (fit : fits ar total (high_cycles j) n ≡ true) (is_flag : d < 2) (is_sign : s < 2) where
  steps_word_low :
      (word_low (steps_word ar j total n d s) ≡ (low_part j total n))
      × (word_changed (steps_word ar j total n d s) ≡ d)
      × (2 * high_cycles j + 6 ≤ total / n)
  steps_word_low =
      let sound = pio_settings_sound j entry.in_table in
      command_word_low ar ex total (high_cycles j) n d s some_steps few_steps short_period
        (omega (arith, sound.4)) fit is_flag is_sign

  steps_word_fields :
      (word_steps (steps_word ar j total n d s) ≡ n)
      × (word_dir (steps_word ar j total n d s) ≡ (s == 1))
  steps_word_fields =
      command_word_fields ar total (high_cycles j) n d s some_steps few_steps fit is_flag is_sign

  steps_word_time : word_time p (steps_word ar j total n d s) ≡ settle p d + n * (total / n + 1) + 8
  steps_word_time =
      word_time_fields p (steps_word ar j total n d s) n d (low_part j total n) steps_word_fields.0
        steps_word_low.1 steps_word_low.0
      ∙ ap (λ (h : ℕ). settle p d + n * (h + (low_part j total n) + 7) + 8)
          (IsEntry-high_time j p entry)
      ∙ step_sum (total / n) (high_cycles j) (low_part j total n) n (settle p d) refl
          (omega (arith, steps_word_low.2))

  -- A period's steps on the pins: of the word that the driver packs for `n` steps that fit the servo
  -- period, the step program patched with the same entry of the table makes exactly `n` steps in that
  -- direction, after the wait if the direction changed, and is ready for the next word after
  -- `n * (total / n + 1) + 8` cycles and the wait.
  pub run-steps_word :
      (m : Machine) (fifo : List ℕ)
      → m.pc ≡ 1
      → m.fifo ≡ (steps_word ar j total n d s) ∷ fifo
      → (k : ℕ) × (let m' = run k (freq_generator p) m in
          (m'.pc ≡ 1)
          × (m'.fifo ≡ fifo)
          × (m'.cycles ≡ m.cycles + (settle p d + n * (total / n + 1) + 8))
          × (m'.trace
              ≡ pulses p
                  (low_part j total n)
                  n
                  (m.cycles + 6 + settle p d)
                  (dir_pin (m.cycles + 3) s ∷ m.trace)))
  run-steps_word m fifo at_pull filled =
      let (k, (back, taken, time, pins)) =
        run-word p m (steps_word ar j total n d s) fifo at_pull filled in
      (
        k,
        (
          back,
          taken,
          time ∙ ap (λ (t : ℕ). m.cycles + t) steps_word_time,
          pins
              ∙ word_trace_fields p (steps_word ar j total n d s) n d s (low_part j total n)
                  m.cycles m.trace steps_word_fields.0 steps_word_low.1 steps_word_low.0
                  (ap from_bool steps_word_fields.1 ∙ same_bit s is_sign),
        ),
      )

  -- The steps of a period never fit it: for every number of steps, 1 or more, that the driver takes to
  -- fit, the step program runs on its word to the last of the pulses and is back at the pull, and by
  -- then more cycles have gone by than the servo period has that the word was made for.
  pub steps_word_overruns :
      (m : Machine) (fifo : List ℕ)
      → m.pc ≡ 1
      → m.fifo ≡ (steps_word ar j total n d s) ∷ fifo
      → (k : ℕ) × (let m' = run k (freq_generator p) m in
          (m'.pc ≡ 1)
          × (m'.fifo ≡ fifo)
          × (m'.trace
              ≡ pulses p
                  (low_part j total n)
                  n
                  (m.cycles + 6 + settle p d)
                  (dir_pin (m.cycles + 3) s ∷ m.trace))
          × (m.cycles + total < m'.cycles))
  steps_word_overruns m fifo at_pull filled =
      let (k, (back, taken, time, pins)) = run-steps_word m fifo at_pull filled in
      (k, (back, taken, pins, omega (arith, time, shares_overrun total n some_steps)))
