-- ===== src/Firmware/StepProgram/Command.antt =====
-- What a step word does on the pins, and when.
use flexi_ninja.Prelude.{ℕ, zero, suc, refl, ap, List, arith, bit_at, from_bool, ◌+◌, ◌*◌, ◌/◌}
use flexi_ninja.Prelude.{◌%◌, ◌^◌, ◌≡◌, ◌∙◌, ◌∷◌}
use flexi_ninja.Firmware.Stepgen.{word_steps, word_dir}
use flexi_ninja.Firmware.StepProgram.{
  Patch, freq_generator, Event, dir_pin, Machine, pull, execute, step, run, if_nonzero,
}
use flexi_ninja.Firmware.StepProgram.Run.{
  settle, step_time, pulses, Reaches, join, state, settle_loop, pulse_loop,
}

-- The delay of a word, from bit 12 on, and its bit 11.
abbrev pub word_low : ℕ → ℕ
word_low w = w / 4096

abbrev pub word_changed : ℕ → ℕ
word_changed w = bit_at w 11

module _ (p : Patch) where
  -- The cycles of a word, from `pull block` to `pull block`.
  abbrev pub word_time : ℕ → ℕ
  word_time w = settle p (word_changed w) + word_steps w * step_time p (word_low w) + 8

  -- What a word pulled at cycle `c` does on the pins.
  abbrev pub word_trace : ℕ → ℕ → List Event → List Event
  word_trace w c trace =
      pulses p (word_low w) (word_steps w) (c + 6 + settle p (word_changed w))
        (dir_pin (c + 3) (from_bool (word_dir w)) ∷ trace)

  -- From `pull block` to the test whether the direction changed.
  head :
      (w x y osr : ℕ) (fifo : List ℕ) (trace : List Event) (c t d ch low : ℕ)
      → c + 1 + 0 + 1 + 0 + 1 + 0 ≡ t
      → w / 2 ^ 10 % 2 ^ 1 % 2 ≡ d
      → w / 2 ^ 10 / 2 ^ 1 % 2 ^ 1 ≡ ch
      → w / 2 ^ 10 / 2 ^ 1 / 2 ^ 1 ≡ low
      → Reaches p (state 1 x y osr (w ∷ fifo) trace c) (
          state
            (if_nonzero ch 7 13)
            (w % 2 ^ 10)
            ch
            low
            fifo
            (dir_pin t d ∷ trace)
            (t + 1 + 0 + 1 + 0 + 1 + 0))
  unfolding Reaches run step execute freq_generator pull
  head w x y osr fifo trace c t d ch low et ed ec el = (
    6,
    ap
        (λ (v : ℕ × ℕ × ℕ × ℕ).
          state (if_nonzero v.2 7 13) (w % 2 ^ 10) v.2 v.3 fifo (dir_pin v.0 v.1 ∷ trace)
            (v.0 + 1 + 0 + 1 + 0 + 1 + 0))
        (rw (et, ed, ec, el) refl),
  )

  set_settle :
      (x y osr : ℕ) (fifo : List ℕ) (trace : List Event) (c : ℕ)
      → Reaches p (state 7 x y osr fifo trace c) (state 8 x p.dir_n osr fifo trace (c + 1 + 0))
  unfolding Reaches run step execute freq_generator
  set_settle x y osr fifo trace c = (1, refl)

  -- The wait, if the direction changed.
  wait :
      (ch x osr : ℕ) (fifo : List ℕ) (trace : List Event) (c c' : ℕ)
      → c' ≡ c + settle p ch
      → (y' : ℕ) × Reaches p
          (state (if_nonzero ch 7 13) x ch osr fifo trace c)
          (state 13 x y' osr fifo trace c')
  unfolding Reaches run
  wait zero x osr fifo trace c c' h =
      let e : c ≡ c' = omega (arith, h) in (0, (0, ap (state 13 x 0 osr fifo trace) e))
  wait (suc ch) x osr fifo trace c c' h = (
    4294967295,
    join p (state 7 x (suc ch) osr fifo trace c) (state 8 x p.dir_n osr fifo trace (c + 1 + 0))
        (state 13 x 4294967295 osr fifo trace c') (set_settle x (suc ch) osr fifo trace c)
        (settle_loop p p.dir_n x osr fifo trace (c + 1 + 0) c' (omega (arith, h))),
  )

  run-word_state :
      (w x y osr : ℕ) (fifo : List ℕ) (trace : List Event) (c : ℕ)
      → (y' : ℕ) × Reaches p
          (state 1 x y osr (w ∷ fifo) trace c)
          (state 1 4294967295 y' (word_low w) fifo (word_trace w c trace) (c + word_time w))
  run-word_state w x y osr fifo trace c =
      let ch = word_changed w in
      let low = word_low w in
      let trace1 = dir_pin (c + 3) (from_bool (word_dir w)) ∷ trace in
      let c1 = c + 3 + 1 + 0 + 1 + 0 + 1 + 0 in
      let c2 = c + 6 + settle p ch in
      let start : Reaches p (state 1 x y osr (w ∷ fifo) trace c)
          (state (if_nonzero ch 7 13) (word_steps w) ch low fifo trace1 c1) =
        head w x y osr fifo trace c (c + 3) (from_bool (word_dir w)) ch low (omega arith)
          (ground arith) (omega arith) (omega arith) in
      let (y1, waited) = wait ch (word_steps w) low fifo trace1 c1 c2 (omega arith) in
      let (y2, stepped) =
        pulse_loop p (word_steps w) y1 low fifo trace1 c2 (c + word_time w) (omega arith) in
      let s0 = state 1 x y osr (w ∷ fifo) trace c in
      let s1 = state (if_nonzero ch 7 13) (word_steps w) ch low fifo trace1 c1 in
      let s2 = state 13 (word_steps w) y1 low fifo trace1 c2 in
      let s3 = state 1 4294967295 y2 low fifo (word_trace w c trace) (c + word_time w) in
      (y2, join p s0 s1 s3 start (join p s1 s2 s3 waited stepped))

  -- A word in the FIFO, whatever it is: the program gets back to `pull block` after as many cycles as
  -- `word_time` says, with the word taken; it gave the word's direction to the direction pin, waited
  -- if the direction changed, and made exactly the word's number of steps on the step pin.
  pub run-word :
      (m : Machine) (w : ℕ) (fifo : List ℕ)
      → m.pc ≡ 1
      → m.fifo ≡ w ∷ fifo
      → (k : ℕ) × (let m' = run k (freq_generator p) m in
          (m'.pc ≡ 1)
          × (m'.fifo ≡ fifo)
          × (m'.cycles ≡ m.cycles + word_time w)
          × (m'.trace ≡ word_trace w m.cycles m.trace))
  unfolding Reaches
  run-word m w fifo at_pull filled =
      let (y', (k, e)) = run-word_state w m.x m.y m.osr fifo m.trace m.cycles in
      let here : m ≡ state 1 m.x m.y m.osr (w ∷ fifo) m.trace m.cycles =
        rw (← at_pull, ← filled) refl in
      let e' = ap (run k (freq_generator p)) here ∙ e in
      (
        k,
        (
          ap (λ (s : Machine). s.pc) e',
          ap (λ (s : Machine). s.fifo) e',
          ap (λ (s : Machine). s.cycles) e',
          ap (λ (s : Machine). s.trace) e',
        ),
      )
