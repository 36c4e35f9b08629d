-- ===== src/Firmware/StepProgram/Run.antt =====
-- The loops of the step program: how long each takes, and what it does on the pins.
use flexi_ninja.Prelude.{ℕ, zero, suc, refl, ap, List, arith, ◌+◌, ◌*◌, ◌≡◌, ◌∙◌, ◌∷◌}
use flexi_ninja.Firmware.StepProgram.{
  Instruction, Patch, freq_generator, Event, step_pin, Machine, execute, step, run,
}

abbrev pub state : ℕ → ℕ → ℕ → ℕ → List ℕ → List Event → ℕ → Machine
state pc x y osr fifo trace cycles = record {
  pc = pc;
  x = x;
  y = y;
  osr = osr;
  fifo = fifo;
  cycles = cycles;
  trace = trace;
}

module _ (p : Patch) where
  -- The two loops that a step's high time consists of.
  abbrev pub high_time : ℕ
  high_time = (p.sety + 1) * (p.nop_delay + 2)

  -- The wait after a change of the direction.
  abbrev pub settle : ℕ → ℕ
  settle zero = 0
  settle (suc c) = p.dir_n * (p.dir_d1 + p.dir_d2 + 4) + 3

  -- A step, from the test of the count to the next.
  abbrev pub step_time : ℕ → ℕ
  step_time low = high_time + low + 7

  -- `n` steps from cycle `now` on: the step pin rises, and falls after the high time and two cycles.
  abbrev pub pulses : ℕ → ℕ → ℕ → List Event → List Event
  pulses low zero now trace = trace
  pulses low (suc n) now trace =
      pulses low n (now + step_time low)
        (step_pin (now + high_time + 3) 0 ∷ step_pin (now + 1) 1 ∷ trace)

  -- Some number of instructions leads from one state to the other.
  unfoldable pub Reaches : Machine → Machine → Type 0
  Reaches m m' = (k : ℕ) × (run k (freq_generator p) m ≡ m')

run_add :
    (a b : ℕ) (program : List Instruction) (m : Machine)
    → run (a + b) program m ≡ run b program (run a program m)
unfolding run
run_add zero b program m = let e : 0 + b ≡ b = omega arith in ap (λ (k : ℕ). run k program m) e
run_add (suc a) b program m =
    let e : suc a + b ≡ suc (a + b) = omega arith in
    ap (λ (k : ℕ). run k program m) e ∙ run_add a b program (step program m)

module _ (p : Patch) where
  pub join : (m m1 m2 : Machine) → Reaches p m m1 → Reaches p m1 m2 → Reaches p m m2
  unfolding Reaches
  join m m1 m2 (a, e) (b, e1) =
      (a + b, run_add a b (freq_generator p) m ∙ ap (run b (freq_generator p)) e ∙ e1)

  -- Straight pieces of the program.
  low_round :
      (y x osr : ℕ) (fifo : List ℕ) (trace : List Event) (c : ℕ)
      → Reaches p (state 21 x (suc y) osr fifo trace c) (state 21 x y osr fifo trace (c + 1 + 0))
  unfolding Reaches run step execute freq_generator
  low_round y x osr fifo trace c = (1, refl)

  low_end :
      (x osr : ℕ) (fifo : List ℕ) (trace : List Event) (c c' : ℕ)
      → c + 1 + 0 + 1 + 0 ≡ c'
      → Reaches p (state 21 x 0 osr fifo trace c) (state 13 x 4294967295 osr fifo trace c')
  unfolding Reaches run step execute freq_generator
  low_end x osr fifo trace c c' e = (2, ap (state 13 x 4294967295 osr fifo trace) e)

  high_round :
      (y x osr : ℕ) (fifo : List ℕ) (trace : List Event) (c : ℕ)
      → Reaches p
          (state 17 x (suc y) osr fifo trace c)
          (state 17 x y osr fifo trace (c + 1 + p.nop_delay + 1 + 0))
  unfolding Reaches run step execute freq_generator
  high_round y x osr fifo trace c = (2, refl)

  high_end :
      (x osr : ℕ) (fifo : List ℕ) (trace : List Event) (c c' : ℕ)
      → c + 1 + p.nop_delay + 1 + 0 ≡ c'
      → Reaches p (state 17 x 0 osr fifo trace c) (state 19 x 4294967295 osr fifo trace c')
  unfolding Reaches run step execute freq_generator
  high_end x osr fifo trace c c' e = (2, ap (state 19 x 4294967295 osr fifo trace) e)

  settle_round :
      (y x osr : ℕ) (fifo : List ℕ) (trace : List Event) (c : ℕ)
      → Reaches p
          (state 8 x (suc y) osr fifo trace c)
          (state 8 x y osr fifo trace (c + 1 + 0 + 1 + p.dir_d1 + 1 + p.dir_d2 + 1 + 0))
  unfolding Reaches run step execute freq_generator
  settle_round y x osr fifo trace c = (4, refl)

  settle_end :
      (x osr : ℕ) (fifo : List ℕ) (trace : List Event) (c c' : ℕ)
      → c + 1 + 0 + 1 + 0 ≡ c'
      → Reaches p (state 8 x 0 osr fifo trace c) (state 13 x 4294967295 osr fifo trace c')
  unfolding Reaches run step execute freq_generator
  settle_end x osr fifo trace c c' e = (2, ap (state 13 x 4294967295 osr fifo trace) e)

  -- From the test of the count to the high loop, and from its end to the low loop.
  rise :
      (n y osr : ℕ) (fifo : List ℕ) (trace : List Event) (c t : ℕ)
      → c + 1 + 0 ≡ t
      → Reaches p
          (state 13 (suc n) y osr fifo trace c)
          (state 17 n p.sety osr fifo (step_pin t 1 ∷ trace) (t + 1 + 0 + 1 + 0))
  unfolding Reaches run step execute freq_generator
  rise n y osr fifo trace c t e =
      (3, ap (λ u. state 17 n p.sety osr fifo (step_pin u 1 ∷ trace) (u + 1 + 0 + 1 + 0)) e)

  fall :
      (x y osr : ℕ) (fifo : List ℕ) (trace : List Event) (c : ℕ)
      → Reaches p
          (state 19 x y osr fifo trace c)
          (state 21 x osr osr fifo (step_pin c 0 ∷ trace) (c + 1 + 0 + 1 + 0))
  unfolding Reaches run step execute freq_generator
  fall x y osr fifo trace c = (2, refl)

  finish :
      (y osr : ℕ) (fifo : List ℕ) (trace : List Event) (c c' : ℕ)
      → c + 1 + 0 + 1 + 0 ≡ c'
      → Reaches p (state 13 0 y osr fifo trace c) (state 1 4294967295 y osr fifo trace c')
  unfolding Reaches run step execute freq_generator
  finish y osr fifo trace c c' e = (2, ap (state 1 4294967295 y osr fifo trace) e)

  -- The low time of a step: from `jmp y--` at 21 to the test at 13.
  low_loop :
      (y x osr : ℕ) (fifo : List ℕ) (trace : List Event) (c c' : ℕ)
      → c' ≡ c + y + 2
      → Reaches p (state 21 x y osr fifo trace c) (state 13 x 4294967295 osr fifo trace c')
  low_loop zero x osr fifo trace c c' h = low_end x osr fifo trace c c' (omega (arith, h))
  low_loop (suc y) x osr fifo trace c c' h =
      join (state 21 x (suc y) osr fifo trace c) (state 21 x y osr fifo trace (c + 1 + 0))
        (state 13 x 4294967295 osr fifo trace c') (low_round y x osr fifo trace c)
        (low_loop y x osr fifo trace (c + 1 + 0) c' (omega (arith, h)))

  -- The high time: from `nop` at 17 to `set pins, 0` at 19.
  high_loop :
      (y x osr : ℕ) (fifo : List ℕ) (trace : List Event) (c c' : ℕ)
      → c' ≡ c + (y + 1) * (p.nop_delay + 2)
      → Reaches p (state 17 x y osr fifo trace c) (state 19 x 4294967295 osr fifo trace c')
  high_loop zero x osr fifo trace c c' h = high_end x osr fifo trace c c' (omega (arith, h))
  high_loop (suc y) x osr fifo trace c c' h =
      let c1 = c + 1 + p.nop_delay + 1 + 0 in
      join (state 17 x (suc y) osr fifo trace c) (state 17 x y osr fifo trace c1)
        (state 19 x 4294967295 osr fifo trace c') (high_round y x osr fifo trace c)
        (high_loop y x osr fifo trace c1 c' (omega (arith, h)))

  -- The wait after a change of the direction: from `jmp y--` at 8 to the test at 13.
  pub settle_loop :
      (y x osr : ℕ) (fifo : List ℕ) (trace : List Event) (c c' : ℕ)
      → c' ≡ c + y * (p.dir_d1 + p.dir_d2 + 4) + 2
      → Reaches p (state 8 x y osr fifo trace c) (state 13 x 4294967295 osr fifo trace c')
  settle_loop zero x osr fifo trace c c' h = settle_end x osr fifo trace c c' (omega (arith, h))
  settle_loop (suc y) x osr fifo trace c c' h =
      let c1 = c + 1 + 0 + 1 + p.dir_d1 + 1 + p.dir_d2 + 1 + 0 in
      join (state 8 x (suc y) osr fifo trace c) (state 8 x y osr fifo trace c1)
        (state 13 x 4294967295 osr fifo trace c') (settle_round y x osr fifo trace c)
        (settle_loop y x osr fifo trace c1 c' (omega (arith, h)))

  -- One step.
  pulse :
      (n y osr : ℕ) (fifo : List ℕ) (trace : List Event) (c : ℕ)
      → Reaches p (state 13 (suc n) y osr fifo trace c) (
          state 13 n 4294967295 osr fifo
            (step_pin (c + high_time p + 3) 0 ∷ step_pin (c + 1) 1 ∷ trace)
            (c + step_time p osr))
  pulse n y osr fifo trace c =
      let up = step_pin (c + 1) 1 ∷ trace in
      let down = step_pin (c + high_time p + 3) 0 ∷ up in
      let c1 = c + 1 + 1 + 0 + 1 + 0 in
      let c2 = c + high_time p + 3 in
      join (state 13 (suc n) y osr fifo trace c) (state 17 n p.sety osr fifo up c1)
        (state 13 n 4294967295 osr fifo down (c + step_time p osr))
        (rise n y osr fifo trace c (c + 1) (omega arith))
        (join (state 17 n p.sety osr fifo up c1) (state 19 n 4294967295 osr fifo up c2)
          (state 13 n 4294967295 osr fifo down (c + step_time p osr))
          (high_loop p.sety n osr fifo up c1 c2 (omega arith))
          (join (state 19 n 4294967295 osr fifo up c2)
            (state 21 n osr osr fifo down (c2 + 1 + 0 + 1 + 0))
            (state 13 n 4294967295 osr fifo down (c + step_time p osr))
            (fall n 4294967295 osr fifo up c2)
            (low_loop osr n osr fifo down (c2 + 1 + 0 + 1 + 0) (c + step_time p osr)
              (omega arith))))

  -- The steps of a word, and the way back to `pull block`.
  pub pulse_loop :
      (n y osr : ℕ) (fifo : List ℕ) (trace : List Event) (c c' : ℕ)
      → c' ≡ c + n * step_time p osr + 2
      → (y' : ℕ) × Reaches p
          (state 13 n y osr fifo trace c)
          (state 1 4294967295 y' osr fifo (pulses p osr n c trace) c')
  pulse_loop zero y osr fifo trace c c' h = (y, finish y osr fifo trace c c' (omega (arith, h)))
  pulse_loop (suc n) y osr fifo trace c c' h =
      let trace1 = step_pin (c + high_time p + 3) 0 ∷ step_pin (c + 1) 1 ∷ trace in
      let c1 = c + step_time p osr in
      let (y', rest) = pulse_loop n 4294967295 osr fifo trace1 c1 c' (omega (arith, h)) in
      (
        y',
        join (state 13 (suc n) y osr fifo trace c) (state 13 n 4294967295 osr fifo trace1 c1)
            (state 1 4294967295 y' osr fifo (pulses p osr n c1 trace1) c')
            (pulse n y osr fifo trace c) rest,
      )
