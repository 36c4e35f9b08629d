-- ===== src/Firmware/Core1/Lost.antt =====
-- What a lost link does, and what it leaves alone.
use flexi_ninja.Prelude.{ℕ, refl, ap, inl, inr, Bool, true, false, List, [], arith, ltb}
use flexi_ninja.Prelude.{Bool-cases, length, set, All, length-set, get_or-set_self, get_or-set_ne}
use flexi_ninja.Prelude.{◌<◌, ◌≡◌, ◌≢◌, ◌∙◌, ◌∷◌, ◌++◌, ◌==◌, if◌then◌else◌}
use flexi_ninja.Transmission.Packet.{PcPico}
use flexi_ninja.Firmware.IrqEncoder.{encoder_at, is_irq, read_count, reset_count}
use flexi_ninja.Firmware.HandleData.{Config, OutputPin}
use flexi_ninja.Firmware.CoreState.{Core1, Call, zero_y, irq, restart, put, pwm, each}
use flexi_ninja.Firmware.GpioCallback.{reset_encoder_counter}
use flexi_ninja.Firmware.Core1.{clear_outputs, disconnect, time_diff, core1_round}

-- A call that sets a counter to 0.
abbrev pub is_counter_reset : Call → Bool
is_counter_reset (zero_y i) = true
is_counter_reset _ = false

-- The count that the PIO of encoder `i` holds after calls, `n` before them.
abbrev pub pio_count : ℕ → ℕ → List Call → ℕ
pio_count i n [] = n
pio_count i n (zero_y k ∷ calls) = pio_count i (if k == i then 0 else n) calls
pio_count i n (_ ∷ calls) = pio_count i n calls

-- The count of encoder `i` after an operation: the variable of an encoder that is counted by
-- interrupt, else that of its PIO, `n` before the operation.
abbrev pub count_after : Config → ℕ → ℕ → Core1 × List Call → ℕ
count_after c i n (s, calls) =
    if is_irq (encoder_at c.encoder_config i) then read_count i s.board.irq else pio_count i n calls

-- The array of counters holds encoder `i`.
abbrev pub HasEncoder : ℕ → Core1 → Type 0
HasEncoder i s = i < length s.board.irq.counter

pub pio_count-append :
    (i n : ℕ) (xs ys : List Call) → pio_count i n (xs ++ ys) ≡ pio_count i (pio_count i n xs) ys
pio_count-append i n [] ys = refl
pio_count-append i n (zero_y k ∷ xs) ys = pio_count-append i (if k == i then 0 else n) xs ys
pio_count-append i n (irq call ∷ xs) ys = pio_count-append i n xs ys
pio_count-append i n (restart k ∷ xs) ys = pio_count-append i n xs ys
pio_count-append i n (put gpio level ∷ xs) ys = pio_count-append i n xs ys
pio_count-append i n (pwm call ∷ xs) ys = pio_count-append i n xs ys

-- Once at 0 it stays there.
pub pio_count_zero : (i : ℕ) (calls : List Call) → pio_count i 0 calls ≡ 0
pio_count_zero i [] = refl
pio_count_zero i (zero_y k ∷ calls) =
    let still : (if k == i then 0 else 0) ≡ 0 = ground arith in
    ap (λ n. pio_count i n calls) still ∙ pio_count_zero i calls
pio_count_zero i (irq call ∷ calls) = pio_count_zero i calls
pio_count_zero i (restart k ∷ calls) = pio_count_zero i calls
pio_count_zero i (put gpio level ∷ calls) = pio_count_zero i calls
pio_count_zero i (pwm call ∷ calls) = pio_count_zero i calls

All-append :
    (f : Call → Bool) (xs ys : List Call)
    → All (λ x. f x ≡ true) xs
    → All (λ x. f x ≡ true) ys
    → All (λ x. f x ≡ true) (xs ++ ys)
All-append f [] ys h k = k
All-append f (x ∷ xs) ys h k = (h.0, All-append f xs ys h.1 k)

module _ (c : Config) (pins : ℕ) where
  counter-reset_count :
      (i : ℕ) (s : Core1) → (reset_count pins i s.board.irq).counter ≡ set s.board.irq.counter i 0
  unfolding reset_count
  counter-reset_count i s = ground arith

  reset_calls_irq :
      (i : ℕ) (s : Core1)
      → is_irq (encoder_at c.encoder_config i) ≡ true
      → (reset_encoder_counter c pins i s).0.board.irq ≡ reset_count pins i s.board.irq
  unfolding reset_encoder_counter
  reset_calls_irq i s e = rw e refl

  reset_pio :
      (i n : ℕ) (s : Core1)
      → is_irq (encoder_at c.encoder_config i) ≡ false
      → pio_count i n (reset_encoder_counter c pins i s).1 ≡ 0
  unfolding reset_encoder_counter
  reset_pio i n s e = let same : (i == i) ≡ true = ground arith in rw (e, same) refl

  reset_irq :
      (i : ℕ) (s : Core1)
      → is_irq (encoder_at c.encoder_config i) ≡ true
      → HasEncoder i s
      → read_count i (reset_encoder_counter c pins i s).0.board.irq ≡ 0
  unfolding read_count
  reset_irq i s e h =
      rw (reset_calls_irq i s e, counter-reset_count i s)
        (get_or-set_self s.board.irq.counter i 0 0 h)

  pub reset_zero :
      (i n : ℕ) (s : Core1)
      → HasEncoder i s
      → count_after c i n (reset_encoder_counter c pins i s) ≡ 0
  reset_zero i n s h = elim (Bool-cases (is_irq (encoder_at c.encoder_config i))) [
    | inl e ↦ rw e (reset_irq i s e h)
    | inr e ↦ rw e (reset_pio i n s e)
  ]

  reset_keeps_zero :
      (i j : ℕ) (s : Core1)
      → i ≢ j
      → read_count j s.board.irq ≡ 0
      → read_count j (reset_encoder_counter c pins i s).0.board.irq ≡ 0
  unfolding reset_encoder_counter read_count
  reset_keeps_zero i j s ne h =
      ground (arith, counter-reset_count i s, get_or-set_ne s.board.irq.counter i j 0 0 ne)

  reset_keeps_encoder :
      (i j : ℕ) (s : Core1) → HasEncoder j s → HasEncoder j (reset_encoder_counter c pins i s).0
  unfolding reset_encoder_counter
  reset_keeps_encoder i j s h =
      ground (arith, counter-reset_count i s, length-set s.board.irq.counter i 0, h)

  -- A call list that sets the count to 0 somewhere.
  zeroed_between :
      (i n : ℕ) (before calls after rest : List Call)
      → ((k : ℕ) → pio_count i k calls ≡ 0)
      → pio_count i n ((before ++ (calls ++ after)) ++ rest) ≡ 0
  zeroed_between i n before calls after rest h =
      pio_count-append i n (before ++ (calls ++ after)) rest
      ∙ ap (λ k. pio_count i k rest)
          (pio_count-append i n before (calls ++ after)
            ∙ pio_count-append i (pio_count i n before) calls after
            ∙ ap (λ k. pio_count i k after) (h (pio_count i n before))
            ∙ pio_count_zero i after)
      ∙ pio_count_zero i rest

  disconnect_first :
      (n : ℕ) (s : Core1) → HasEncoder 0 s → count_after c 0 n (disconnect c pins s) ≡ 0
  unfolding disconnect each
  disconnect_first n s h =
      let s0 : Core1 = record s { connected = 0 } in
      let (s1, first) = reset_encoder_counter c pins 0 s0 in
      let second = (reset_encoder_counter c pins 1 s1).1 in
      let ne : 1 ≢ 0 = λ e. absurd (omega (arith, e)) in
      elim (Bool-cases (is_irq (encoder_at c.encoder_config 0))) [
        | inl e ↦ rw e (reset_keeps_zero 1 0 s1 ne (reset_irq 0 s0 e h))
        | inr e ↦ rw e (
            zeroed_between 0 n [] first (second ++ []) (clear_outputs c.output_pins)
              (λ k. reset_pio 0 k s0 e))
      ]

  disconnect_second :
      (n : ℕ) (s : Core1) → HasEncoder 1 s → count_after c 1 n (disconnect c pins s) ≡ 0
  unfolding disconnect each
  disconnect_second n s h =
      let s0 : Core1 = record s { connected = 0 } in
      let (s1, first) = reset_encoder_counter c pins 0 s0 in
      let second = (reset_encoder_counter c pins 1 s1).1 in
      elim (Bool-cases (is_irq (encoder_at c.encoder_config 1))) [
        | inl e ↦ rw e (reset_irq 1 s1 e (reset_keeps_encoder 0 1 s0 h))
        | inr e ↦ rw e (
            zeroed_between 1 n first second [] (clear_outputs c.output_pins)
              (λ k. reset_pio 1 k s1 e))
      ]

  reset_keeps_rest :
      (i : ℕ) (s : Core1)
      → let s' = (reset_encoder_counter c pins i s).0 in
        (s'.connected ≡ s.connected)
        × (s'.timeout_us ≡ s.timeout_us)
        × (s'.board.last_packet_time ≡ s.board.last_packet_time)
  unfolding reset_encoder_counter
  reset_keeps_rest i s = (ground arith, ground arith, ground arith)

  disconnect_rest :
      (s : Core1)
      → let s' = (disconnect c pins s).0 in
        (s'.connected ≡ 0)
        × (s'.timeout_error ≡ 1)
        × (s'.board.rx_counter ≡ 0)
        × (s'.board.checksum_error ≡ false)
        × (s'.timeout_us ≡ s.timeout_us)
        × (s'.board.last_packet_time ≡ s.board.last_packet_time)
  unfolding disconnect each
  disconnect_rest s =
      let s0 : Core1 = record s { connected = 0 } in
      let r0 = reset_keeps_rest 0 s0 in
      let r1 = reset_keeps_rest 1 (reset_encoder_counter c pins 0 s0).0 in
      (r1.0 ∙ r0.0, refl, refl, refl, r1.1 ∙ r0.1, r1.2 ∙ r0.2)

  reset_calls :
      (i : ℕ) (s : Core1)
      → All (λ x. is_counter_reset x ≡ true) (reset_encoder_counter c pins i s).1
  unfolding reset_encoder_counter
  reset_calls i s = elim (Bool-cases (is_irq (encoder_at c.encoder_config i))) [
    | inl e ↦ rw e tt
    | inr e ↦ rw e (refl, tt)
  ]

clear_outputs_none :
    (pins : List OutputPin) → All (λ pin. pin.gpio ≡ 255) pins → clear_outputs pins ≡ []
unfolding clear_outputs
clear_outputs_none [] h = refl
clear_outputs_none (pin ∷ pins) h = ground (arith, h.0, clear_outputs_none pins h.1)

disconnect_calls :
    (c : Config) (pins : ℕ) (s : Core1)
    → All (λ pin. pin.gpio ≡ 255) c.output_pins
    → All (λ x. is_counter_reset x ≡ true) (disconnect c pins s).1
unfolding disconnect each
disconnect_calls c pins s no_pins =
    let s0 : Core1 = record s { connected = 0 } in
    let (s1, calls0) = reset_encoder_counter c pins 0 s0 in
    let (s2, calls1) = reset_encoder_counter c pins 1 s1 in
    let f = is_counter_reset in
    rw (clear_outputs_none c.output_pins no_pins) (
      All-append f (calls0 ++ (calls1 ++ [])) []
        (All-append f calls0 (calls1 ++ []) (reset_calls c pins 0 s0)
          (All-append f calls1 [] (reset_calls c pins 1 s1) tt))
        tt)

module _ (c : Config) (block slice : ℕ → ℕ) (pins : ℕ) (p : PcPico) (s : Core1) where
  abbrev IsSilent : ℕ → Type 0
  IsSilent now = ltb s.timeout_us (time_diff now s.board.last_packet_time) ≡ true

  lost_round :
      (now : ℕ)
      → IsSilent now
      → s.timeout_error ≡ 0
      → core1_round c block slice now pins p s
        ≡ ((disconnect c pins s).0, (disconnect c pins s).1, true)
  unfolding core1_round
  lost_round now silent first = ground (arith, silent, first)

  later_round :
      (now : ℕ) (t : Core1)
      → ltb t.timeout_us (time_diff now t.board.last_packet_time) ≡ true
      → t.timeout_error ≡ 1
      → core1_round c block slice now pins p t ≡ (t, [], true)
  unfolding core1_round
  later_round now t silent noted = ground (arith, silent, noted)

  -- A round that finds the link silent for longer than the timeout takes note of it once: the board
  -- is not connected, both encoders count from 0, by interrupt or in their PIO, whatever they had
  -- counted, the packet counter and the checksum error are cleared, and the terminal gets its turn;
  -- every later round of the same silence changes nothing and makes no call.
  pub core1_round-lost :
      (now later n0 n1 : ℕ)
      → IsSilent now
      → IsSilent later
      → s.timeout_error ≡ 0
      → HasEncoder 0 s
      → HasEncoder 1 s
      → let (s', calls, terminal) = core1_round c block slice now pins p s in
        (s'.connected ≡ 0)
        × (s'.timeout_error ≡ 1)
        × (s'.board.rx_counter ≡ 0)
        × (s'.board.checksum_error ≡ false)
        × (count_after c 0 n0 (s', calls) ≡ 0)
        × (count_after c 1 n1 (s', calls) ≡ 0)
        × (terminal ≡ true)
        × (core1_round c block slice later pins p s' ≡ (s', [], true))
  core1_round-lost now later n0 n1 silent silent' first h0 h1 =
      let d = (disconnect c pins s).0 in
      let rest = disconnect_rest c pins s in
      let still : ltb d.timeout_us (time_diff later d.board.last_packet_time) ≡ true =
        rw (rest.4, rest.5) silent' in
      rw (lost_round now silent first) (
        rest.0,
        rest.1,
        rest.2,
        rest.3,
        disconnect_first c pins n0 s h0,
        disconnect_second c pins n1 s h1,
        refl,
        later_round later d still rest.1,
      )

  -- On a board without output pins of its own, as BOARD_FLEXI_2350 is, a lost link sets no output:
  -- the only calls are those that reset encoder counters. No PWM channel is switched off, and the
  -- expander, which drives the axis enables, the coolant and the spindle, is sent nothing.
  core1_round-lost_outputs :
      (now : ℕ)
      → IsSilent now
      → s.timeout_error ≡ 0
      → All (λ pin. pin.gpio ≡ 255) c.output_pins
      → All (λ x. is_counter_reset x ≡ true) (core1_round c block slice now pins p s).1
  core1_round-lost_outputs now silent first no_pins =
      rw (lost_round now silent first) (disconnect_calls c pins s no_pins)
