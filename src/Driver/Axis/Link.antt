-- ===== src/Driver/Axis/Link.antt =====
-- The step words of the driver, read as the board reads them: driver and board keep the same
-- position.
use flexi_ninja.Prelude.{ℕ, refl, ap, inl, inr, true, false, arith, ltb, Bool-cases, ltb→lt, u32}
use flexi_ninja.Prelude.{word, add32, sub32, from_bool, ◌-◌, ◌<◌, ◌≡◌, ◌∙◌}
use flexi_ninja.Prelude.Int.{ℤ, pos, ◌+ℤ◌, ◌-ℤ◌, ltb_ℤ, int_laws, eq_of_parts}
use flexi_ninja.Driver.Arith.{Arith, IsExact}
use flexi_ninja.Driver.Timing.{timing, fits}
use flexi_ninja.Driver.Timing.Commands.{command_word, command_word_sum, command_word_fields}
use flexi_ninja.Driver.Axis.{Axis, pattern, changed_dir, move_toward}
use flexi_ninja.Driver.Axis.Position.{gap, gap_lem, at_most_1023, step_count-gap, gap-move_toward}
use flexi_ninja.Firmware.Stepgen.{word_steps, word_dir, advance}

pattern-add : (z : ℤ) (n : ℕ) → add32 (pattern z) n ≡ pattern (z +ℤ pos n)
unfolding ◌+ℤ◌
pattern-add z n = ground arith

pattern-sub : (z : ℤ) (n : ℕ) → n < word → sub32 (pattern z) n ≡ pattern (z -ℤ pos n)
unfolding ◌-ℤ◌
pattern-sub z n h = ground arith

step_up : (p o : ℤ) (n : ℕ) → add32 (pattern (p -ℤ o)) n ≡ pattern (p +ℤ pos n -ℤ o)
step_up p o n =
    pattern-add (p -ℤ o) n
    ∙ ap pattern (eq_of_parts (p -ℤ o +ℤ pos n) (p +ℤ pos n -ℤ o) (omega int_laws))

step_down : (p o : ℤ) (n : ℕ) → n < word → sub32 (pattern (p -ℤ o)) n ≡ pattern (p -ℤ pos n -ℤ o)
step_down p o n h =
    pattern-sub (p -ℤ o) n h
    ∙ ap pattern (eq_of_parts (p -ℤ o -ℤ pos n) (p -ℤ pos n -ℤ o) (omega int_laws))

pub pattern_small : (z : ℤ) → u32 (pattern z) ≡ pattern z
pattern_small z = ground arith

pub same_of_gap : (p c : ℤ) → gap p c ≡ 0 → p ≡ c
same_of_gap p c h = eq_of_parts p c (omega (int_laws, gap_lem p c))

pub limit_small : (n : ℕ) → at_most_1023 n < 1024
limit_small n = ground arith

pub some_gap : (g : ℕ) → ltb 0 (at_most_1023 g) ≡ true → 0 < g
some_gap g h = ground arith

pub no_gap : (g : ℕ) → ltb 0 (at_most_1023 g) ≡ false → g ≡ 0
no_gap g h = ground arith

timing_unfit :
    (ar : Arith) (total high i : ℕ) → fits ar total high i ≡ false → timing ar total high i ≡ 0
unfolding timing
timing_unfit ar total high i h = ground (arith, h)

empty_word : (d s : ℕ) → d < 2 → s < 2 → word_steps (command_word 0 d s) ≡ 0
empty_word d s hd hs = omega (arith, command_word_sum 0 d s (omega arith) hd hs)

advance_up : (w q n : ℕ) → word_steps w ≡ n → word_dir w ≡ true → advance w q ≡ add32 q n
advance_up w q n steps dir = rw (dir, steps) refl

advance_down : (w q n : ℕ) → word_steps w ≡ n → word_dir w ≡ false → advance w q ≡ sub32 q n
advance_down w q n steps dir = rw (dir, steps) refl

pub advance_none : (q : ℕ) → u32 q ≡ q → advance 0 q ≡ q
advance_none q h = omega (arith, h)

module _ (ar : Arith) (ex : IsExact ar) where
  -- Driver and board agree on where the axis is: if the board's counter holds the driver's position,
  -- less some origin, and the pulses of the steps of this period fit it, then the counter that the
  -- command word leaves is the driver's new position, less that origin, in 32 bits.
  pub advance-move_toward :
      (total high : ℕ) (curr origin : ℤ) (a : Axis ar)
      → (0 < gap a.prev_pos curr → fits ar total high (at_most_1023 (gap a.prev_pos curr)) ≡ true)
      → let (w, a') = move_toward ar (timing ar total high) curr a in
        advance w (pattern (a.prev_pos -ℤ origin)) ≡ pattern (a'.prev_pos -ℤ origin)
  unfolding move_toward
  advance-move_toward total high curr origin a fit =
      let n = at_most_1023 (gap a.prev_pos curr) in
      rw (step_count-gap ar ex a.prev_pos curr) (elim (Bool-cases (ltb 0 n)) [
        | inl some_left ↦
            let read = λ (d s : ℕ) (hd : d < 2) (hs : s < 2).
              command_word_fields ar total high n d s (ltb→lt _ _ some_left)
                (limit_small (gap a.prev_pos curr)) (fit (some_gap (gap a.prev_pos curr) some_left))
                hd hs in
            elim (Bool-cases (ltb_ℤ a.prev_pos curr)) [
              | inl below ↦
                  let changed = changed_dir ar 1 a.last_dir in
                  let r = read changed 1 (ground arith) (omega arith) in
                  let w = command_word (timing ar total high n) changed 1 in
                  rw (some_left, below)
                    (advance_up w (pattern (a.prev_pos -ℤ origin)) n r.0 r.1
                      ∙ step_up a.prev_pos origin n)
              | inr above ↦
                  let changed = changed_dir ar 0 a.last_dir in
                  let r = read changed 0 (ground arith) (omega arith) in
                  let w = command_word (timing ar total high n) changed 0 in
                  rw (some_left, above)
                    (advance_down w (pattern (a.prev_pos -ℤ origin)) n r.0 r.1
                      ∙ step_down a.prev_pos origin n
                          (omega (arith, limit_small (gap a.prev_pos curr))))
            ]
        | inr none_left ↦
            let here = same_of_gap a.prev_pos curr (no_gap (gap a.prev_pos curr) none_left) in
            rw none_left (
              advance_none (pattern (a.prev_pos -ℤ origin)) (pattern_small (a.prev_pos -ℤ origin))
              ∙ ap (λ z. pattern (z -ℤ origin)) here)
      ])

  word_lost :
      (total high : ℕ) (curr : ℤ) (a : Axis ar)
      → fits ar total high (at_most_1023 (gap a.prev_pos curr)) ≡ false
      → word_steps (move_toward ar (timing ar total high) curr a).0 ≡ 0
  unfolding move_toward
  word_lost total high curr a no_fit =
      let n = at_most_1023 (gap a.prev_pos curr) in
      let s = from_bool (ltb_ℤ a.prev_pos curr) in
      let d = changed_dir ar s a.last_dir in
      rw (step_count-gap ar ex a.prev_pos curr, timing_unfit ar total high n no_fit)
        (elim (Bool-cases (ltb 0 n)) [
          | inl some_left ↦ rw some_left (empty_word d s (ground arith) (ground arith))
          | inr none_left ↦ rw none_left refl
        ])

  -- What the driver loses in position mode, which does not look at `max_steps_per_cycle`: when the
  -- pulses of the steps of this period do not fit it, the word that goes out asks for no step, and
  -- the driver's own position moves on all the same, by as many steps as are left, or 1023.
  pub move_toward_lost :
      (total high : ℕ) (curr : ℤ) (a : Axis ar)
      → fits ar total high (at_most_1023 (gap a.prev_pos curr)) ≡ false
      → let (w, a') = move_toward ar (timing ar total high) curr a in
        (word_steps w ≡ 0) × (gap a'.prev_pos curr ≡ gap a.prev_pos curr - 1023)
  move_toward_lost total high curr a no_fit =
      (word_lost total high curr a no_fit, (gap-move_toward ar ex (timing ar total high) curr a).0)
