-- ===== src/Firmware/Stepgen.antt =====
-- firmware/src/main.c, `apply_stepgen_commands`: the step words of a packet go to the PIO programs,
-- and the board counts the steps it hands over. The hardware FIFOs are outside: `full i k` is what
-- `pio_sm_is_tx_fifo_full` says of stepgen `i` at poll `k` of the wait.
pub mod Laws
use flexi_ninja.Prelude.{ℕ, zero, suc, Bool, List, bit_xor, ltb, get_or, set, u8, add32, sub32}
use flexi_ninja.Prelude.{test_bit, set_bit, ◌+◌, ◌%◌, ◌∷◌, ◌==◌, if◌then◌else◌}
use flexi_ninja.Transmission.Packet.{stepgens}

-- `stepgen_position` (int32 bit patterns), `stepgen_overflow`, and the words put into the FIFOs so
-- far with their stepgen, newest first.
pub record StepState : Type 0 where
  pub position : List ℕ
  pub overflow : ℕ
  pub puts : List (ℕ × ℕ)

abbrev pub put_timeout : ℕ
put_timeout = 1000

-- The wait at poll `k` with `put_timeout` at `t`; the result is the count at the end.
unfoldable pub wait_put : (ℕ → Bool) → ℕ → ℕ → ℕ
wait_put full k zero = 0
wait_put full k (suc t) =
    let more = wait_put full (k + 1) t in
    let count_down = if t == 0 then 0 else more in if full k then count_down else suc t

-- The wait ended by room in the FIFO, `put_timeout > 0`.
unfoldable pub accepts : (ℕ → Bool) → Bool
accepts full = ltb 0 (wait_put full 0 put_timeout)

-- The fields of a command word: bits 0 to 9, and bit 10.
abbrev pub word_steps : ℕ → ℕ
word_steps w = w % 1024

abbrev pub word_dir : ℕ → Bool
word_dir w = test_bit w 10

-- `position += dir ? steps : -steps`
abbrev pub advance : ℕ → ℕ → ℕ
advance w position =
    if word_dir w then add32 position (word_steps w) else sub32 position (word_steps w)

module _ (dir_invert : ℕ → Bool) (full : ℕ → ℕ → Bool) where
  -- One round of the loop.
  unfoldable pub apply_one : ℕ → ℕ → StepState → StepState
  apply_one i w s =
      if w == 0
      then s
      else if accepts (full i)
      then record s {
        puts = (i, if dir_invert i then bit_xor w 1024 else w) ∷ s.puts;
        position = set s.position i (advance w (get_or s.position i 0));
      }
      else record s { overflow = u8 (set_bit s.overflow i) }

  -- The loop at `i`, with `n` rounds left.
  unfoldable pub apply_from : ℕ → ℕ → List ℕ → StepState → StepState
  apply_from zero i step_commands s = s
  apply_from (suc n) i step_commands s =
      apply_from n (i + 1) step_commands (apply_one i (get_or step_commands i 0) s)

  unfoldable pub apply_stepgen_commands : Bool → List ℕ → StepState → StepState
  apply_stepgen_commands checksum_error step_commands s =
      if checksum_error then s else apply_from stepgens 0 step_commands s
