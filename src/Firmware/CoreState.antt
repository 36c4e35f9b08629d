-- ===== src/Firmware/CoreState.antt =====
-- firmware/src/main.c: the variables of core 1, which watches the link and serves the interrupts of
-- the pins, and what it does to the hardware.
use flexi_ninja.Prelude.{ℕ, zero, suc, Bool, List, [], map, ◌+◌, ◌++◌}
use flexi_ninja.Firmware.IrqEncoder.{IrqCall}
use flexi_ninja.Firmware.StepProgram.{Instruction, Patch}
use flexi_ninja.Firmware.Pwm.{PwmCall}
use flexi_ninja.Firmware.HandleData.{Board}

-- The variables of core 1, `programs` the instruction memories of the PIO blocks, and the board.
pub record Core1 : Type 0 where
  pub board : Board
  pub connected : ℕ
  pub timeout_error : ℕ
  pub timeout_us : ℕ
  pub checksum_index : ℕ
  pub checksum_index_in : ℕ
  pub first_data : Bool
  pub first_send : ℕ
  pub encoder : List ℕ
  pub enc_index_enabled : List ℕ
  pub enc_irq_enabled : List ℕ
  pub sety : ℕ
  pub nop : ℕ
  pub old : Patch
  pub programs : List (List Instruction)
  pub old_pwm_frequency : List ℕ

-- `zero_y` and `restart` are instructions given to a state machine: `set y, 0` to that of an encoder,
-- `jmp 1` to that of a stepgen.
pub data Call : Type 0 where
  irq : IrqCall → Call
  zero_y : ℕ → Call
  restart : ℕ → Call
  put : ℕ → ℕ → Call
  pwm : PwmCall → Call

abbrev pub calls_of {ℓ} : {A : Type ℓ} → (A → Call) → List A → List Call
calls_of f xs = map f xs

abbrev pub edge_fall : ℕ
edge_fall = 4

abbrev pub edge_rise : ℕ
edge_rise = 8

-- `high`
abbrev pub level_high : ℕ
level_high = 1

-- A loop over encoders or channels from `i` on, `n` of them.
unfoldable pub each : (ℕ → Core1 → Core1 × List Call) → ℕ → ℕ → Core1 → Core1 × List Call
each body zero i s = (s, [])
each body (suc n) i s =
    let (s1, calls) = body i s in let (s2, rest) = each body n (i + 1) s1 in (s2, calls ++ rest)

abbrev pub pico_clock : ℕ
pico_clock = 150000000
