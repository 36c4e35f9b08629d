-- ===== src/Firmware/StepProgram.antt =====
-- firmware/pio/freq_generator.pio and the header made of it: the program of the PIO state machines
-- that turns a step word into pulses. An instruction takes one clock cycle and those of its delay;
-- `Machine` is one state machine, by the PIO instruction set of the RP2040 and RP2350, and `trace`
-- is what it did to its pins, newest first. The OSR shifts right, 32 bits at a pull, as the SDK's
-- default configuration has it.
pub mod Run
pub mod Command
use flexi_ninja.Prelude.{ℕ, zero, suc, List, [], get_or, ◌+◌, ◌/◌, ◌%◌, ◌^◌, ◌∷◌, ◌==◌}
use flexi_ninja.Prelude.{if◌then◌else◌}

pub data Op : Type 0 where
  set_pindirs : ℕ → Op
  set_pins : ℕ → Op
  set_y : ℕ → Op
  pull_block : Op
  out_x : ℕ → Op
  out_y : ℕ → Op
  mov_pins_y : Op
  mov_y_osr : Op
  nop : Op
  jmp : ℕ → Op
  jmp_not_y : ℕ → Op
  jmp_x_dec : ℕ → Op
  jmp_y_dec : ℕ → Op

pub record Instruction : Type 0 where
  pub op : Op
  pub delay : ℕ

-- The operands that core 1 writes into the loaded program: the count at 7, the delays at 10 and 11,
-- the count at 16 and the delay at 17.
pub record Patch : Type 0 where
  pub dir_n : ℕ
  pub dir_d1 : ℕ
  pub dir_d2 : ℕ
  pub sety : ℕ
  pub nop_delay : ℕ

abbrev pub plain : Op → Instruction
plain op = record { op = op; delay = 0 }

-- The 23 instructions.
unfoldable pub freq_generator : Patch → List Instruction
freq_generator p =
    plain (set_pindirs 1)
    ∷ plain pull_block
    ∷ plain (out_x 10)
    ∷ plain (out_y 1)
    ∷ plain mov_pins_y
    ∷ plain (out_y 1)
    ∷ plain (jmp_not_y 13)
    ∷ plain (set_y p.dir_n)
    ∷ plain (jmp_y_dec 10)
    ∷ plain (jmp 13)
    ∷ record { op = nop; delay = p.dir_d1 }
    ∷ record { op = nop; delay = p.dir_d2 }
    ∷ plain (jmp 8)
    ∷ plain (jmp_x_dec 15)
    ∷ plain (jmp 1)
    ∷ plain (set_pins 1)
    ∷ plain (set_y p.sety)
    ∷ record { op = nop; delay = p.nop_delay }
    ∷ plain (jmp_y_dec 17)
    ∷ plain (set_pins 0)
    ∷ plain mov_y_osr
    ∷ plain (jmp_y_dec 21)
    ∷ plain (jmp 13)
    ∷ []

-- The operands of the assembly.
abbrev pub assembled : Patch
assembled = record { dir_n = 12; dir_d1 = 31; dir_d2 = 31; sety = 24; nop_delay = 8 }

-- A level given to the step pin or the direction pin, at a clock cycle.
pub data Event : Type 0 where
  step_pin : ℕ → ℕ → Event
  dir_pin : ℕ → ℕ → Event

pub record Machine : Type 0 where
  pub pc : ℕ
  pub x : ℕ
  pub y : ℕ
  pub osr : ℕ
  pub fifo : List ℕ
  pub cycles : ℕ
  pub trace : List Event

-- After instruction 22, `.wrap`, comes 0.
abbrev pub next : ℕ → ℕ
next pc = if pc == 22 then 0 else pc + 1

-- `x--` wraps at 0, and the jump asks for the value before it.
abbrev pub decrement : ℕ → ℕ
decrement zero = 4294967295
decrement (suc n) = n

abbrev pub if_nonzero : ℕ → ℕ → ℕ → ℕ
if_nonzero zero there here = here
if_nonzero (suc n) there here = there

-- `pull block` on an empty FIFO waits a cycle.
unfoldable pub pull : List ℕ → Machine → Machine
pull [] m = m
pull (w ∷ ws) m = record m { osr = w; fifo = ws; pc = next m.pc }

-- An instruction at clock cycle `now`, less its time.
unfoldable pub execute : Op → ℕ → Machine → Machine
execute (set_pindirs v) now m = record m { pc = next m.pc }
execute (set_pins v) now m = record m { pc = next m.pc; trace = step_pin now v ∷ m.trace }
execute (set_y v) now m = record m { pc = next m.pc; y = v }
execute pull_block now m = pull m.fifo m
execute (out_x n) now m = record m { pc = next m.pc; x = m.osr % 2 ^ n; osr = m.osr / 2 ^ n }
execute (out_y n) now m = record m { pc = next m.pc; y = m.osr % 2 ^ n; osr = m.osr / 2 ^ n }
execute mov_pins_y now m = record m { pc = next m.pc; trace = dir_pin now (m.y % 2) ∷ m.trace }
execute mov_y_osr now m = record m { pc = next m.pc; y = m.osr }
execute nop now m = record m { pc = next m.pc }
execute (jmp there) now m = record m { pc = there }
execute (jmp_not_y there) now m = record m { pc = if_nonzero m.y (next m.pc) there }
execute (jmp_x_dec there) now m = record m {
  pc = if_nonzero m.x there (next m.pc);
  x = decrement m.x;
}
execute (jmp_y_dec there) now m = record m {
  pc = if_nonzero m.y there (next m.pc);
  y = decrement m.y;
}

unfoldable pub step : List Instruction → Machine → Machine
step program m =
    let i = get_or program m.pc (plain nop) in
    execute i.op m.cycles (record m { cycles = m.cycles + 1 + i.delay })

-- `n` instructions
unfoldable pub run : ℕ → List Instruction → Machine → Machine
run zero program m = m
run (suc n) program m = run n program (step program m)
