-- ===== src/Firmware/PioUtils.antt =====
-- firmware/src/pio_utils.c: handing out the state machines of the PIO blocks, at PICO_RP2350.
pub mod Claims
use flexi_ninja.Prelude.{ℕ, zero, suc, Option, none, some, List, get_or, set, replicate, u8, ◌+◌}
use flexi_ninja.Prelude.{◌*◌, ◌&&◌, ◌==◌, if◌then◌else◌}

abbrev pub sm_per_pio_block : ℕ
sm_per_pio_block = 4

abbrev pub max_pio_blocks : ℕ
max_pio_blocks = 3

-- The file's static arrays: the length of the program that a block holds (0 for none), and whether a
-- state machine is taken.
pub record PioAlloc : Type 0 where
  pub pio_memory : List ℕ
  pub pio_claimed : List ℕ

unfoldable pub initial : PioAlloc
initial = record {
  pio_memory = replicate max_pio_blocks 0;
  pio_claimed = replicate (max_pio_blocks * sm_per_pio_block) 0;
}

-- `if (pio_memory[p] == 0) pio_memory[p] = length;`
abbrev pub reserve : ℕ → ℕ → PioAlloc → PioAlloc
reserve p len st =
    if get_or st.pio_memory p 0 == 0 then record st { pio_memory = set st.pio_memory p len } else st

abbrev pub slot : ℕ → ℕ → ℕ
slot p s = u8 (p * sm_per_pio_block + s)

-- The inner loop at state machine `s` of block `p`, with `n` of them left.
unfoldable pub scan_sm : ℕ → ℕ → ℕ → ℕ → PioAlloc → Option (ℕ × ℕ) × PioAlloc
scan_sm zero s p len st = (none, st)
scan_sm (suc n) s p len st =
    let st1 : PioAlloc = reserve p len st in
    let rest = scan_sm n (s + 1) p len st1 in
    if get_or st1.pio_memory p 0 == len && get_or st1.pio_claimed (slot p s) 0 == 0
    then (some (p, s), record st1 { pio_claimed = set st1.pio_claimed (slot p s) 1 })
    else rest

-- The outer loop at block `p`, with `n` of them left.
unfoldable pub scan_block : ℕ → ℕ → ℕ → PioAlloc → Option (ℕ × ℕ) × PioAlloc
scan_block zero p len st = (none, st)
scan_block (suc n) p len st =
    let (r, st1) = scan_sm sm_per_pio_block 0 p len st in
    elim r [ some found ↦ (some found, st1) | none ↦ scan_block n (p + 1) len st1 ]

-- The block and the state machine of the result; `none` is `retval.sm == 255`.
unfoldable pub get_next_pio : ℕ → PioAlloc → Option (ℕ × ℕ) × PioAlloc
get_next_pio len st = scan_block max_pio_blocks 0 len st
