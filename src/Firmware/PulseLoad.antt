-- ===== src/Firmware/PulseLoad.antt =====
-- firmware/src/main.c, in `core1_entry`: the pulse width and the direction setup that a packet asks
-- for are written into the step programs. The program is loaded at address 0 of each PIO block that
-- a stepgen is on, so that `program_address` is 0.
pub mod Loaded
use flexi_ninja.Prelude.{ℕ, zero, suc, Bool, List, [], ltb, get_or, set, u32, ◌+◌, ◌-◌, ◌*◌, ◌/◌}
use flexi_ninja.Prelude.{◌%◌, ◌&&◌, ◌∷◌, ◌==◌, if◌then◌else◌}
use flexi_ninja.PioSettings
use flexi_ninja.PioSettings.{pio_settings_count}
use flexi_ninja.Transmission.Packet.{PcPico, stepgens}
use flexi_ninja.Firmware.StepProgram.{Instruction, Patch, plain, set_y, nop}
use flexi_ninja.Firmware.CoreState.{Core1, Call, restart, pico_clock}

-- `dir_cycles`
unfoldable pub dir_cycles : ℕ → ℕ
dir_cycles dir_setup_ns = u32 (dir_setup_ns * (pico_clock / 1000000)) / 1000

-- `dir_n`
unfoldable pub dir_count : ℕ → ℕ
dir_count cycles =
    let n = if ltb 2 cycles then (cycles - 2 + 65) / 66 else 0 in if ltb 31 n then 31 else n

-- The operands that a packet asks for. `& 31` cuts to five bits.
unfoldable pub patch_of : PcPico → Patch
patch_of p = record {
  dir_n = dir_count (dir_cycles p.dir_setup_ns);
  dir_d1 = 31;
  dir_d2 = 31;
  sety = PioSettings.sety p.pio_timing % 32;
  nop_delay = PioSettings.nop p.pio_timing % 32;
}

-- `old_sety != sety || …`, negated.
abbrev pub same_patch : Patch → Patch → Bool
same_patch a b =
    a.sety == b.sety
    && (a.nop_delay == b.nop_delay
        && (a.dir_n == b.dir_n && (a.dir_d1 == b.dir_d1 && a.dir_d2 == b.dir_d2)))

-- The five words of the instruction memory that are written.
unfoldable pub write_patch : Patch → List Instruction → List Instruction
write_patch q memory =
    let m1 = set memory 7 (plain (set_y q.dir_n)) in
    let m2 = set m1 10 (record { op = nop; delay = q.dir_d1 }) in
    let m3 = set m2 11 (record { op = nop; delay = q.dir_d2 }) in
    let m4 = set m3 16 (plain (set_y q.sety)) in
    set m4 17 (record { op = nop; delay = q.nop_delay })

-- The stepgens from `i` on, `n` of them; `block i` is the PIO block of stepgen `i`.
unfoldable pub write_programs :
    (ℕ → ℕ) → Patch → ℕ → ℕ → List (List Instruction) → List (List Instruction)
write_programs block q zero i programs = programs
write_programs block q (suc n) i programs =
    write_programs block q n (i + 1)
      (set programs (block i) (write_patch q (get_or programs (block i) [])))

unfoldable pub restarts : ℕ → ℕ → List Call
restarts zero i = []
restarts (suc n) i = restart i ∷ restarts n (i + 1)

unfoldable pub load_pulse : (ℕ → ℕ) → PcPico → Core1 → Core1 × List Call
load_pulse block p s =
    let q = patch_of p in
    let seen : Core1 = record s { sety = q.sety; nop = q.nop_delay } in
    let written : Core1 = record seen {
      programs = write_programs block q stepgens 0 s.programs;
      old = q;
    } in
    if ltb p.pio_timing pio_settings_count
    then if same_patch s.old q then (seen, []) else (written, restarts stepgens 0)
    else (s, [])
