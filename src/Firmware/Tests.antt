-- ===== src/Firmware/Tests.antt =====
-- The board's theorems at concrete inputs.
use flexi_ninja.Prelude.{ℕ, zero, suc, refl, sym, ap, true, false, some, List, [], arith, ltb}
use flexi_ninja.Prelude.{bit_at, test_bit, ◌+◌, ◌%◌, ◌^◌, ◌<◌, ◌≡◌, ◌∷◌, ◌++◌, if◌then◌else◌}
use flexi_ninja.Transmission.Table.{jump_table}
use flexi_ninja.Transmission.Checksum.{checksum_ok, calculate_checksum}
use flexi_ninja.Transmission.Packet.{PcPico, words, pc_pico_bytes, rx_checksum_ok}
use flexi_ninja.Firmware.Samples.{config, steps, irq, board, reads}
use flexi_ninja.Firmware.IrqEncoder.{counts, encoder_at, read_state, read_count}
use flexi_ninja.Firmware.IrqEncoder.Track.{Sees, gray, turns, moved, follow, follow-moved}
use flexi_ninja.Firmware.PioUtils
use flexi_ninja.Firmware.PioUtils.{PioAlloc, get_next_pio}
use flexi_ninja.Firmware.PioUtils.Claims.{IsPioAlloc, Outcome, get_next_pio-Outcome}
use flexi_ninja.Firmware.Stepgen.{apply_stepgen_commands}
use flexi_ninja.Firmware.Stepgen.Laws.{
  puts_at, puts_after, position_at, position_after, overflow_after, apply_stepgen_commands_lem,
}
use flexi_ninja.Firmware.StepRing
use flexi_ninja.Firmware.StepRing.{StepRing, enqueue}
use flexi_ninja.Firmware.StepRing.Queue.{IsStepRing, contents}
use flexi_ninja.Firmware.StepRing.Fifo.{Event, packet, tick, run, run_fifo}
use flexi_ninja.Firmware.FlexGpio.{FlexGpio}
use flexi_ninja.Firmware.HandleData.{handle_data, check}
use flexi_ninja.Firmware.HandleData.Check.{verdict, serve, handle_data-safe, serve_recovers}
use flexi_ninja.Firmware.HandleData.Outputs.{handle_data-outputs}

-- A packet that asks for ten steps of stepgen 0, with the checksum given.
abbrev command_packet : ℕ → PcPico
command_packet sum = record {
  stepgen_command = 1034 ∷ 0 ∷ 0 ∷ 0 ∷ 0 ∷ 0 ∷ [];
  outputs = 0 ∷ 0 ∷ [];
  pwm_duty = 0 ∷ [];
  pwm_frequency = 0 ∷ [];
  pio_timing = 0;
  dir_setup_ns = 0;
  enc_control = 0;
  packet_id = 1;
  checksum = sum;
}

bad_packet : rx_checksum_ok (command_packet 0) ≡ false
unfolding rx_checksum_ok checksum_ok calculate_checksum jump_table pc_pico_bytes words
bad_packet = refl

good_packet : rx_checksum_ok (command_packet 230) ≡ true
unfolding rx_checksum_ok checksum_ok calculate_checksum jump_table pc_pico_bytes words
good_packet = refl

in_error : (verdict (command_packet 0) board).0 ≡ true
unfolding check
in_error = ap (λ ok. (check ok false 0).0) bad_packet

handle_data-safe_example :
    let (b', effects) = handle_data config reads (command_packet 0) board in
    (b'.checksum_error ≡ true)
    × (b'.steps.position ≡ steps.position)
    × (b'.steps.puts ≡ [])
    × (b'.pwm_freq_buffer ≡ 0 ∷ [])
    × (effects.pwm ≡ [])
handle_data-safe_example = handle_data-safe config reads (command_packet 0) board in_error

handle_data-outputs_example :
    let sent = (handle_data config reads (command_packet 0) board).1.flex in
    (sent.value ≡ 0 % 2147483648) × (sent.probe_irq_mask ≡ (if test_bit 0 31 then 8 else 16))
handle_data-outputs_example =
    handle_data-outputs config reads (command_packet 0) board (omega arith)

serve_recovers_example :
    (serve config
      ((reads, command_packet 0) ∷ (reads, command_packet 230) ∷ [])
      board).checksum_error
    ≡ ltb 1 10
serve_recovers_example =
    serve_recovers config reads (command_packet 0) ((reads, command_packet 230) ∷ []) board
      bad_packet (good_packet, tt)

-- Both FIFOs have room, and stepgen 5 is told to go back 3 steps.
abbrev commands : List ℕ
commands = 1034 ∷ 0 ∷ 0 ∷ 0 ∷ 0 ∷ 4099 ∷ []

apply_stepgen_commands_lem_example :
    let s' = apply_stepgen_commands (λ i. false) (λ i k. false) false commands steps in
    (position_at s' 5 ≡ position_after (λ i. false) (λ i k. false) 5 4099 5)
    × (bit_at s'.overflow 5 ≡ overflow_after (λ i. false) (λ i k. false) 5 4099 (bit_at 0 5))
    × (puts_at s' 5 ≡ puts_after (λ i. false) (λ i k. false) 5 4099 [])
apply_stepgen_commands_lem_example =
    apply_stepgen_commands_lem (λ i. false) (λ i k. false) false commands steps 5 refl (omega arith)

start-Sees : Sees 1 0 irq
unfolding counts encoder_at
start-Sees = record {
  phase = omega arith;
  active = refl;
  counter_fits = omega arith;
  state_fits = omega arith;
  seen = refl;
}

-- The pins 46 and 47 at each phase, A on 47.
abbrev line : ℕ → ℕ
line k = elim k [
  | zero ↦ 0
  | suc zero ↦ 2 ^ 46
  | suc (suc zero) ↦ 2 ^ 46 + 2 ^ 47
  | suc (suc (suc n)) ↦ 2 ^ 47
]

line_shows : (k : ℕ) → k < 4 → read_state (line k) (encoder_at irq.cfg 1).base_pin ≡ gray k
unfolding read_state encoder_at
line_shows zero h = refl
line_shows (suc zero) h = refl
line_shows (suc (suc zero)) h = refl
line_shows (suc (suc (suc zero))) h = refl
line_shows (suc (suc (suc (suc n)))) h = absurd (omega arith)

base_46 : (encoder_at irq.cfg 1).base_pin ≡ 46
unfolding encoder_at
base_46 = refl

follow-moved_example :
    let s' = follow line 1 46 (true ∷ true ∷ false ∷ []) 0 irq in
    (read_count 1 s' ≡ moved (true ∷ true ∷ false ∷ []) (read_count 1 irq))
    × Sees 1 (turns (true ∷ true ∷ false ∷ []) 0) s'
follow-moved_example =
    follow-moved line 1 46 (true ∷ true ∷ false ∷ []) 0 irq line_shows (sym base_46) start-Sees

allocator-IsPioAlloc : IsPioAlloc PioUtils.initial
unfolding PioUtils.initial
allocator-IsPioAlloc = record { blocks = refl; machines = refl }

get_next_pio-Outcome_example : Outcome 3 0 24 PioUtils.initial (get_next_pio 24 PioUtils.initial)
get_next_pio-Outcome_example =
    get_next_pio-Outcome 24 PioUtils.initial allocator-IsPioAlloc (omega arith)

ring-IsStepRing : IsStepRing StepRing.initial
unfolding StepRing.initial
ring-IsStepRing = record {
  size = refl;
  tail_in = omega arith;
  count_in = omega arith;
  head_at = refl;
}

abbrev events : List Event
events =
    packet 1000000 100 100 (some 2) commands
    ∷ packet 1000000 1100 1100 (some 2) commands
    ∷ packet 1000000 2100 2100 (some 2) commands
    ∷ tick 2 3100
    ∷ []

run_fifo_example :
    let (out, took, r') = run events StepRing.initial in
    (contents StepRing.initial ++ took ≡ out ++ contents r') × IsStepRing r'
run_fifo_example = run_fifo events StepRing.initial ring-IsStepRing

abbrev expander : FlexGpio
expander = record { pending = false; last_probe_mask = 16 }
