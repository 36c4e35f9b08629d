-- ===== src/Firmware/Core1/Tests.antt =====
-- The theorems on core 1 at concrete inputs.
use flexi_ninja.Prelude.{ℕ, zero, suc, refl, inl, true, false, [], arith, ltb, get_or, sub32}
use flexi_ninja.Prelude.{bit_at, ◌≤◌, ◌<◌, ◌≡◌, ◌≢◌, ◌⊎◌, ◌∷◌, ◌++◌, if◌then◌else◌}
use flexi_ninja.Transmission.Packet.{PcPico}
use flexi_ninja.Firmware.Samples.{config, board, reads, core}
use flexi_ninja.Firmware.IrqEncoder.{encoder_at, is_irq}
use flexi_ninja.Firmware.StepProgram.{freq_generator, assembled}
use flexi_ninja.Firmware.StepProgram.Run.{settle}
use flexi_ninja.Firmware.HandleData.{Reads, take_index_flags, encoder_report}
use flexi_ninja.Firmware.CoreState.{Core1, zero_y, irq}
use flexi_ninja.Firmware.GpioCallback.{index_call, index_edge, gpio_callback}
use flexi_ninja.Firmware.PulseLoad.{patch_of, dir_cycles}
use flexi_ninja.Firmware.PulseLoad.Loaded.{IsEntry, IsLoaded, HasPatch}
use flexi_ninja.Firmware.Core1.{core1_round}
use flexi_ninja.Firmware.Core1.Link.{core1_round-HasPatch}
use flexi_ninja.Firmware.Core1.Lost.{count_after, pio_count, core1_round-lost}
use flexi_ninja.Firmware.Core1.Index.{
  IsIndexPin, IsApart, report_flags, clear_flags, gpio_callback-index, index_edge-lost,
  encoder_report-index_edge,
}

-- Four stepgens are on block 0, two on block 1.
abbrev block : ℕ → ℕ
block i = if ltb i 4 then 0 else 1

abbrev slice : ℕ → ℕ
slice pin = 5

-- Entry 190 of the table, and a direction setup of 2 µs.
abbrev pulse_packet : PcPico
pulse_packet = record {
  stepgen_command = 0 ∷ 0 ∷ 0 ∷ 0 ∷ 0 ∷ 0 ∷ [];
  outputs = 0 ∷ 0 ∷ [];
  pwm_duty = 0 ∷ [];
  pwm_frequency = 5000 ∷ [];
  pio_timing = 190;
  dir_setup_ns = 2000;
  enc_control = 1;
  packet_id = 1;
  checksum = 0;
}

block_in_range : (k : ℕ) → k < 6 → block k < 2
block_in_range k h = ground (arith, h)

block_holds : (k : ℕ) → k < 6 → get_or core.programs (block k) [] ≡ freq_generator assembled
block_holds k h = ground (arith, h)

core-IsLoaded : IsLoaded block core
core-IsLoaded = record {
  in_range = block_in_range;
  held = λ k h. (assembled, block_holds k h, inl refl);
}

core1_round-HasPatch_example :
    let s' = (core1_round config block slice 2000 0 pulse_packet core).0 in
    let q = patch_of pulse_packet in
    IsLoaded block s'
    × HasPatch block q s'
    × IsEntry 190 q
    × ((dir_cycles 2000 ≤ settle q 1) ⊎ (q.dir_n ≡ 31))
core1_round-HasPatch_example =
    core1_round-HasPatch config block slice 0 2000 pulse_packet core core-IsLoaded (omega arith)
      refl

core1_round-lost_example :
    let (s', calls, terminal) = core1_round config block slice 200000 0 pulse_packet core in
    (s'.connected ≡ 0)
    × (s'.timeout_error ≡ 1)
    × (s'.board.rx_counter ≡ 0)
    × (s'.board.checksum_error ≡ false)
    × (count_after config 0 700 (s', calls) ≡ 0)
    × (count_after config 1 0 (s', calls) ≡ 0)
    × (terminal ≡ true)
    × (core1_round config block slice 300000 0 pulse_packet s' ≡ (s', [], true))
core1_round-lost_example =
    core1_round-lost config block slice 0 pulse_packet core 200000 300000 700 0 refl refl refl
      (omega arith) (omega arith)

index_pin : IsIndexPin config 0 11 0 core
unfolding encoder_at
index_pin = record { own = refl; other = other; apart = apart }
  where
    other : (k : ℕ) → k < 2 → k ≢ 0 → 11 ≢ (encoder_at config.encoder_config k).index_pin
    other zero h ne = absurd (ne refl)
    other (suc zero) h ne = λ e. absurd (omega (arith, e))
    other (suc (suc k)) h ne = absurd (omega (arith, h))

    apart : (k : ℕ) → k < 2 → IsApart 11 k core
    apart zero h = (λ e. absurd (omega (arith, e)), λ e. absurd (omega (arith, e)))
    apart (suc zero) h = (λ e. absurd (omega (arith, e)), λ e. absurd (omega (arith, e)))
    apart (suc (suc k)) h = absurd (omega (arith, h))

gpio_callback-index_example :
    let pin = encoder_at config.encoder_config 0 in
    let (s', calls) = gpio_callback config 0 11 core in
    let b' = take_index_flags s'.board in
    (count_after config 0 700 (s', calls) ≡ 0)
    × (calls ≡ (if is_irq pin then [] else zero_y 0 ∷ []) ++ (irq (index_call pin false) ∷ []))
    × (get_or s'.enc_index_enabled 0 0 ≢ 1)
    × (bit_at b'.tx.interrupt_data 0 ≡ 1)
    × (b'.index_reset_flags ≡ 0)
gpio_callback-index_example =
    gpio_callback-index config 0 0 11 700 core (omega arith) index_pin (omega arith) (omega arith)
      refl

index_edge-lost_example :
    let s1 : Core1 = record core { board = report_flags core.board } in
    let (s2, calls) = index_edge config 0 0 s1 in
    let b3 = clear_flags s2.board in
    let next = take_index_flags b3 in
    (count_after config 0 700 (s2, calls) ≡ 0)
    × (bit_at s2.board.index_reset_flags 0 ≡ 1)
    × (bit_at b3.tx.interrupt_data 0 ≡ 0)
    × (next.tx.interrupt_data ≡ 0)
index_edge-lost_example = index_edge-lost config 0 0 700 core (omega arith) (omega arith) refl

-- The count at its last reset was 1200.
abbrev after_reset : Core1
after_reset = record core { board = record board { pio_enc_offset = 1200 ∷ 0 ∷ [] } }

-- The PIO is read before it counts on.
abbrev at_edge : Reads
at_edge = record reads { count_pio = λ i. pio_count i 700 (index_edge config 0 0 after_reset).1 }

encoder_report-index_edge_example :
    encoder_report config at_edge 0 (index_edge config 0 0 after_reset).0.board
    ≡ (if is_irq (encoder_at config.encoder_config 0) then 0 else sub32 0 1200)
encoder_report-index_edge_example =
    encoder_report-index_edge config 0 at_edge 0 700 after_reset (omega arith) refl refl
