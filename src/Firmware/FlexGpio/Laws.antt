-- ===== src/Firmware/FlexGpio/Laws.antt =====
-- The probe select bit never reaches the expander, and every change of probe makes it be read.
use flexi_ninja.Prelude.{ℕ, not, List, arith, get_or, set, word, test_bit, ◌%◌, ◌<◌, ◌≡◌, ◌||◌}
use flexi_ninja.Prelude.{◌==◌, if◌then◌else◌}
use flexi_ninja.Firmware.FlexGpio.{FlexGpio, sync_inputs, push_outputs}

-- The packet written carries the low 31 output bits and no bit 31, watches exactly the probe that
-- bit 31 selects; if that is another probe than the last time, the next `flexgpio_sync_inputs` reads
-- the expander's inputs into word 2, and otherwise does so only if a read was pending.
pub push_outputs_lem :
    (outputs inputs : List ℕ) (value : ℕ) (f : FlexGpio)
    → get_or outputs 0 0 < word
    → let out = get_or outputs 0 0 in
      let (packet, f') = push_outputs outputs f in
      let probe : ℕ = if test_bit out 31 then 8 else 16 in
      (packet.value ≡ out % 2147483648)
      × (packet.probe_irq_mask ≡ probe)
      × (f'.last_probe_mask ≡ probe)
      × ((sync_inputs value inputs f').0
          ≡ (if f.pending || not (probe == f.last_probe_mask) then set inputs 2 value else inputs))
unfolding push_outputs sync_inputs
push_outputs_lem outputs inputs value f h = (omega arith, ground arith, ground arith, ground arith)
