-- ===== src/Driver/PicoBob.antt =====
-- hal-driver/picobob-dlx.c: the driver for the older board, a copy of flexi-ninja-eth.c for a board
-- with no expander and no probe to select. Its state is that of the Ethernet driver with none of
-- their pins.
use flexi_ninja.Prelude.{ℕ, refl, Bool, false, Option, List, [], map, arith, u32, ◌≡◌, ◌∷◌}
use flexi_ninja.Transmission.Packet.{PcPico, seal_pc_pico}
use flexi_ninja.Driver.Arith.{Arith}
use flexi_ninja.Driver.Io.{
  input_bit, with_not, gather_outputs, gather_ex, bb_hal_process_send, bb_hal_process_recv,
}
use flexi_ninja.Driver.Send.{Module, refresh_timing}
use flexi_ninja.Driver.Recv.{Link}
use flexi_ninja.Driver.Eth.{Datagram, eth_packet, eth_process_send, eth_process_recv}
use flexi_ninja.Driver.Setup.{HalCall, Names, bb_hal_setup_pins}

-- `bb_hal_process_recv`: the HAL pins of the inputs.
unfoldable picobob_inputs : List ℕ → List ℕ → List (Bool × Bool)
picobob_inputs input_pins inputs = map (λ gpio. with_not (input_bit inputs gpio)) input_pins

-- `bb_hal_process_send`: the two words of outputs.
unfoldable picobob_outputs : List (ℕ × Bool) → List ℕ
picobob_outputs output_pins = let outs = gather_outputs output_pins 0 (0, 0) in outs.0 ∷ outs.1 ∷ []

-- `bb_hal_setup_pins`
unfoldable picobob_setup_pins : Names → Option (List HalCall)
picobob_setup_pins n = bb_hal_setup_pins (record n { ex_inputs = []; ex_outputs = [] })

module _ (ar : Arith) where
  abbrev without_expander : Module ar → Module ar
  without_expander d = record d { ex_output_pins = []; probe_select = false }

  -- `udp_io_process_send`
  unfoldable picobob_process_send : ℕ → Module ar → Module ar × Option PcPico
  picobob_process_send period d = eth_process_send ar period (without_expander d)

  -- `udp_io_process_recv`
  unfoldable picobob_process_recv : ℕ → Bool → Option Datagram → Link ar → Link ar
  picobob_process_recv remote debug_mode got l =
      eth_process_recv ar remote debug_mode got (record l { ex_input_pins = [] })

  -- With no expander a packet of the Ethernet driver has the outputs of this one.
  eth_packet-picobob_outputs :
      (period : ℕ) (d : Module ar)
      → (eth_packet ar period (without_expander d)).1.outputs
        ≡ map u32 (picobob_outputs d.output_pins)
  unfolding eth_packet picobob_outputs bb_hal_process_send gather_ex seal_pc_pico refresh_timing
  eth_packet-picobob_outputs period d = ground arith

  -- And it takes the same inputs.
  bb_hal_process_recv-picobob_inputs :
      (input_pins inputs : List ℕ)
      → bb_hal_process_recv input_pins [] inputs ≡ (picobob_inputs input_pins inputs, [])
  unfolding bb_hal_process_recv picobob_inputs
  bb_hal_process_recv-picobob_inputs input_pins inputs = refl
