-- ===== src/Firmware/Boot/First.antt =====
-- The board as it starts keeps to its types, and its first report carries its checksum.
use flexi_ninja.Prelude.{true, arith, ◌≡◌}
use flexi_ninja.Transmission.Packet.{tx_checksum_ok}
use flexi_ninja.Transmission.Layout.{IsPicoPc}
use flexi_ninja.Transmission.Layout.Seal.{tx_checksum_ok-seal, seal_pico_pc-IsPicoPc}
use flexi_ninja.Firmware.IrqEncoder.{IrqEncoders}
use flexi_ninja.Firmware.HandleData.Shape.{IsBoard, AllWords}
use flexi_ninja.Firmware.Boot.{EncoderBoot, zero_report, boot_board}

zero_report-IsPicoPc : IsPicoPc zero_report
zero_report-IsPicoPc = record {
  encoder_counter = omega arith;
  encoder_velocity = omega arith;
  encoder_timestamp = omega arith;
  interrupt_data = omega arith;
  stepgen_position = omega arith;
  stepgen_overflow = omega arith;
  inputs = omega arith;
  jitter = omega arith;
  step_ring_fill = omega arith;
  step_ring_status = omega arith;
  packet_id = omega arith;
  checksum = omega arith;
}

pub boot_board-IsBoard :
    (irq : IrqEncoders) (st : EncoderBoot)
    → AllWords irq.counter
    → IsBoard (boot_board irq st) × (tx_checksum_ok (boot_board irq st).tx ≡ true)
unfolding boot_board
boot_board-IsBoard irq st words = (
  record {
    rx_counter = omega arith;
    position = omega arith;
    overflow = omega arith;
    counter = words;
    index_reset_flags = omega arith;
    tx = seal_pico_pc-IsPicoPc zero_report zero_report-IsPicoPc;
  },
  tx_checksum_ok-seal zero_report zero_report-IsPicoPc,
)
