-- ===== src/Firmware/HandleData/Fields.antt =====
-- The steps of `handle_data` keep the state of the board in its types, and the last one seals the
-- report.
use flexi_ninja.Prelude.{ℕ, zero, suc, true, List, arith, word, ◌+◌, ◌/◌, ◌%◌, ◌<◌, ◌≡◌}
use flexi_ninja.Transmission.Packet.{PcPico, PicoPc, stepgens, tx_checksum_ok}
use flexi_ninja.Transmission.Layout.{IsPcPico, IsPicoPc, Words}
use flexi_ninja.Transmission.Layout.Seal.{tx_checksum_ok-seal, seal_pico_pc-IsPicoPc}
use flexi_ninja.Firmware.FlexGpio.{FlexGpio, sync_inputs}
use flexi_ninja.Firmware.HandleData.Shape.{IsBoard, IsReads, set-Words, word_at, either}
use flexi_ninja.Firmware.HandleData.{
  Board, Reads, check_packet, take_index_flags, sync_io, copy_positions, finish_tx, stamp,
}

copy_positions-Words :
    (n i : ℕ) (position tx : List ℕ)
    → Words 6 position
    → Words 6 tx
    → Words 6 (copy_positions n i position tx)
unfolding copy_positions
copy_positions-Words zero i position tx h k = k
copy_positions-Words (suc n) i position tx h k =
    copy_positions-Words n (i + 1) position _ h (set-Words 6 tx i _ k (word_at position i h.1))

module _ (r : Reads) (clean : IsReads r) where
  pub take_index_flags-IsBoard : (b : Board) → IsBoard b → IsBoard (take_index_flags b)
  unfolding take_index_flags
  take_index_flags-IsBoard b h = record {
    rx_counter = h.rx_counter;
    position = h.position;
    overflow = h.overflow;
    counter = h.counter;
    index_reset_flags = omega arith;
    tx = record {
      encoder_counter = h.tx.encoder_counter;
      encoder_velocity = h.tx.encoder_velocity;
      encoder_timestamp = h.tx.encoder_timestamp;
      interrupt_data = h.index_reset_flags;
      stepgen_position = h.tx.stepgen_position;
      stepgen_overflow = h.tx.stepgen_overflow;
      inputs = h.tx.inputs;
      jitter = h.tx.jitter;
      step_ring_fill = h.tx.step_ring_fill;
      step_ring_status = h.tx.step_ring_status;
      packet_id = h.tx.packet_id;
      checksum = h.tx.checksum;
    };
  }

  sync_inputs-Words :
      (inputs : List ℕ) (f : FlexGpio)
      → Words 4 inputs
      → Words 4 (sync_inputs r.flex_value inputs f).0
  unfolding sync_inputs
  sync_inputs-Words inputs f h =
      either {A = List ℕ × FlexGpio} (λ x. Words 4 x.0) f.pending _ _
        (set-Words 4 inputs 2 r.flex_value h clean.flex_value) h

  pub sync_io-IsBoard : (b : Board) → IsBoard b → IsBoard (sync_io r b)
  unfolding sync_io
  sync_io-IsBoard b h =
      let high : r.pins_high / word < word = omega (arith, clean.pins_high) in
      let synced = sync_inputs-Words b.tx.inputs b.flex h.tx.inputs in
      let low = set-Words 4 _ 0 (r.pins_low % word) synced (omega arith) in
      record {
        rx_counter = h.rx_counter;
        position = h.position;
        overflow = h.overflow;
        counter = h.counter;
        index_reset_flags = h.index_reset_flags;
        tx = record {
          encoder_counter = h.tx.encoder_counter;
          encoder_velocity = h.tx.encoder_velocity;
          encoder_timestamp = h.tx.encoder_timestamp;
          interrupt_data = h.tx.interrupt_data;
          stepgen_position = h.tx.stepgen_position;
          stepgen_overflow = h.tx.stepgen_overflow;
          inputs = set-Words 4 _ 1 (r.pins_high / word) low high;
          jitter = h.tx.jitter;
          step_ring_fill = h.tx.step_ring_fill;
          step_ring_status = h.tx.step_ring_status;
          packet_id = h.tx.packet_id;
          checksum = h.tx.checksum;
        };
      }

  pub stamp-IsBoard : (b : Board) → IsBoard b → IsBoard (stamp r b)
  unfolding stamp
  stamp-IsBoard b h = record {
    rx_counter = h.rx_counter;
    position = h.position;
    overflow = h.overflow;
    counter = h.counter;
    index_reset_flags = h.index_reset_flags;
    tx = record {
      encoder_counter = h.tx.encoder_counter;
      encoder_velocity = h.tx.encoder_velocity;
      encoder_timestamp = h.tx.encoder_timestamp;
      interrupt_data = h.tx.interrupt_data;
      stepgen_position = h.tx.stepgen_position;
      stepgen_overflow = h.tx.stepgen_overflow;
      inputs = h.tx.inputs;
      jitter = omega arith;
      step_ring_fill = h.tx.step_ring_fill;
      step_ring_status = h.tx.step_ring_status;
      packet_id = h.tx.packet_id;
      checksum = h.tx.checksum;
    };
  }

pub check_packet-IsBoard :
    (p : PcPico) (b : Board) → IsPcPico p → IsBoard b → IsBoard (check_packet p b)
unfolding check_packet
check_packet-IsBoard p b v h = record {
  rx_counter = v.packet_id;
  position = h.position;
  overflow = h.overflow;
  counter = h.counter;
  index_reset_flags = h.index_reset_flags;
  tx = h.tx;
}

-- What `finish_tx` seals.
unsealed : Board → PicoPc
unsealed b = record (b.tx) {
  step_ring_fill = 0;
  step_ring_status = 0;
  stepgen_position = copy_positions stepgens 0 b.steps.position b.tx.stepgen_position;
  stepgen_overflow = b.steps.overflow;
  packet_id = b.rx_counter;
}

unsealed-IsPicoPc : (b : Board) → IsBoard b → IsPicoPc (unsealed b)
unfolding unsealed
unsealed-IsPicoPc b h = record {
  encoder_counter = h.tx.encoder_counter;
  encoder_velocity = h.tx.encoder_velocity;
  encoder_timestamp = h.tx.encoder_timestamp;
  interrupt_data = h.tx.interrupt_data;
  stepgen_position =
      copy_positions-Words stepgens 0 b.steps.position b.tx.stepgen_position h.position
        h.tx.stepgen_position;
  stepgen_overflow = h.overflow;
  inputs = h.tx.inputs;
  jitter = h.tx.jitter;
  step_ring_fill = omega arith;
  step_ring_status = omega arith;
  packet_id = h.rx_counter;
  checksum = h.tx.checksum;
}

pub finish_tx-IsBoard :
    (b : Board) → IsBoard b → IsBoard (finish_tx b) × (tx_checksum_ok (finish_tx b).tx ≡ true)
unfolding finish_tx unsealed
finish_tx-IsBoard b h =
    let w = unsealed-IsPicoPc b h in
    (
      record {
        rx_counter = h.rx_counter;
        position = h.position;
        overflow = omega arith;
        counter = h.counter;
        index_reset_flags = h.index_reset_flags;
        tx = seal_pico_pc-IsPicoPc (unsealed b) w;
      },
      tx_checksum_ok-seal (unsealed b) w,
    )
