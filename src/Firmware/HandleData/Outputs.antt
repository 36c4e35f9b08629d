-- ===== src/Firmware/HandleData/Outputs.antt =====
-- The output pins of a packet, which no check guards.
use flexi_ninja.Prelude.{[], get_or, word, test_bit, ◌%◌, ◌<◌, ◌≡◌, if◌then◌else◌}
use flexi_ninja.Transmission.Packet.{PcPico, encoders}
use flexi_ninja.Firmware.FlexGpio.Laws.{push_outputs_lem}
use flexi_ninja.Firmware.HandleData.{
  Config, Board, Reads, check_packet, actuate, update_encoders, take_index_flags, sync_io, stamp,
  handle_data,
}

-- The outputs follow every packet, also one with a wrong checksum and one that comes while the board
-- is in error: the expander is sent the low 31 output bits of the packet, and the probe that bit 31
-- selects.
pub handle_data-outputs :
    (c : Config) (r : Reads) (p : PcPico) (b : Board)
    → get_or p.outputs 0 0 < word
    → let sent = (handle_data c r p b).1.flex in
      (sent.value ≡ get_or p.outputs 0 0 % 2147483648)
      × (sent.probe_irq_mask ≡ (if test_bit (get_or p.outputs 0 0) 31 then 8 else 16))
unfolding handle_data
handle_data-outputs c r p b h =
    let b1 = (actuate c r p (check_packet p (stamp r b))).0 in
    let b3 = sync_io r (take_index_flags (update_encoders c r p encoders 0 b1)) in
    let sent = push_outputs_lem p.outputs [] 0 b3.flex h in (sent.0, sent.1)
