-- ===== src/Firmware/HandleData/Report.antt =====
-- The report that `handle_data` leaves behind: its fields fit, and it carries its checksum.
use flexi_ninja.Prelude.{ℕ, zero, suc, refl, ap, true, List, arith, ℕ_discrete, length, get_or}
use flexi_ninja.Prelude.{set, length-set, get_or-set_self, get_or-set_ne, ◌+◌, ◌≤◌, ◌<◌, ◌≡◌, ◌∙◌}
use mathlib.Core.Path.{subst}
use flexi_ninja.Transmission.Packet.{PcPico, encoders, stepgens, seal_pico_pc, tx_checksum_ok}
use flexi_ninja.Transmission.Layout.{IsPcPico}
use flexi_ninja.Firmware.FlexGpio.{push_outputs}
use flexi_ninja.Firmware.HandleData.Shape.{
  IsBoard, IsReads, actuate-IsBoard, update_encoders-IsBoard,
}
use flexi_ninja.Firmware.HandleData.Check.{handle_data-Kept}
use flexi_ninja.Firmware.HandleData.{
  Config, Board, Reads, check_packet, actuate, update_encoders, take_index_flags, sync_io,
  copy_positions, finish_tx, stamp, handle_data,
}
use flexi_ninja.Firmware.HandleData.Fields.{
  take_index_flags-IsBoard, sync_io-IsBoard, stamp-IsBoard, check_packet-IsBoard, finish_tx-IsBoard,
}

copy_positions_below :
    (n i k : ℕ) (position tx : List ℕ)
    → k < i
    → get_or (copy_positions n i position tx) k 0 ≡ get_or tx k 0
unfolding copy_positions
copy_positions_below zero i k position tx h = refl
copy_positions_below (suc n) i k position tx h =
    copy_positions_below n (i + 1) k position _ (omega (arith, h))
    ∙ get_or-set_ne tx i k (get_or position i 0) 0 (omega (arith, h))

copy_positions_at :
    (n i k : ℕ) (position tx : List ℕ)
    → i ≤ k
    → k < i + n
    → k < length tx
    → get_or (copy_positions n i position tx) k 0 ≡ get_or position k 0
unfolding copy_positions
copy_positions_at zero i k position tx low high room = absurd (omega (arith, low, high))
copy_positions_at (suc n) i k position tx low high room =
    let room' : k < length (set tx i (get_or position i 0)) =
      omega (arith, room, length-set tx i (get_or position i 0)) in
    elim (ℕ_discrete i k) [
      | yes e ↦
          copy_positions_below n (i + 1) k position _ (omega (arith, e))
          ∙ ap (λ (j : ℕ). get_or (set tx j (get_or position j 0)) k 0) e
          ∙ get_or-set_self tx k (get_or position k 0) 0 room
      | no ne ↦
          copy_positions_at n (i + 1) k position _ (omega (arith, ne, low)) (omega (arith, high))
            room'
    ]

-- The board before `finish_tx`.
prepared : Config → Reads → PcPico → Board → Board
prepared c r p b =
    let b1 = (actuate c r p (check_packet p (stamp r b))).0 in
    let b3 = sync_io r (take_index_flags (update_encoders c r p encoders 0 b1)) in
    record b3 { flex = (push_outputs p.outputs b3.flex).1 }

finished :
    (c : Config) (r : Reads) (p : PcPico) (b : Board)
    → finish_tx (prepared c r p b) ≡ (handle_data c r p b).0
unfolding handle_data prepared
finished c r p b = refl

prepared-IsBoard :
    (c : Config) (r : Reads) (p : PcPico) (b : Board)
    → IsReads r
    → IsPcPico p
    → IsBoard b
    → IsBoard (prepared c r p b)
unfolding prepared
prepared-IsBoard c r p b clean v h =
    let b1 =
      actuate-IsBoard c r p clean _ (check_packet-IsBoard p _ v (stamp-IsBoard r clean b h)) in
    let b2 = update_encoders-IsBoard c r p clean encoders 0 _ b1 in
    let b3 = sync_io-IsBoard r clean _ (take_index_flags-IsBoard r clean _ b2) in
    record {
      rx_counter = b3.rx_counter;
      position = b3.position;
      overflow = b3.overflow;
      counter = b3.counter;
      index_reset_flags = b3.index_reset_flags;
      tx = b3.tx;
    }

-- A sealed report with the counters of the stepgens.
abbrev Tells : ℕ → Board → Type 0
Tells id b =
    IsBoard b
    × (tx_checksum_ok b.tx ≡ true)
    × (b.tx.packet_id ≡ id)
    × ((i : ℕ) → i < 6 → get_or b.tx.stepgen_position i 0 ≡ get_or b.steps.position i 0)

finish_tx-Tells : (b : Board) → IsBoard b → Tells b.rx_counter (finish_tx b)
unfolding finish_tx seal_pico_pc
finish_tx-Tells b h =
    let sealed = finish_tx-IsBoard b h in
    (
      sealed.0,
      sealed.1,
      refl,
      λ i hi.
          copy_positions_at stepgens 0 i b.steps.position b.tx.stepgen_position (omega arith) hi
            (omega (arith, hi, h.tx.stepgen_position.0)),
    )

actuate-rx_counter :
    (c : Config) (r : Reads) (p : PcPico) (b : Board)
    → (actuate c r p b).0.rx_counter ≡ b.rx_counter
unfolding actuate
actuate-rx_counter c r p b = ground arith

prepared-rx_counter :
    (c : Config) (r : Reads) (p : PcPico) (b : Board) → (prepared c r p b).rx_counter ≡ p.packet_id
unfolding finish_tx check_packet
prepared-rx_counter c r p b =
    ap (λ (x : Board). x.rx_counter) (finished c r p b)
    ∙ (handle_data-Kept c r p b).rx_counter
    ∙ actuate-rx_counter c r p (check_packet p (stamp r b))

-- Whatever packet arrives, good or bad, what the report is made from and the report itself keep to
-- their types, the report passes the check of the driver, names the packet
-- that it answers, and carries the counters of the stepgens as they are after it.
pub handle_data-IsBoard :
    (c : Config) (r : Reads) (p : PcPico) (b : Board)
    → IsReads r
    → IsPcPico p
    → IsBoard b
    → let b' = (handle_data c r p b).0 in
      IsBoard b'
      × (tx_checksum_ok b'.tx ≡ true)
      × (b'.tx.packet_id ≡ p.packet_id)
      × ((i : ℕ) → i < 6 → get_or b'.tx.stepgen_position i 0 ≡ get_or b'.steps.position i 0)
handle_data-IsBoard c r p b clean v h =
    let told = finish_tx-Tells (prepared c r p b) (prepared-IsBoard c r p b clean v h) in
    subst (λ id. Tells id (handle_data c r p b).0) (prepared-rx_counter c r p b)
      (subst (Tells (prepared c r p b).rx_counter) (finished c r p b) told)
