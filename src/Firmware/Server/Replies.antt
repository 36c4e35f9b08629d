-- ===== src/Firmware/Server/Replies.antt =====
-- What the board handles is what the PC sent, and when it answers.
use flexi_ninja.Prelude.{ℕ, zero, suc, refl, sym, ap, Bool, true, false, Option, some, List, []}
use flexi_ninja.Prelude.{arith, length, get_or, take, drop, length-take, u8, eq_of_get_or}
use flexi_ninja.Prelude.{get_or-take, ◌+◌, ◌*◌, ◌≤◌, ◌<◌, ◌≡◌, ◌∙◌, ◌∷◌, ◌++◌, if◌then◌else◌}
use flexi_ninja.Transmission.Packet.{PcPico, pc_pico_of_bytes, pc_pico_bytes, pico_pc_bytes}
use flexi_ninja.Transmission.Layout.{IsPcPico, pc_pico_of_bytes-bytes, length-pc_pico_bytes}
use flexi_ninja.Firmware.HandleData.{Config, Board, Reads, handle_data}
use flexi_ninja.Firmware.Transport.{
  Received, recvfrom, overwrite, wait_sent, wait_packet, address_socket,
}
use mathlib.Core.Path.{subst}
use flexi_ninja.Firmware.Transport.Whole.{AllSent, spi_read_fulldup-AllSent}
use flexi_ninja.Firmware.Transport.Exchange.{ready, spi_read_fulldup-Done}
use flexi_ninja.Firmware.Server.{
  Server, SpiReads, UdpReads, handle_packet, finish_spi, serve_spi, send_reply, answer_udp,
  serve_arrived, serve_udp,
}

-- The board after a packet: handled, and `rx_counter` past it.
abbrev pub after_packet : Config → Reads → PcPico → Board → Board
after_packet c r p b =
    let b1 = (handle_data c r p b).0 in record b1 { rx_counter = u8 (b1.rx_counter + 1) }

-- Bytes that agree with a packet's are its bytes.
frame_packet :
    (p : PcPico) (frame : List ℕ)
    → IsPcPico p
    → 47 ≤ length frame
    → ((i : ℕ) → i < 47 → get_or frame i 0 ≡ get_or (pc_pico_bytes p) i 0)
    → pc_pico_of_bytes (take 47 frame) ≡ p
frame_packet p frame valid long same =
    let len : length (take 47 frame) ≡ 47 = omega (arith, length-take 47 frame, long) in
    ap pc_pico_of_bytes (
      eq_of_get_or (take 47 frame) (pc_pico_bytes p) 0 (len ∙ sym (length-pc_pico_bytes p valid))
        (λ i hi.
          let below : i < 47 = omega (arith, hi, len) in
          get_or-take 47 i frame 0 below ∙ same i below))
    ∙ pc_pico_of_bytes-bytes p valid

-- A packet that the PC clocks in over SPI: the round ends when all its bytes could be read, the
-- board is as if `handle_data` had got that packet, and the bytes that went back meanwhile are the
-- beginning of the report as it was before the packet. The frame buffer keeps its length, and the
-- whole report goes back if the transmit FIFO has room at every poll.
pub serve_spi-packet :
    (c : Config) (r : Reads) (io : SpiReads) (p : PcPico) (s : Server)
    → IsPcPico p
    → ((i : ℕ) → i < 47 → u8 (io.incoming i) ≡ get_or (pc_pico_bytes p) i 0)
    → length s.spi_rx_frame ≡ 74
    → length (pico_pc_bytes s.board.tx) ≡ 74
    → 74 ≤ ready io.readable 0 io.polls
    → (s' : Server) × (n : ℕ) × (serve_spi c r io s ≡ some (s', take n (pico_pc_bytes s.board.tx)))
      × (n ≤ 74)
      × (s'.board ≡ after_packet c r p s.board)
      × (length s'.spi_rx_frame ≡ 74)
      × (((j : ℕ) → io.writable j ≡ true) → n ≡ 74)
unfolding serve_spi finish_spi handle_packet
serve_spi-packet c r io p s valid clocked room report enough =
    let (x, e, all, sent, few, kept, bytes) =
      spi_read_fulldup-Done 74 (pico_pc_bytes s.board.tx) io.incoming report io.early io.readable
        io.writable io.polls s.spi_rx_frame room enough in
    let taken : Server = record s { spi_rx_frame = x.received; rx = take 47 x.received } in
    let packet : pc_pico_of_bytes (take 47 x.received) ≡ p =
      frame_packet p x.received valid (omega (arith, kept))
        (λ i hi. bytes i (omega (arith, hi)) ∙ clocked i hi) in
    (
      handle_packet c r taken,
      x.tx_done,
      ap (finish_spi c r s) e ∙ ap (λ b. some (handle_packet c r taken, b)) sent,
      few,
      ap (λ q. after_packet c r q s.board) packet,
      kept,
      λ free. subst (AllSent 74) e (
          spi_read_fulldup-AllSent 74 (pico_pc_bytes s.board.tx) io.incoming io.early io.readable
            io.writable io.polls s.spi_rx_frame free),
    )

pub take_all : (n : ℕ) (xs : List ℕ) → length xs ≡ n → take n xs ≡ xs
take_all zero [] h = refl
take_all (suc n) [] h = refl
take_all zero (x ∷ xs) h = absurd (omega (arith, h))
take_all (suc n) (x ∷ xs) h = ap (λ r. x ∷ r) (take_all n xs (omega (arith, h)))

drop_all : (n : ℕ) (xs : List ℕ) → length xs ≡ n → drop n xs ≡ []
drop_all zero [] h = refl
drop_all (suc n) [] h = refl
drop_all zero (x ∷ xs) h = absurd (omega (arith, h))
drop_all (suc n) (x ∷ xs) h = drop_all n xs (omega (arith, h))

append_nil : (xs : List ℕ) → xs ++ [] ≡ xs
append_nil [] = refl
append_nil (x ∷ xs) = ap (λ r. x ∷ r) (append_nil xs)

overwrite_all :
    (n : ℕ) (new old : List ℕ) → length new ≡ n → length old ≡ n → overwrite new old ≡ new
unfolding overwrite
overwrite_all n new old hn ho =
    ap (λ (k : ℕ). new ++ drop k old) hn ∙ ap (λ r. new ++ r) (drop_all n old ho) ∙ append_nil new

-- A datagram of a packet's size is taken whole.
recvfrom_whole :
    (head payload buffer : List ℕ)
    → length payload ≡ 47
    → length buffer ≡ 47
    → get_or head 6 0 * 256 + get_or head 7 0 ≡ 47
    → recvfrom head payload 47 buffer ≡ record {
      length_read = 47;
      buffer = payload;
      address = take 4 head;
      port = get_or head 4 0 * 256 + get_or head 5 0;
    }
unfolding recvfrom
recvfrom_whole head payload buffer hp hb size =
    let whole =
      ap (λ r. overwrite r buffer) (take_all 47 payload hp)
      ∙ overwrite_all 47 payload buffer hp hb in
    rw (size, whole) refl

-- Either way of ending a round with a packet leaves the board of the packet.
reply_or_not :
    (e : Bool) (wait : Option Bool) (ok : Bool) (handled addressed : Server) (reply : List ℕ)
    → wait ≡ some ok
    → addressed.board ≡ handled.board
    → (s' : Server) × ((if e then some (handled, []) else send_reply addressed reply wait)
        ≡ some (s', if e then [] else reply))
      × (s'.board ≡ handled.board)
unfolding send_reply
reply_or_not true wait ok handled addressed reply h same = (handled, refl, refl)
reply_or_not false wait ok handled addressed reply h same = (addressed, rw h refl, same)

-- A datagram with a packet: the board is as if `handle_data` had got it, and it answers with the new
-- report, unless the packet leaves it in error; then it is silent.
serve_udp-packet :
    (c : Config) (r : Reads) (io : UdpReads) (p : PcPico) (s : Server) (ok : Bool)
    → IsPcPico p
    → wait_packet io.arrived io.closed 0 io.waits ≡ some true
    → io.payload ≡ pc_pico_bytes p
    → get_or io.head 6 0 * 256 + get_or io.head 7 0 ≡ 47
    → length s.rx ≡ 47
    → wait_sent io.flag 0 io.polls ≡ some ok
    → let b' = after_packet c r p s.board in
      (s' : Server) × (serve_udp c r io s
        ≡ some (s', if b'.checksum_error then [] else pico_pc_bytes b'.tx))
      × (s'.board ≡ b')
unfolding serve_udp serve_arrived answer_udp handle_packet
serve_udp-packet c r io p s ok valid there content size room out =
    let len : length io.payload ≡ 47 = ap length content ∙ length-pc_pico_bytes p valid in
    let packet : pc_pico_of_bytes io.payload ≡ p =
      ap pc_pico_of_bytes content ∙ pc_pico_of_bytes-bytes p valid in
    let got : Received = record {
      length_read = 47;
      buffer = io.payload;
      address = take 4 io.head;
      port = get_or io.head 4 0 * 256 + get_or io.head 5 0;
    } in
    let taken : Server = record s { rx = got.buffer; source = (got.address, got.port) } in
    let handled = handle_packet c r taken in
    let addressed : Server = record handled {
      socket = address_socket got.address got.port handled.socket;
    } in
    let b = handled.board in
    let same : b ≡ after_packet c r p s.board = ap (λ q. after_packet c r q s.board) packet in
    let (s', e, kept) =
      reply_or_not b.checksum_error (wait_sent io.flag 0 io.polls) ok handled addressed
        (pico_pc_bytes b.tx) out refl in
    let reply =
      ap (λ (d : Board). some (s', if d.checksum_error then [] else pico_pc_bytes d.tx)) same in
    (
      s',
      ap (serve_arrived c r io s) there
          ∙ ap (λ g. answer_udp c r (wait_sent io.flag 0 io.polls) g s)
              (recvfrom_whole io.head io.payload s.rx len room size)
          ∙ e
          ∙ reply,
      kept ∙ same,
    )
