-- ===== src/Firmware/Server.antt =====
-- firmware/src/main.c, `handle_udp`: the rounds of core 0, which serve a request to save, take a
-- packet over SPI (RASPBERRY_PI_SPI) or UDP, handle it, answer it, and stop for core 1 when that
-- writes to the flash. The server keeps the bytes of `rx_buffer`; `head`, `payload` and the
-- arguments of the exchange are what the hardware gives in a round.
pub mod Replies
use flexi_ninja.Prelude.{ℕ, Bool, true, false, Option, none, some, List, [], take, u8, ◌+◌, ◌∷◌}
use flexi_ninja.Prelude.{◌==◌, if◌then◌else◌}
use flexi_ninja.Transmission.Packet.{
  PcPico, pc_pico_of_bytes, pico_pc_bytes, pc_pico_size, pico_pc_size,
}
use flexi_ninja.Firmware.HandleData.{Config, Board, Reads, handle_data}
use flexi_ninja.Firmware.FlashConfig
use flexi_ninja.Firmware.FlashConfig.{
  Store, is_restarted, consume_save_config_request, save_config_to_flash,
}
use flexi_ninja.Firmware.Transport.{
  Spi, spi_read_fulldup, wait_packet, Received, recvfrom, SendFlag, wait_sent, Socket,
  address_socket,
}

pub record Server : Type 0 where
  pub board : Board
  pub store : Store
  pub rx : List ℕ
  pub spi_rx_frame : List ℕ
  pub socket : Socket
  pub source : List ℕ × ℕ

-- `rx_buffer` handled, and `rx_counter += 1`.
unfoldable pub handle_packet : Config → Reads → Server → Server
handle_packet c r s =
    let b = (handle_data c r (pc_pico_of_bytes s.rx) s.board).0 in
    record s { board = record b { rx_counter = u8 (b.rx_counter + 1) } }

-- What the SPI hardware does in an exchange.
pub record SpiReads : Type 0 where
  pub early : ℕ → Bool
  pub readable : ℕ → Bool
  pub writable : ℕ → Bool
  pub incoming : ℕ → ℕ
  pub polls : ℕ

-- What is done with an exchange that ended.
unfoldable pub finish_spi : Config → Reads → Server → Option Spi → Option (Server × List ℕ)
finish_spi c r s none = none
finish_spi c r s (some x) =
    let taken : Server = record s {
      spi_rx_frame = x.received;
      rx = take pc_pico_size x.received;
    } in
    some (handle_packet c r taken, x.sent)

-- A packet over SPI, and the bytes sent meanwhile; `none` when the exchange does not end.
unfoldable pub serve_spi : Config → Reads → SpiReads → Server → Option (Server × List ℕ)
serve_spi c r io s = finish_spi c r s (
    spi_read_fulldup pico_pc_size (pico_pc_bytes s.board.tx) io.incoming io.early io.readable
      io.writable io.polls s.spi_rx_frame)

-- What the W5500 gives for a datagram, its size register and the state of the socket before it, and
-- its interrupt register after the reply.
pub record UdpReads : Type 0 where
  pub arrived : ℕ → ℕ
  pub closed : ℕ → Bool
  pub waits : ℕ
  pub head : List ℕ
  pub payload : List ℕ
  pub flag : ℕ → SendFlag
  pub polls : ℕ

-- `_sendto` of a reply, with how its wait ends; a timeout is let be.
unfoldable pub send_reply : Server → List ℕ → Option Bool → Option (Server × List ℕ)
send_reply s reply none = none
send_reply s reply (some ok) = some (s, reply)

-- A datagram that is there, and the reply sent, if there is one; `none` when the reply does not go
-- out.
unfoldable pub answer_udp :
    Config → Reads → Option Bool → Received → Server → Option (Server × List ℕ)
answer_udp c r wait got s =
    let taken : Server = record s { rx = got.buffer; source = (got.address, got.port) } in
    let handled = handle_packet c r taken in
    let addressed : Server = record handled {
      socket = address_socket got.address got.port handled.socket;
    } in
    if got.length_read == pc_pico_size
    then if handled.board.checksum_error
      then some (handled, [])
      else send_reply addressed (pico_pc_bytes handled.board.tx) wait
    else some (taken, [])

-- How the wait for a datagram ended. `SOCKERR_SOCKCLOSED` is no length of a packet, so that a closed
-- socket is let be.
unfoldable pub serve_arrived :
    Config → Reads → UdpReads → Server → Option Bool → Option (Server × List ℕ)
serve_arrived c r io s none = none
serve_arrived c r io s (some false) = some (s, [])
serve_arrived c r io s (some true) =
    answer_udp c r (wait_sent io.flag 0 io.polls) (recvfrom io.head io.payload pc_pico_size s.rx) s

unfoldable pub serve_udp : Config → Reads → UdpReads → Server → Option (Server × List ℕ)
serve_udp c r io s = serve_arrived c r io s (wait_packet io.arrived io.closed 0 io.waits)

-- `core0_wait`: whether core 1 takes the answer in time, and the token it gives back in time. The
-- result is the tokens sent, and whether the board restarts.
unfoldable pub core0_wait : Bool → Option ℕ → List ℕ × Bool
core0_wait ready token =
    if ready
    then (0xFEEDFACE ∷ [], elim token [ none ↦ false | some signal ↦ signal == 0xDEADBEEF ])
    else ([], false)

-- The token of core 1 at the end of a round, and the answer to it.
unfoldable pub answer_core1 : Option ℕ → Bool → Option ℕ → List ℕ × Bool
answer_core1 none ready token = ([], false)
answer_core1 (some signal) ready token =
    let (sent, restart) = core0_wait ready token in
    if signal == 0xCAFEBABE then (sent, restart) else ([], false)

module _ (erase : List ℕ → List ℕ) (program : List ℕ → List ℕ → List ℕ) where
  -- A request to save, at the start of a round; whether the board restarts.
  unfoldable pub serve_save : FlashConfig.Call → Server → Server × Bool
  serve_save call s =
      let (asked, store) = consume_save_config_request s.store in
      let (saved, outcome) = save_config_to_flash erase program call store in
      if asked
      then (record s { store = saved }, is_restarted outcome)
      else (record s { store = store }, false)

  -- A round, less the answer to core 1: `serve` is the transport of the build, `asked` the level of
  -- GPIO_INT.
  unfoldable pub round :
      (Server → Option (Server × List ℕ))
      → FlashConfig.Call
      → Bool
      → Server
      → Option (Server × List ℕ × Bool)
  round serve call asked s =
      let (s1, restart) = serve_save call s in
      if restart
      then some (s1, [], true)
      else if asked
      then elim (serve s1) [ none ↦ none | some (s2, sent) ↦ some (s2, sent, false) ]
      else some (s1, [], false)
