-- ===== src/Firmware/Transport.antt =====
-- firmware/src/main.c: how packets come in and go out, `spi_read_fulldup` over SPI, `_recvfrom` and
-- `_sendto` over the W5500's socket. The hardware answers through arguments: `readable k` and
-- `writable k` are the FIFO flags at poll `k`, `incoming n` the `n`-th byte read.
pub mod Exchange
pub mod Whole
use flexi_ninja.Prelude.{ℕ, zero, suc, Bool, true, false, not, Option, none, some, List, [], ltb}
use flexi_ninja.Prelude.{length, get_or, set, take, drop, u8, ◌+◌, ◌*◌, ◌&&◌, ◌∷◌, ◌++◌, ◌==◌}
use flexi_ninja.Prelude.{if◌then◌else◌}

-- `sBuf` as sent so far, in order, and `pBuf`, with `rx_done`.
pub record Spi : Type 0 where
  pub tx_done : ℕ
  pub sent : List ℕ
  pub rx_done : ℕ
  pub received : List ℕ

module _ (len : ℕ) (out : List ℕ) (incoming : ℕ → ℕ) where
  -- A byte to the FIFO, if there is one left and room.
  unfoldable pub offer : Bool → Spi → Spi
  offer writable s =
      if ltb s.tx_done len && writable
      then record s { tx_done = s.tx_done + 1; sent = s.sent ++ (get_or out s.tx_done 0 ∷ []) }
      else s

  unfoldable pub accept : Bool → Spi → Spi
  accept readable s =
      if readable
      then record s {
        rx_done = s.rx_done + 1;
        received = set s.received s.rx_done (u8 (incoming s.rx_done));
      }
      else s

  -- The first loop, which fills the FIFO; `n` is at least the bytes left.
  unfoldable pub prefill : (ℕ → Bool) → ℕ → ℕ → Spi → Spi
  prefill writable k zero s = s
  prefill writable k (suc n) s =
      let more = prefill writable (k + 1) n (offer (writable k) s) in
      if ltb s.tx_done len && writable k then more else s

  -- The second loop, from poll `k` on, `n` of them at most.
  unfoldable pub exchange_from : (ℕ → Bool) → (ℕ → Bool) → ℕ → ℕ → Spi → Option Spi
  exchange_from readable writable k zero s = if ltb s.rx_done len then none else some s
  exchange_from readable writable k (suc n) s =
      let rest =
        exchange_from readable writable (k + 1) n (offer (writable k) (accept (readable k) s)) in
      if ltb s.rx_done len then rest else some s

  -- The whole exchange. The last loop throws away what comes after `len` bytes.
  unfoldable pub spi_read_fulldup : (ℕ → Bool) → (ℕ → Bool) → (ℕ → Bool) → ℕ → List ℕ → Option Spi
  spi_read_fulldup early readable writable polls buffer =
      exchange_from readable writable 0 polls
        (prefill early 0 len (record { tx_done = 0; sent = []; rx_done = 0; received = buffer }))

-- `_recvfrom`: the head of eight bytes that the W5500 puts before a datagram, and its data.
pub record Received : Type 0 where
  pub length_read : ℕ
  pub buffer : List ℕ
  pub address : List ℕ
  pub port : ℕ

-- The first bytes of a buffer written over.
unfoldable pub overwrite : List ℕ → List ℕ → List ℕ
overwrite bytes buffer = bytes ++ drop (length bytes) buffer

-- `none` is a closed socket. `arrived k` is the size register at poll `k`, `closed k` its state then.
unfoldable pub wait_packet : (ℕ → ℕ) → (ℕ → Bool) → ℕ → ℕ → Option Bool
wait_packet arrived closed k zero = none
wait_packet arrived closed k (suc n) =
    let rest = wait_packet arrived closed (k + 1) n in
    if not (arrived k == 0) then some true else if closed k then some false else rest

unfoldable pub recvfrom : List ℕ → List ℕ → ℕ → List ℕ → Received
recvfrom head payload len buffer =
    let data_len = get_or head 6 0 * 256 + get_or head 7 0 in
    let pack_len = if ltb len data_len then len else data_len in
    record {
      length_read = pack_len;
      buffer = overwrite (take pack_len payload) buffer;
      address = take 4 head;
      port = get_or head 4 0 * 256 + get_or head 5 0;
    }

-- The interrupt register at a poll of `_sendto`.
pub data SendFlag : Type 0 where
  send_ok : SendFlag
  send_timeout : SendFlag
  send_busy : SendFlag

-- `none` is a send that has not ended within the polls, `some false` is SOCKERR_TIMEOUT.
unfoldable pub wait_sent : (ℕ → SendFlag) → ℕ → ℕ → Option Bool
wait_sent flag k zero = none
wait_sent flag k (suc n) =
    let rest = wait_sent flag (k + 1) n in
    elim (flag k) [ send_ok ↦ some true | send_timeout ↦ some false | send_busy ↦ rest ]

-- The socket's destination, which the first send after a lost link sets.
pub record Socket : Type 0 where
  pub first_send : ℕ
  pub destination : List ℕ × ℕ

unfoldable pub address_socket : List ℕ → ℕ → Socket → Socket
address_socket addr port s =
    if s.first_send == 0 then s else record { first_send = 0; destination = (addr, port) }
