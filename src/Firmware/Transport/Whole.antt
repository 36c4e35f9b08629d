-- ===== src/Firmware/Transport/Whole.antt =====
-- With room in the transmit FIFO at every poll, the whole report goes back.
use flexi_ninja.Prelude.{ℕ, zero, suc, inl, inr, Bool, true, false, Option, none, some, List, []}
use flexi_ninja.Prelude.{arith, ltb, Bool-cases, ltb→lt, ◌+◌, ◌≤◌, ◌<◌, ◌≡◌, ◌&&◌}
use flexi_ninja.Firmware.Transport.{Spi, offer, accept, prefill, exchange_from, spi_read_fulldup}

-- Nothing is read before the byte in its place was sent.
record Ahead (len : ℕ) (s : Spi) : Type 0 where
  order : s.rx_done ≤ s.tx_done
  tx_in : s.tx_done ≤ len

-- An exchange that ended has sent every byte.
abbrev pub AllSent : ℕ → Option Spi → Type 0
AllSent len none = Unit {0}
AllSent len (some s) = s.tx_done ≡ len

module _ (len : ℕ) (out : List ℕ) (incoming : ℕ → ℕ) where
  offer-Ahead : (b : Bool) (s : Spi) → Ahead len s → Ahead len (offer len out incoming b s)
  unfolding offer
  offer-Ahead b s h = record { order = ground (arith, h.order); tx_in = ground (arith, h.tx_in) }

  step-Ahead :
      (b : Bool) (s : Spi)
      → s.rx_done < len
      → Ahead len s
      → Ahead len (offer len out incoming true (accept len out incoming b s))
  unfolding offer accept
  step-Ahead b s below h = record {
    order = ground (arith, below, h.order, h.tx_in);
    tx_in = ground (arith, h.tx_in);
  }

  prefill-Ahead :
      (writable : ℕ → Bool) (n k : ℕ) (s : Spi)
      → Ahead len s
      → Ahead len (prefill len out incoming writable k n s)
  unfolding prefill
  prefill-Ahead writable zero k s h = h
  prefill-Ahead writable (suc n) k s h =
      let more =
        prefill-Ahead writable n (k + 1) (offer len out incoming (writable k) s)
          (offer-Ahead (writable k) s h) in
      elim (Bool-cases (ltb s.tx_done len && writable k)) [ inl e ↦ rw e more | inr e ↦ rw e h ]

  ended : (s : Spi) → ltb s.rx_done len ≡ false → Ahead len s → AllSent len (some s)
  ended s e h = ground (arith, e, h.order, h.tx_in)

  exchange-AllSent :
      (readable writable : ℕ → Bool) (n k : ℕ) (s : Spi)
      → ((j : ℕ) → writable j ≡ true)
      → Ahead len s
      → AllSent len (exchange_from len out incoming readable writable k n s)
  unfolding exchange_from
  exchange-AllSent readable writable zero k s room h = elim (Bool-cases (ltb s.rx_done len)) [
    | inl e ↦ rw e tt
    | inr e ↦ rw e (ended s e h)
  ]
  exchange-AllSent readable writable (suc n) k s room h = elim (Bool-cases (ltb s.rx_done len)) [
    | inl e ↦
        let below : s.rx_done < len = ltb→lt s.rx_done len e in
        let s2 = offer len out incoming (writable k) (accept len out incoming (readable k) s) in
        let ahead : Ahead len s2 = rw (room k) (step-Ahead (readable k) s below h) in
        rw e (exchange-AllSent readable writable n (k + 1) s2 room ahead)
    | inr e ↦ rw e (ended s e h)
  ]

  pub spi_read_fulldup-AllSent :
      (early readable writable : ℕ → Bool) (polls : ℕ) (buffer : List ℕ)
      → ((j : ℕ) → writable j ≡ true)
      → AllSent len (spi_read_fulldup len out incoming early readable writable polls buffer)
  unfolding spi_read_fulldup
  spi_read_fulldup-AllSent early readable writable polls buffer room =
      let s0 : Spi = record { tx_done = 0; sent = []; rx_done = 0; received = buffer } in
      let h0 : Ahead len s0 = record { order = omega arith; tx_in = omega arith } in
      exchange-AllSent readable writable polls 0 (prefill len out incoming early 0 len s0) room
        (prefill-Ahead early len 0 s0 h0)
