-- ===== src/Firmware/Transport/Exchange.antt =====
-- The exchange over SPI: it ends, takes every byte in its place, and sends a prefix in order.
use flexi_ninja.Prelude.{ℕ, zero, suc, refl, sym, ap, inl, inr, Bool, true, false, Option, some}
use flexi_ninja.Prelude.{List, [], arith, ℕ_discrete, ltb, Bool-cases, ltb→lt, length, get_or}
use flexi_ninja.Prelude.{take, length-set, get_or-set_self, get_or-set_ne, u8, from_bool, ◌+◌}
use flexi_ninja.Prelude.{◌≤◌, ◌<◌, ◌≡◌, ◌∙◌, ◌&&◌, ◌∷◌, ◌++◌}
use flexi_ninja.Firmware.Transport.{Spi, offer, accept, prefill, exchange_from, spi_read_fulldup}

-- The polls in `[k, k + n)` at which a byte can be read.
abbrev pub ready : (ℕ → Bool) → ℕ → ℕ → ℕ
ready readable k zero = 0
ready readable k (suc n) = from_bool (readable k) + ready readable (k + 1) n

take_next :
    (n : ℕ) (xs : List ℕ) → n < length xs → take n xs ++ (get_or xs n 0 ∷ []) ≡ take (suc n) xs
take_next n [] h = absurd (omega (arith, h))
take_next zero (x ∷ xs) h = refl
take_next (suc n) (x ∷ xs) h = ap (λ r. x ∷ r) (take_next n xs (omega (arith, h)))

next_suc : (n : ℕ) → n + 1 ≡ suc n
next_suc n = omega arith

-- What holds at every poll.
record Going (len : ℕ) (out : List ℕ) (incoming : ℕ → ℕ) (s : Spi) : Type 0 where
  tx_in : s.tx_done ≤ len
  rx_in : s.rx_done ≤ len
  sent_is : s.sent ≡ take s.tx_done out
  room : length s.received ≡ len
  bytes : (i : ℕ) → i < s.rx_done → get_or s.received i 0 ≡ u8 (incoming i)

module _ (len : ℕ) (out : List ℕ) (incoming : ℕ → ℕ) (out_length : length out ≡ len) where
  offer-Going :
      (b : Bool) (s : Spi)
      → Going len out incoming s
      → Going len out incoming (offer len out incoming b s)
  unfolding offer
  offer-Going b s g = elim (Bool-cases (ltb s.tx_done len && b)) [
    | inl e ↦
        let below : s.tx_done < len = ground (arith, e) in
        rw e (record {
          tx_in = omega (arith, below);
          rx_in = g.rx_in;
          sent_is =
              ap (λ r. r ++ (get_or out s.tx_done 0 ∷ [])) g.sent_is
              ∙ take_next s.tx_done out (omega (arith, below, out_length))
              ∙ ap (λ (n : ℕ). take n out) (sym (next_suc s.tx_done));
          room = g.room;
          bytes = g.bytes;
        })
    | inr e ↦ rw e g
  ]

  accept-Going :
      (b : Bool) (s : Spi)
      → s.rx_done < len
      → Going len out incoming s
      → Going len out incoming (accept len out incoming b s)
  unfolding accept
  accept-Going true s h g = record {
    tx_in = g.tx_in;
    rx_in = omega (arith, h);
    sent_is = g.sent_is;
    room = length-set s.received s.rx_done (u8 (incoming s.rx_done)) ∙ g.room;
    bytes = λ i hi. elim (ℕ_discrete s.rx_done i) [
      | yes e ↦ rw (← e) (
          get_or-set_self s.received s.rx_done (u8 (incoming s.rx_done)) 0
            (omega (arith, h, g.room)))
      | no ne ↦
          get_or-set_ne s.received s.rx_done i (u8 (incoming s.rx_done)) 0 ne
          ∙ g.bytes i (omega (arith, hi, ne))
    ];
  }
  accept-Going false s h g = g

  prefill-Going :
      (writable : ℕ → Bool) (n k : ℕ) (s : Spi)
      → Going len out incoming s
      → Going len out incoming (prefill len out incoming writable k n s)
  unfolding prefill
  prefill-Going writable zero k s g = g
  prefill-Going writable (suc n) k s g = elim (Bool-cases (ltb s.tx_done len && writable k)) [
    | inl e ↦ rw e (
        prefill-Going writable n (k + 1) (offer len out incoming (writable k) s)
          (offer-Going (writable k) s g))
    | inr e ↦ rw e g
  ]

  offer-rx : (b : Bool) (s : Spi) → (offer len out incoming b s).rx_done ≡ s.rx_done
  unfolding offer
  offer-rx b s = ground arith

  accept-rx : (b : Bool) (s : Spi) → (accept len out incoming b s).rx_done ≡ s.rx_done + from_bool b
  unfolding accept
  accept-rx true s = refl
  accept-rx false s = omega arith

  prefill-rx :
      (writable : ℕ → Bool) (n k : ℕ) (s : Spi)
      → (prefill len out incoming writable k n s).rx_done ≡ s.rx_done
  unfolding prefill
  prefill-rx writable zero k s = refl
  prefill-rx writable (suc n) k s = ground (
    arith,
    prefill-rx writable n (k + 1) (offer len out incoming (writable k) s),
    offer-rx (writable k) s,
  )

  -- The state when the second loop ends.
  abbrev pub Done : Option Spi → Type 0
  Done r =
      (s : Spi) × (r ≡ some s)
      × (s.rx_done ≡ len)
      × (s.sent ≡ take s.tx_done out)
      × (s.tx_done ≤ len)
      × (length s.received ≡ len)
      × ((i : ℕ) → i < len → get_or s.received i 0 ≡ u8 (incoming i))

  finished : (s : Spi) → Going len out incoming s → ltb s.rx_done len ≡ false → Done (some s)
  finished s g e =
      let all : s.rx_done ≡ len = ground (arith, e, g.rx_in) in
      (s, refl, all, g.sent_is, g.tx_in, g.room, λ i hi. g.bytes i (omega (arith, hi, all)))

  exchange-Done :
      (readable writable : ℕ → Bool) (n k : ℕ) (s : Spi)
      → len ≤ s.rx_done + ready readable k n
      → Going len out incoming s
      → Done (exchange_from len out incoming readable writable k n s)
  unfolding exchange_from
  exchange-Done readable writable zero k s h g =
      let e : ltb s.rx_done len ≡ false = ground (arith, h) in rw e (finished s g e)
  exchange-Done readable writable (suc n) k s h g = elim (Bool-cases (ltb s.rx_done len)) [
    | inl e ↦
        let s1 = accept len out incoming (readable k) s in
        let s2 = offer len out incoming (writable k) s1 in
        let g1 = accept-Going (readable k) s (ltb→lt s.rx_done len e) g in
        let count : s2.rx_done ≡ s.rx_done + from_bool (readable k) =
          offer-rx (writable k) s1 ∙ accept-rx (readable k) s in
        rw e (
          exchange-Done readable writable n (k + 1) s2 (omega (arith, h, count))
            (offer-Going (writable k) s1 g1))
    | inr e ↦ rw e (finished s g e)
  ]

  -- The exchange ends as soon as the master has clocked all its bytes in: with `len` polls at which
  -- a byte can be read, however they fall, every byte received is in its place, none outside the
  -- buffer, and what was sent is the beginning of the bytes to send, in their order.
  pub spi_read_fulldup-Done :
      (early readable writable : ℕ → Bool) (polls : ℕ) (buffer : List ℕ)
      → length buffer ≡ len
      → len ≤ ready readable 0 polls
      → Done (spi_read_fulldup len out incoming early readable writable polls buffer)
  unfolding spi_read_fulldup
  spi_read_fulldup-Done early readable writable polls buffer room enough =
      let s0 : Spi = record { tx_done = 0; sent = []; rx_done = 0; received = buffer } in
      let g0 : Going len out incoming s0 = record {
        tx_in = omega arith;
        rx_in = omega arith;
        sent_is = refl;
        room = room;
        bytes = λ i h. absurd (omega (arith, h));
      } in
      exchange-Done readable writable polls 0 (prefill len out incoming early 0 len s0)
        (omega (arith, enough, prefill-rx early len 0 s0)) (prefill-Going early len 0 s0 g0)
