-- ===== src/Transmission/Checksum.antt =====
-- firmware/src/transmission.c: the checksum over the bytes of a packet.
use flexi_ninja.Prelude.{ℕ, zero, suc, refl, ap, Bool, true, false, List, [], arith, dec_lt}
use flexi_ninja.Prelude.{length, get_or, set, take, get_or-set_self, get_or-set_ne, u8, ◌+◌, ◌-◌}
use flexi_ninja.Prelude.{◌%◌, ◌≤◌, ◌<◌, ◌≡◌, ◌≢◌, ◌∷◌, ◌==◌}
use flexi_ninja.Transmission.Table.{entry, entry_injective, entry-lt}

-- The loop, with the sum so far.
checksum_from : ℕ → List ℕ → ℕ
checksum_from checksum [] = checksum
checksum_from checksum (b ∷ bytes) = checksum_from (u8 (checksum + entry b)) bytes

-- A buffer is its bytes; `len` of them are read.
unfoldable pub calculate_checksum : List ℕ → ℕ → ℕ
unfolding checksum_from
calculate_checksum buffer len = checksum_from 0 (take len buffer)

-- `rx_checksum_ok` and `tx_checksum_ok` at a struct of `size` bytes, whose last is its checksum.
unfoldable pub checksum_ok : ℕ → List ℕ → Bool
checksum_ok size buffer = calculate_checksum buffer (size - 1) == get_or buffer (size - 1) 0

total : List ℕ → ℕ
total [] = 0
total (b ∷ bytes) = entry b + total bytes

checksum_from_eq :
    (c : ℕ) (bytes : List ℕ) → c < 256 → checksum_from c bytes ≡ (c + total bytes) % 256
unfolding checksum_from total
checksum_from_eq c [] h = omega arith
checksum_from_eq c (b ∷ bytes) h =
    omega (arith, checksum_from_eq (u8 (c + entry b)) bytes (omega arith))

total-set :
    (bytes : List ℕ) (i v : ℕ)
    → i < length bytes
    → total (set bytes i v) + entry (get_or bytes i 0) ≡ total bytes + entry v
unfolding total
total-set [] i v h = absurd (omega arith)
total-set (b ∷ bytes) zero v h = omega arith
total-set (b ∷ bytes) (suc i) v h = omega (arith, total-set bytes i v (omega arith))

take-set_below :
    (n i v : ℕ) (bytes : List ℕ) → i < n → take n (set bytes i v) ≡ set (take n bytes) i v
take-set_below zero i v bytes h = absurd (omega arith)
take-set_below (suc n) i v [] h = refl
take-set_below (suc n) zero v (b ∷ bytes) h = refl
take-set_below (suc n) (suc i) v (b ∷ bytes) h =
    ap (λ r. b ∷ r) (take-set_below n i v bytes (omega arith))

take-set_above : (n i v : ℕ) (bytes : List ℕ) → n ≤ i → take n (set bytes i v) ≡ take n bytes
take-set_above zero i v bytes h = refl
take-set_above (suc n) i v [] h = refl
take-set_above (suc n) zero v (b ∷ bytes) h = absurd (omega arith)
take-set_above (suc n) (suc i) v (b ∷ bytes) h =
    ap (λ r. b ∷ r) (take-set_above n i v bytes (omega arith))

get_or-take : (n i : ℕ) (bytes : List ℕ) → i < n → get_or (take n bytes) i 0 ≡ get_or bytes i 0
get_or-take zero i bytes h = absurd (omega arith)
get_or-take (suc n) i [] h = refl
get_or-take (suc n) zero (b ∷ bytes) h = refl
get_or-take (suc n) (suc i) (b ∷ bytes) h = get_or-take n i bytes (omega arith)

lt-length-take : (n i : ℕ) (bytes : List ℕ) → i < n → i < length bytes → i < length (take n bytes)
lt-length-take zero i bytes h k = absurd (omega arith)
lt-length-take (suc n) i [] h k = absurd (omega arith)
lt-length-take (suc n) zero (b ∷ bytes) h k = omega arith
lt-length-take (suc n) (suc i) (b ∷ bytes) h k =
    omega (arith, lt-length-take n i bytes (omega arith) (omega arith))

checksum_from_lt : (c : ℕ) (bytes : List ℕ) → c < 256 → checksum_from c bytes < 256
checksum_from_lt c bytes h = omega (arith, checksum_from_eq c bytes h)

pub calculate_checksum_lt : (buffer : List ℕ) (len : ℕ) → calculate_checksum buffer len < 256
unfolding calculate_checksum
calculate_checksum_lt buffer len = checksum_from_lt 0 (take len buffer) (omega arith)

-- A changed byte below `len` changes the checksum.
calculate_checksum-set :
    (buffer : List ℕ) (len i v : ℕ)
    → i < len
    → i < length buffer
    → get_or buffer i 0 < 256
    → v < 256
    → v ≢ get_or buffer i 0
    → calculate_checksum (set buffer i v) len ≢ calculate_checksum buffer len
unfolding calculate_checksum
calculate_checksum-set buffer len i v below inside old new ne e =
    let part = take len buffer in
    let same : get_or part i 0 ≡ get_or buffer i 0 = get_or-take len i buffer below in
    let moved = total-set part i v (lt-length-take len i buffer below inside) in
    let before = checksum_from_eq 0 part (omega arith) in
    let after = checksum_from_eq 0 (set part i v) (omega arith) in
    let parts = ap (checksum_from 0) (take-set_below len i v buffer below) in
    let one : entry v ≡ entry (get_or buffer i 0) =
      omega
        (arith, moved, before, after, e, parts, ap entry same, entry-lt v new, entry-lt _ old) in
    ne (entry_injective v (get_or buffer i 0) new old one)

calculate_checksum-set_above :
    (buffer : List ℕ) (len i v : ℕ)
    → len ≤ i
    → calculate_checksum (set buffer i v) len ≡ calculate_checksum buffer len
unfolding calculate_checksum
calculate_checksum-set_above buffer len i v above =
    ap (checksum_from 0) (take-set_above len i v buffer above)

-- A receiver that accepts a packet of `size` bytes rejects every packet that differs from it in
-- one byte, whichever byte it is, the checksum's own included.
pub checksum_ok-set :
    (size : ℕ) (buffer : List ℕ) (i v : ℕ)
    → length buffer ≡ size
    → i < size
    → get_or buffer i 0 < 256
    → v < 256
    → v ≢ get_or buffer i 0
    → checksum_ok size buffer ≡ true
    → checksum_ok size (set buffer i v) ≡ false
unfolding checksum_ok
checksum_ok-set size buffer i v len inside old new ne accepted = elim (dec_lt i (size - 1)) [
  | yes below ↦ ground (
    arith,
    calculate_checksum-set buffer (size - 1) i v below (omega arith) old new ne,
    get_or-set_ne buffer i (size - 1) v 0,
  )
  | no last ↦
      let at : i ≡ size - 1 = omega arith in
      ground (
        arith,
        calculate_checksum-set_above buffer (size - 1) i v (omega arith),
        get_or-set_self buffer i v 0 (omega arith),
      )
]

-- Writing the checksum of the bytes before it into the last byte makes a packet that is accepted.
pub checksum_ok-set_self :
    (size : ℕ) (buffer : List ℕ)
    → length buffer ≡ size
    → 0 < size
    → checksum_ok size (set buffer (size - 1) (calculate_checksum buffer (size - 1))) ≡ true
unfolding checksum_ok
checksum_ok-set_self size buffer len pos =
    let c = calculate_checksum buffer (size - 1) in
    ground (
      arith,
      calculate_checksum-set_above buffer (size - 1) (size - 1) c (omega arith),
      get_or-set_self buffer (size - 1) c 0 (omega arith),
    )
