-- ===== src/Transmission/Range.antt =====
-- The bytes of a command packet are bytes.
use flexi_ninja.Prelude.{ℕ, zero, suc, List, [], arith, get_or, All, u8, ◌/◌, ◌%◌, ◌<◌, ◌≡◌, ◌∷◌}
use flexi_ninja.Prelude.{◌++◌}
use flexi_ninja.Transmission.Packet.{PcPico, pc_pico_bytes, words}
use flexi_ninja.Transmission.Layout.{IsPcPico}

abbrev pub Bytes : List ℕ → Type 0
Bytes = All (λ b. b < 256)

pub Bytes-append : (xs ys : List ℕ) → Bytes xs → Bytes ys → Bytes (xs ++ ys)
Bytes-append [] ys h k = k
Bytes-append (x ∷ xs) ys h k = (h.0, Bytes-append xs ys h.1 k)

Bytes-words : (ws : List ℕ) → Bytes (words ws)
unfolding words
Bytes-words [] = tt
Bytes-words (w ∷ ws) = (omega arith, (omega arith, (omega arith, (omega arith, Bytes-words ws))))

pub Bytes-pc_pico_bytes : (p : PcPico) → IsPcPico p → Bytes (pc_pico_bytes p)
unfolding pc_pico_bytes
Bytes-pc_pico_bytes p v =
    let timing = p.pio_timing in
    let setup = p.dir_setup_ns in
    let fields : List ℕ =
      timing % 256
      ∷ timing / 256 % 256
      ∷ setup % 256
      ∷ setup / 256 % 256
      ∷ p.enc_control
      ∷ p.packet_id
      ∷ [] in
    let small : Bytes fields = (
      omega arith,
      (omega arith, (omega arith, (omega arith, (v.enc_control, (v.packet_id, tt))))),
    ) in
    let add : (ws rest : List ℕ) → Bytes rest → Bytes (words ws ++ rest) =
      λ ws rest. Bytes-append (words ws) rest (Bytes-words ws) in
    let four = add p.pwm_frequency fields small in
    let three = add p.pwm_duty _ four in
    let two = add p.outputs _ three in
    Bytes-append _ (p.checksum ∷ []) (add p.stepgen_command _ two) (v.checksum, tt)

byte_at : (xs : List ℕ) (i : ℕ) → Bytes xs → get_or xs i 0 < 256
byte_at [] zero h = omega arith
byte_at [] (suc i) h = omega arith
byte_at (x ∷ xs) zero h = h.0
byte_at (x ∷ xs) (suc i) h = byte_at xs i h.1

-- A byte is itself in 8 bits.
pub u8_byte : (xs : List ℕ) (i : ℕ) → Bytes xs → u8 (get_or xs i 0) ≡ get_or xs i 0
u8_byte xs i h = let small = byte_at xs i h in omega (arith, small)
