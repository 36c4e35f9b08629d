-- ===== src/Driver/Platform/Frame.antt =====
-- The frame of `_send` and the report read from it.
use flexi_ninja.Prelude.{ℕ, zero, suc, refl, ap, List, [], arith, length, get_or, drop, replicate}
use flexi_ninja.Prelude.{u8, ◌<◌, ◌≡◌, ◌∙◌, ◌∷◌, ◌++◌}
use flexi_ninja.Transmission.Packet.{PcPico, PicoPc, pc_pico_bytes, pico_pc_bytes, pico_pc_of_bytes}
use flexi_ninja.Transmission.Layout.{
  IsPcPico, IsPicoPc, pico_pc_of_bytes-bytes, length-pico_pc_bytes, length-pc_pico_bytes,
}
use flexi_ninja.Transmission.Range.{Bytes, Bytes-append, Bytes-pc_pico_bytes, u8_byte}
use flexi_ninja.Firmware.Transport.{overwrite}
use flexi_ninja.Firmware.Server.Replies.{take_all as take_whole}
use flexi_ninja.Driver.Platform.{tx_frame, rx_packet}

get_or-append : (xs ys : List ℕ) (i : ℕ) → i < length xs → get_or (xs ++ ys) i 0 ≡ get_or xs i 0
get_or-append [] ys i h = absurd (omega (arith, h))
get_or-append (x ∷ xs) ys zero h = refl
get_or-append (x ∷ xs) ys (suc i) h = get_or-append xs ys i (omega (arith, h))

-- The packet stands at the beginning of the frame.
pub frame_bytes :
    (p : PcPico) (i : ℕ)
    → IsPcPico p
    → i < 47
    → get_or (tx_frame p) i 0 ≡ get_or (pc_pico_bytes p) i 0
unfolding tx_frame overwrite
frame_bytes p i v h =
    get_or-append (pc_pico_bytes p) _ i (omega (arith, h, length-pc_pico_bytes p v))

-- A whole report is read back.
pub rx_packet-bytes : (q : PicoPc) → IsPicoPc q → rx_packet (pico_pc_bytes q) ≡ q
unfolding rx_packet
rx_packet-bytes q w =
    ap pico_pc_of_bytes (take_whole 74 (pico_pc_bytes q) (length-pico_pc_bytes q w))
    ∙ pico_pc_of_bytes-bytes q w

zeros_below : (n k : ℕ) → Bytes (drop k (replicate n 0))
zeros_below zero zero = tt
zeros_below zero (suc k) = tt
zeros_below (suc n) zero = (omega arith, zeros_below n zero)
zeros_below (suc n) (suc k) = zeros_below n k

-- The frame is of bytes.
pub u8-tx_frame :
    (p : PcPico) → IsPcPico p → (i : ℕ) → u8 (get_or (tx_frame p) i 0) ≡ get_or (tx_frame p) i 0
unfolding tx_frame overwrite
u8-tx_frame p v i =
    let rest = drop (length (pc_pico_bytes p)) (replicate 74 0) in
    u8_byte (pc_pico_bytes p ++ rest) i (
      Bytes-append (pc_pico_bytes p) rest (Bytes-pc_pico_bytes p v)
        (zeros_below 74 (length (pc_pico_bytes p))))
