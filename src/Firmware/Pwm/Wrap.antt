-- ===== src/Firmware/Pwm/Wrap.antt =====
-- The wrap value is the best that 16 bits allow.
use flexi_ninja.Prelude.{ℕ, arith, dec_lt, ltb, ◌+◌, ◌*◌, ◌/◌, ◌≤◌, ◌<◌, ◌≡◌, if◌then◌else◌}
use flexi_ninja.Firmware.Pwm.{pwm_calculate_wrap}

quotient_bounds :
    (clock freq : ℕ)
    → 0 < freq
    → (clock / freq * freq ≤ clock) × (clock < (clock / freq + 1) * freq)
quotient_bounds clock freq h = (grind arith, grind arith)

capped_mul : (w q f c : ℕ) → w ≤ q → q * f ≤ c → w * f ≤ c
capped_mul w q f c h k = grind arith

wrap_value :
    (clock freq : ℕ)
    → 0 < freq
    → pwm_calculate_wrap clock freq ≡ (if ltb 65535 (clock / freq) then 65535 else clock / freq)
unfolding pwm_calculate_wrap
wrap_value clock freq h = ground arith

-- At a frequency above the clock's 65536th part the wrap is the best there is: it fits 16 bits, a
-- period of `wrap` ticks is no longer than asked for, and one tick more would be too long. (The pairs
-- `frequency * ticks` stand for the quotients.)
pub pwm_calculate_wrap_best :
    (clock freq : ℕ)
    → clock < 65536 * freq
    → (pwm_calculate_wrap clock freq ≤ 65535)
      × (pwm_calculate_wrap clock freq * freq ≤ clock)
      × (clock < (pwm_calculate_wrap clock freq + 1) * freq)
pwm_calculate_wrap_best clock freq small =
    let h : 0 < freq = omega arith in
    let fits : clock / freq < 65536 = elim (dec_lt (clock / freq) 65536) [
      | yes p ↦ p
      | no p ↦ absurd (
          omega (
            arith,
            small,
            capped_mul 65536 (clock / freq) freq clock (omega arith)
                (quotient_bounds clock freq h).0,
          ))
    ] in
    let exact : pwm_calculate_wrap clock freq ≡ clock / freq =
      ground (arith, wrap_value clock freq h) in
    rw exact (omega arith, (quotient_bounds clock freq h).0, (quotient_bounds clock freq h).1)
