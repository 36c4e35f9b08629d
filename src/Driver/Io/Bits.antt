-- ===== src/Driver/Io/Bits.antt =====
-- Each output of the PC reaches its own pin of the board, or its own bit of the expander's word.
use flexi_ninja.Prelude.{ℕ, refl, ap, Bool, true, false, not, List, [], arith, get_or, bit_at}
use flexi_ninja.Prelude.{set_bit, from_bool, bit_at-set_bit, ◌+◌, ◌<◌, ◌≡◌, ◌∙◌, ◌&&◌, ◌||◌, ◌∷◌}
use flexi_ninja.Prelude.{◌==◌, if◌then◌else◌}
use flexi_ninja.Firmware.HandleData.{pin_null}
use flexi_ninja.Driver.Io.{
  gather_output, gather_outputs, gather_ex, bb_hal_process_send, probe_select_bit,
}

-- Pin `k` of the table, which starts at `i`, is used and on.
abbrev pub is_on : List (ℕ × Bool) → ℕ → ℕ → Bool
is_on [] i k = false
is_on ((gpio, on) ∷ pins) i k = ((i == k) && not (gpio == pin_null) && on) || is_on pins (i + 1) k

-- Some pin of this number is on.
abbrev pub ex_on : List (ℕ × Bool) → ℕ → Bool
ex_on [] k = false
ex_on ((ex_num, on) ∷ pins) k = ((ex_num == k) && on) || ex_on pins k

bit_at-gather_ex :
    (pins : List (ℕ × Bool)) (outs0 k : ℕ)
    → bit_at (gather_ex pins outs0) k ≡ (if ex_on pins k then 1 else bit_at outs0 k)
unfolding gather_ex
bit_at-gather_ex [] outs0 k = refl
bit_at-gather_ex ((ex_num, true) ∷ pins) outs0 k =
    bit_at-gather_ex pins (set_bit outs0 ex_num) k ∙ ground (arith, bit_at-set_bit outs0 ex_num k)
bit_at-gather_ex ((ex_num, false) ∷ pins) outs0 k = bit_at-gather_ex pins outs0 k ∙ ground arith

is_on_below : (pins : List (ℕ × Bool)) (i k : ℕ) → k < i → is_on pins i k ≡ false
is_on_below [] i k h = refl
is_on_below ((gpio, on) ∷ pins) i k h = ground (arith, is_on_below pins (i + 1) k (omega arith))

bit_at-gather_output :
    (gpio i k : ℕ) (o : ℕ × ℕ) (on : Bool)
    → k < 32
    → bit_at (gather_output gpio on i o).0 k
      ≡ (if (i == k) && not (gpio == pin_null) && on then 1 else bit_at o.0 k)
unfolding gather_output
bit_at-gather_output gpio i k (o0, o1) true h = ground (arith, bit_at-set_bit o0 i k)
bit_at-gather_output gpio i k (o0, o1) false h = ground arith

either : (a b : Bool) (x : ℕ) → (if b then 1 else if a then 1 else x) ≡ (if a || b then 1 else x)
either true true x = refl
either true false x = refl
either false true x = refl
either false false x = refl

bit_at-gather_outputs :
    (pins : List (ℕ × Bool)) (i k : ℕ) (o : ℕ × ℕ)
    → k < 32
    → bit_at (gather_outputs pins i o).0 k ≡ (if is_on pins i k then 1 else bit_at o.0 k)
unfolding gather_outputs
bit_at-gather_outputs [] i k o h = refl
bit_at-gather_outputs ((gpio, on) ∷ pins) i k o h =
    let here = (i == k) && not (gpio == pin_null) && on in
    bit_at-gather_outputs pins (i + 1) k (gather_output gpio on i o) h
    ∙ ap (λ (b : ℕ). if is_on pins (i + 1) k then 1 else b) (bit_at-gather_output gpio i k o on h)
    ∙ either here (is_on pins (i + 1) k) (bit_at o.0 k)

with_probe :
    (probe : Bool) (w k : ℕ)
    → bit_at (if probe then set_bit w probe_select_bit else w) k
      ≡ (if probe && (k == probe_select_bit) then 1 else bit_at w k)
with_probe true w k = ground (arith, bit_at-set_bit w probe_select_bit k)
with_probe false w k = refl

three :
    (a b c : Bool) (k w : ℕ)
    → w ≡ (if b then 1 else if a then 1 else bit_at 0 k)
    → (if c then 1 else w) ≡ from_bool (a || b || c)
three a b true k w h = ground arith
three a true false k w h = ground (arith, h)
three true false false k w h = h
three false false false k w h = h ∙ omega arith

-- A bit of the first output word is on exactly when the output pin of that index is used and on, or
-- an output of the expander with that number is, or it is bit 31 and the probe is selected: no pin
-- disturbs another.
bit_at-bb_hal_process_send :
    (output_pins ex_output_pins : List (ℕ × Bool)) (probe_select : Bool) (k : ℕ)
    → k < 32
    → bit_at (get_or (bb_hal_process_send output_pins ex_output_pins probe_select) 0 0) k
      ≡ from_bool (
          is_on output_pins 0 k
          || ex_on ex_output_pins k
          || (probe_select && (k == probe_select_bit)))
unfolding bb_hal_process_send
bit_at-bb_hal_process_send output_pins ex_output_pins probe_select k h =
    let outs = gather_outputs output_pins 0 (0, 0) in
    let word0 = gather_ex ex_output_pins outs.0 in
    let first = bit_at-gather_outputs output_pins 0 k (0, 0) h in
    let second = bit_at-gather_ex ex_output_pins outs.0 k in
    let both = second ∙ ap (λ (b : ℕ). if ex_on ex_output_pins k then 1 else b) first in
    with_probe probe_select word0 k
    ∙ three (is_on output_pins 0 k) (ex_on ex_output_pins k)
        (probe_select && (k == probe_select_bit)) k (bit_at word0 k) both
