-- ===== src/Firmware/IrqEncoder/Track.antt =====
-- The counter follows the shaft: a walk over the four phases of the quadrature signal.
use flexi_ninja.Prelude.{ℕ, zero, suc, refl, sym, ap, inl, inr, Bool, true, false, List, []}
use flexi_ninja.Prelude.{arith, bit_or, Bool-cases, ==_iff, length, get_or, set, every_below}
use flexi_ninja.Prelude.{every_below_apply, length-set, get_or-set_self, get_or-set_ne, u8, add32}
use flexi_ninja.Prelude.{bit_at, ◌+◌, ◌%◌, ◌<◌, ◌≡◌, ◌≢◌, ◌⊎◌, ◌∙◌, ◌∷◌, ◌==◌, if◌then◌else◌}
use flexi_ninja.Prelude.{◌<<<◌}
use mathlib.Core.Path.{subst}
use flexi_ninja.Firmware.IrqEncoder.{
  IrqEncoders, minus_one, transition, encoder_at, read_state, counts, handle_edge, read_count,
}

-- The signal of a phase, A in bit 0 and B in bit 1; the phases in forward order.
abbrev pub gray : ℕ → ℕ
gray zero = 0
gray (suc zero) = 2
gray (suc (suc zero)) = 3
gray _ = 1

-- One edge forward or back.
abbrev pub turn : Bool → ℕ → ℕ
turn true ph = (ph + 1) % 4
turn false ph = (ph + 3) % 4

abbrev pub turns : List Bool → ℕ → ℕ
turns [] ph = ph
turns (m ∷ ms) ph = turns ms (turn m ph)

-- Edges forward less edges back, in 32 bits.
abbrev pub moved : List Bool → ℕ → ℕ
moved [] n = n
moved (m ∷ ms) n = moved ms (add32 n (if m then 1 else minus_one))

-- The pin of the two, `base` and the one after it, whose level differs between two phases.
abbrev pub edge_pin : (ℕ → ℕ) → ℕ → ℕ → ℕ → ℕ
edge_pin line base ph ph' =
    if bit_at (line ph) base == bit_at (line ph') base then base + 1 else base

-- The interrupts of a walk: each comes from the pin that changed, and the pins read at it are those
-- of the phase just reached.
unfoldable pub follow : (ℕ → ℕ) → ℕ → ℕ → List Bool → ℕ → IrqEncoders → IrqEncoders
follow line i base [] ph s = s
follow line i base (m ∷ ms) ph s =
    let ph' = turn m ph in
    follow line i base ms ph' (handle_edge (line ph') i (edge_pin line base ph ph') s).0

edge_pin_own :
    (line : ℕ → ℕ) (base ph ph' : ℕ)
    → (edge_pin line base ph ph' ≡ base) ⊎ (edge_pin line base ph ph' ≡ base + 1)
edge_pin_own line base ph ph' =
    elim (Bool-cases (bit_at (line ph) base == bit_at (line ph') base)) [
      | inl e ↦ rw e (inr refl)
      | inr e ↦ rw e (inl refl)
    ]

-- What the table adds for two phases: 1 for the next phase, -1 for the one before, else nothing.
abbrev pub delta : ℕ → ℕ → ℕ
delta ph ph' = if turn true ph == ph' then 1 else if turn false ph == ph' then minus_one else 0

delta_checks :
    every_below 4 (λ a.
      every_below 4 (λ b. get_or transition (u8 (bit_or (gray a <<< 2) (gray b))) 0 == delta a b))
    ≡ true
unfolding transition every_below
delta_checks = refl

transition-delta :
    (a b : ℕ)
    → a < 4
    → b < 4
    → get_or transition (u8 (bit_or (gray a <<< 2) (gray b))) 0 ≡ delta a b
transition-delta a b ha hb = (==_iff _ _).0 (
    every_below_apply 4
      (λ y. get_or transition (u8 (bit_or (gray a <<< 2) (gray y))) 0 == delta a y) b
      (every_below_apply 4
        (λ x.
          every_below 4
            (λ y. get_or transition (u8 (bit_or (gray x <<< 2) (gray y))) 0 == delta x y))
        a delta_checks ha)
      hb)

-- The encoder `i` counts by interrupt, is of the arrays, and last saw phase `ph`.
pub record Sees (i ph : ℕ) (s : IrqEncoders) : Type 0 where
  pub phase : ph < 4
  pub active : counts s.cfg i ≡ true
  pub counter_fits : i < length s.counter
  pub state_fits : i < length s.prev_state
  pub seen : get_or s.prev_state i 0 ≡ gray ph

-- The state after a counted edge that shows phase `ph'`.
abbrev pub counted : ℕ → ℕ → ℕ → IrqEncoders → IrqEncoders
counted i ph ph' s = record s {
  counter = set s.counter i (add32 (get_or s.counter i 0) (delta ph ph'));
  prev_state = set s.prev_state i (gray ph');
}

handle_edge_takes :
    (pins i gpio ph ph' : ℕ) (s : IrqEncoders)
    → Sees i ph s
    → ph' < 4
    → read_state pins (encoder_at s.cfg i).base_pin ≡ gray ph'
    → (gpio ≡ (encoder_at s.cfg i).base_pin) ⊎ (gpio ≡ (encoder_at s.cfg i).base_pin + 1)
    → handle_edge pins i gpio s ≡ (counted i ph ph' s, true)
unfolding handle_edge
handle_edge_takes pins i gpio ph ph' s v hp shown pin =
    rw (shown, v.seen, transition-delta ph ph' v.phase hp, v.active) (ground arith)

counted-Sees :
    (i ph ph' : ℕ) (s : IrqEncoders) → Sees i ph s → ph' < 4 → Sees i ph' (counted i ph ph' s)
counted-Sees i ph ph' s v hp = record {
  phase = hp;
  active = v.active;
  counter_fits = rw (length-set) v.counter_fits;
  state_fits = rw (length-set) v.state_fits;
  seen = get_or-set_self s.prev_state i (gray ph') 0 v.state_fits;
}

-- An interrupt of either pin, at any phase the pins may show: the count moves by one for a
-- neighbouring phase and not at all for the same or the opposite one (a bounce, a missed edge), and
-- the phase shown is the one remembered. No other encoder's count changes.
pub handle_edge-delta :
    (pins i gpio ph ph' : ℕ) (s : IrqEncoders)
    → Sees i ph s
    → ph' < 4
    → read_state pins (encoder_at s.cfg i).base_pin ≡ gray ph'
    → (gpio ≡ (encoder_at s.cfg i).base_pin) ⊎ (gpio ≡ (encoder_at s.cfg i).base_pin + 1)
    → let s' = (handle_edge pins i gpio s).0 in
      Sees i ph' s'
      × (read_count i s' ≡ add32 (read_count i s) (delta ph ph'))
      × ((j : ℕ) → j ≢ i → read_count j s' ≡ read_count j s)
      × (s'.cfg ≡ s.cfg)
unfolding read_count
handle_edge-delta pins i gpio ph ph' s v hp shown pin =
    rw (handle_edge_takes pins i gpio ph ph' s v hp shown pin) (
      counted-Sees i ph ph' s v hp,
      get_or-set_self s.counter i _ 0 v.counter_fits,
      (λ j ne. get_or-set_ne s.counter i j _ 0 (λ e. ne (sym e))),
      refl,
    )

turn-lt : (m : Bool) (ph : ℕ) → turn m ph < 4
turn-lt true ph = omega arith
turn-lt false ph = omega arith

delta-turn : (m : Bool) (ph : ℕ) → ph < 4 → delta ph (turn m ph) ≡ (if m then 1 else minus_one)
delta-turn true ph h = ground arith
delta-turn false ph h = ground arith

-- Over any walk of the shaft, with an interrupt at each edge of the pin whose level changed, the count
-- moves by the edges forward less the edges back, in 32 bits, and the state ends at the phase
-- reached.
pub follow-moved :
    (line : ℕ → ℕ) (i base : ℕ) (ms : List Bool) (ph : ℕ) (s : IrqEncoders)
    → ((k : ℕ) → k < 4 → read_state (line k) (encoder_at s.cfg i).base_pin ≡ gray k)
    → base ≡ (encoder_at s.cfg i).base_pin
    → Sees i ph s
    → let s' = follow line i base ms ph s in
      (read_count i s' ≡ moved ms (read_count i s)) × Sees i (turns ms ph) s'
unfolding follow
follow-moved line i base [] ph s shows own v = (refl, v)
follow-moved line i base (m ∷ ms) ph s shows own v =
    let ph' = turn m ph in
    let gpio = edge_pin line base ph ph' in
    let pin : (gpio ≡ (encoder_at s.cfg i).base_pin) ⊎ (gpio ≡ (encoder_at s.cfg i).base_pin + 1) =
      subst (λ b. (gpio ≡ b) ⊎ (gpio ≡ b + 1)) own (edge_pin_own line base ph ph') in
    let edge =
      handle_edge_takes (line ph') i gpio ph ph' s v (turn-lt m ph) (shows ph' (turn-lt m ph))
        pin in
    let s' = counted i ph ph' s in
    let rest =
      follow-moved line i base ms ph' s' shows own (counted-Sees i ph ph' s v (turn-lt m ph)) in
    let count : read_count i s' ≡ add32 (read_count i s) (if m then 1 else minus_one) =
      unfold read_count in
      (get_or-set_self s.counter i (add32 (get_or s.counter i 0) (delta ph ph')) 0 v.counter_fits
        ∙ ap (λ d. add32 (get_or s.counter i 0) d) (delta-turn m ph v.phase)) in
    rw edge (rest.0 ∙ ap (moved ms) count, rest.1)
