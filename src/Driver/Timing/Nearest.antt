-- ===== src/Driver/Timing/Nearest.antt =====
-- `nearest` finds the closest pulse width that there is.
use flexi_ninja.Prelude.{ℕ, zero, suc, ap, inl, inr, true, false, arith, ℕ_discrete, ltb}
use flexi_ninja.Prelude.{Bool-cases, ◌+◌, ◌≤◌, ◌<◌, ◌≡◌}
use mathlib.Core.Path.{subst}
use native.Mathlib.Nat.{le_trans, le_of_eq}
use flexi_ninja.PioSettings.{high_cycles}
use flexi_ninja.PioSettings.Table.{pio_settings_sound, high_cycles_ends}
use flexi_ninja.Driver.Timing.{distance, scan, nearest_cycles}

-- `r` is an entry no farther from `value` than any of the first `k`.
abbrev pub Closest : ℕ → ℕ → ℕ → Type 0
Closest value k r =
    (r < k) × ((j : ℕ) → j < k → distance (high_cycles r) value ≤ distance (high_cycles j) value)

le_of_ltb : (a b : ℕ) → ltb a b ≡ true → a ≤ b
le_of_ltb a b h = ground arith

le_of_not_ltb : (a b : ℕ) → ltb a b ≡ false → b ≤ a
le_of_not_ltb a b h = ground arith

-- One more entry: the closer of it and the best so far.
Closest-closer :
    (value i index : ℕ)
    → Closest value i index
    → ltb (distance (high_cycles i) value) (distance (high_cycles index) value) ≡ true
    → Closest value (i + 1) i
Closest-closer value i index v closer = (
  omega arith,
  λ j below. elim (ℕ_discrete i j) [
    | yes e ↦ le_of_eq (ap (λ k. distance (high_cycles k) value) e)
    | no ne ↦ le_trans (le_of_ltb _ _ closer) (v.1 j (omega arith))
  ],
)

Closest-same :
    (value i index : ℕ)
    → Closest value i index
    → ltb (distance (high_cycles i) value) (distance (high_cycles index) value) ≡ false
    → Closest value (i + 1) index
Closest-same value i index v farther = (
  omega (arith, v.0),
  λ j below. elim (ℕ_discrete i j) [
    | yes e ↦
        subst (λ k. distance (high_cycles index) value ≤ distance (high_cycles k) value) e
          (le_of_not_ltb _ _ farther)
    | no ne ↦ v.1 j (omega arith)
  ],
)

scan-Closest :
    (value n i index : ℕ)
    → Closest value i index
    → Closest value (i + n) (scan value n i (distance (high_cycles index) value) index)
unfolding scan
scan-Closest value zero i index v = let none_left : i + 0 ≡ i = omega arith in rw none_left v
scan-Closest value (suc n) i index v =
    let one_more : i + suc n ≡ i + 1 + n = omega arith in
    rw one_more
      (elim (Bool-cases
        (ltb (distance (high_cycles i) value) (distance (high_cycles index) value))) [
          | inl e ↦ rw e (scan-Closest value n (i + 1) i (Closest-closer value i index v e))
          | inr e ↦ rw e (scan-Closest value n (i + 1) index (Closest-same value i index v e))
        ])

-- The first round takes entry 0: no distance is as large as 65535.
scan_first :
    (value : ℕ)
    → value ≤ 800
    → scan value 299 0 65535 0 ≡ scan value 298 1 (distance (high_cycles 0) value) 0
unfolding scan
scan_first value h =
    let start : high_cycles 0 ≡ 12 = high_cycles_ends.0 in
    let closer : ltb (distance (high_cycles 0) value) 65535 ≡ true = ground arith in rw closer

-- For every number of cycles, the index is one of the table, which the board accepts, and no entry of
-- the table is closer.
nearest_cycles-Closest : (value : ℕ) → Closest value 299 (nearest_cycles value)
unfolding nearest_cycles
nearest_cycles-Closest value = elim (Bool-cases (ltb value (high_cycles 0))) [
  | inl low ↦ rw low (omega arith, λ j h. ground (arith, pio_settings_sound j h, high_cycles_ends))
  | inr not_low ↦ elim (Bool-cases (ltb (high_cycles 298) value)) [
    | inl big ↦
        rw (not_low, big)
          (omega arith, λ j h. ground (arith, pio_settings_sound j h, high_cycles_ends))
    | inr not_big ↦
        let small : value ≤ 800 = ground (arith, high_cycles_ends) in
        rw (not_low, not_big, scan_first value small)
          (scan-Closest value 298 1 0
            (omega arith, λ j h. le_of_eq (ap (λ k. distance (high_cycles k) value) (omega arith))))
  ]
]
