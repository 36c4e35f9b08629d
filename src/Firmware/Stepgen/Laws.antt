-- ===== src/Firmware/Stepgen/Laws.antt =====
-- What each stepgen is left with after a packet's commands.
use flexi_ninja.Prelude.{ℕ, zero, suc, refl, sym, ap, inl, inr, Bool, true, false, List, []}
use flexi_ninja.Prelude.{arith, ℕ_discrete, bit_xor, ltb, leb, Bool-cases, lt→ltb, length, get_or}
use flexi_ninja.Prelude.{length-set, get_or-set_self, get_or-set_ne, u8, bit_at, set_bit}
use flexi_ninja.Prelude.{bit_at-set_bit, ◌+◌, ◌≤◌, ◌<◌, ◌≡◌, ◌≢◌, ◌∙◌, ◌&&◌, ◌∷◌, ◌==◌}
use flexi_ninja.Prelude.{if◌then◌else◌}
use mathlib.Core.Path.{subst}
use flexi_ninja.Firmware.Stepgen.{
  StepState, wait_put, accepts, advance, apply_one, apply_from, apply_stepgen_commands,
}

-- The wait gives up exactly when the FIFO is full at each of its polls.
wait_put_pos : (full : ℕ → Bool) (k t j : ℕ) → j < t → full (k + j) ≡ false → 0 < wait_put full k t
unfolding wait_put
wait_put_pos full k zero j h e = absurd (omega arith)
wait_put_pos full k (suc t) zero h e =
    let start : k + 0 ≡ k = omega arith in rw (rw start at e) (omega arith)
wait_put_pos full k (suc t) (suc j) h e =
    let next : k + suc j ≡ k + 1 + j = omega arith in
    ground (arith, wait_put_pos full (k + 1) t j (omega arith) (rw next at e))

-- Room in the FIFO at one of the first 1000 polls is enough.
pub accepts_of_room : (full : ℕ → Bool) (j : ℕ) → j < 1000 → full j ≡ false → accepts full ≡ true
unfolding accepts
accepts_of_room full j h e =
    lt→ltb 0 (wait_put full 0 1000)
      (wait_put_pos full 0 1000 j h (let start : 0 + j ≡ j = omega arith in rw start e))

pub bit_at-u8 : (x j : ℕ) → j < 8 → bit_at (u8 x) j ≡ bit_at x j
bit_at-u8 x zero h = omega arith
bit_at-u8 x (suc zero) h = omega arith
bit_at-u8 x (suc (suc zero)) h = omega arith
bit_at-u8 x (suc (suc (suc zero))) h = omega arith
bit_at-u8 x (suc (suc (suc (suc zero)))) h = omega arith
bit_at-u8 x (suc (suc (suc (suc (suc zero))))) h = omega arith
bit_at-u8 x (suc (suc (suc (suc (suc (suc zero)))))) h = omega arith
bit_at-u8 x (suc (suc (suc (suc (suc (suc (suc zero))))))) h = omega arith
bit_at-u8 x (suc (suc (suc (suc (suc (suc (suc (suc j)))))))) h = absurd (omega arith)

-- Round `i` before the rounds `[i + 1, i + 1 + n)`: `x` before, `x1` between, `r` after them.
join_rounds :
    {A : Type 0} (n i j : ℕ) (x x1 r g g1 : A)
    → r ≡ (if leb (i + 1) j && ltb j (i + 1 + n) then g1 else x1)
    → x1 ≡ (if i == j then g else x)
    → (i ≢ j → x1 ≡ x → g1 ≡ g)
    → r ≡ (if leb i j && ltb j (i + suc n) then g else x)
join_rounds n i j x x1 r g g1 after here same = elim (ℕ_discrete i j) [
  | yes e ↦
      let own : (i == j) ≡ true = ground (arith, e) in
      let before : (leb (i + 1) j && ltb j (i + 1 + n)) ≡ false = ground (arith, e) in
      let within : (leb i j && ltb j (i + suc n)) ≡ true = ground (arith, e) in
      rw within (rw before at after ∙ rw own at here)
  | no ne ↦
      let other : (i == j) ≡ false = ground (arith, ne) in
      let x1-eq : x1 ≡ x = rw other at here in
      let g1-eq : g1 ≡ g = same ne x1-eq in
      let same_rounds : (leb (i + 1) j && ltb j (i + 1 + n)) ≡ (leb i j && ltb j (i + suc n)) =
        ground (arith, ne) in
      rw (sym same_rounds) (rw (x1-eq, g1-eq) at after)
]

none_done : {A : Type 0} (i j : ℕ) (x g : A) → x ≡ (if leb i j && ltb j (i + 0) then g else x)
none_done i j x g = let out : (leb i j && ltb j (i + 0)) ≡ false = ground arith in rw out refl

abbrev pub position_at : StepState → ℕ → ℕ
position_at s i = get_or s.position i 0

-- The words put into the FIFO of stepgen `j`, newest first.
abbrev pub words_at : ℕ → List (ℕ × ℕ) → List ℕ
words_at j [] = []
words_at j ((i, w) ∷ puts) = if i == j then w ∷ words_at j puts else words_at j puts

abbrev pub puts_at : StepState → ℕ → List ℕ
puts_at s j = words_at j s.puts

module _ (dir_invert : ℕ → Bool) (full : ℕ → ℕ → Bool) where
  -- What one command word does to its stepgen's position, and to its overflow bit.
  abbrev pub position_after : ℕ → ℕ → ℕ → ℕ
  position_after i w p = if w == 0 then p else if accepts (full i) then advance w p else p

  abbrev pub overflow_after : ℕ → ℕ → ℕ → ℕ
  overflow_after i w b = if w == 0 then b else if accepts (full i) then b else 1

  -- The words in its FIFO after it: the word is put as it is, or with the direction bit inverted.
  abbrev pub puts_after : ℕ → ℕ → List ℕ → List ℕ
  puts_after i w ws =
      if w == 0
      then ws
      else if accepts (full i)
      then (if dir_invert i then bit_xor w 1024 else w) ∷ ws
      else ws

  length-apply_one :
      (i w : ℕ) (s : StepState)
      → length (apply_one dir_invert full i w s).position ≡ length s.position
  unfolding apply_one
  length-apply_one i w s = ground (arith, length-set s.position i (advance w (position_at s i)))

  position-apply_one :
      (i w j : ℕ) (s : StepState)
      → i < length s.position
      → position_at (apply_one dir_invert full i w s) j
        ≡ (if i == j then position_after j w (position_at s j) else position_at s j)
  unfolding apply_one
  position-apply_one i w j s h = ground (
    arith,
    get_or-set_self s.position i (advance w (position_at s i)) 0,
    get_or-set_ne s.position i j (advance w (position_at s i)) 0,
  )

  puts_own :
      (i w : ℕ) (s : StepState)
      → puts_at (apply_one dir_invert full i w s) i
        ≡ (if i == i then puts_after i w (puts_at s i) else puts_at s i)
  unfolding apply_one
  puts_own i w s =
      let same : (i == i) ≡ true = ground arith in
      elim (Bool-cases (w == 0)) [
        | inl e ↦ rw (same, e) refl
        | inr e ↦ elim (Bool-cases (accepts (full i))) [
          | inl room ↦ rw (same, e, room) (rw same refl)
          | inr none_left ↦ rw (same, e, none_left) refl
        ]
      ]

  puts_other :
      (i w j : ℕ) (s : StepState)
      → i ≢ j
      → puts_at (apply_one dir_invert full i w s) j
        ≡ (if i == j then puts_after j w (puts_at s j) else puts_at s j)
  unfolding apply_one
  puts_other i w j s ne =
      let other : (i == j) ≡ false = ground (arith, ne) in
      elim (Bool-cases (w == 0)) [
        | inl e ↦ rw (other, e) refl
        | inr e ↦ elim (Bool-cases (accepts (full i))) [
          | inl room ↦ rw (other, e, room) (rw other refl)
          | inr none_left ↦ rw (other, e, none_left) refl
        ]
      ]

  puts-apply_one :
      (i w j : ℕ) (s : StepState)
      → puts_at (apply_one dir_invert full i w s) j
        ≡ (if i == j then puts_after j w (puts_at s j) else puts_at s j)
  puts-apply_one i w j s = elim (ℕ_discrete i j) [
    | yes e ↦
        subst
          (λ k.
            puts_at (apply_one dir_invert full i w s) k
            ≡ (if i == k then puts_after k w (puts_at s k) else puts_at s k))
          e (puts_own i w s)
    | no ne ↦ puts_other i w j s ne
  ]

  overflow-apply_one :
      (i w j : ℕ) (s : StepState)
      → j < 8
      → bit_at (apply_one dir_invert full i w s).overflow j
        ≡ (if i == j then overflow_after j w (bit_at s.overflow j) else bit_at s.overflow j)
  unfolding apply_one
  overflow-apply_one i w j s h =
      ground (arith, bit_at-u8 (set_bit s.overflow i) j h, bit_at-set_bit s.overflow i j)

  -- What the rounds `[i, i + n)` leave of one stepgen.
  record Applied (n i : ℕ) (cmds : List ℕ) (s s' : StepState) (j : ℕ) : Type 0 where
    position : position_at s' j ≡ (
        if leb i j && ltb j (i + n)
        then position_after j (get_or cmds j 0) (position_at s j)
        else position_at s j)
    overflow : bit_at s'.overflow j ≡ (
        if leb i j && ltb j (i + n)
        then overflow_after j (get_or cmds j 0) (bit_at s.overflow j)
        else bit_at s.overflow j)
    puts : puts_at s' j ≡ (
        if leb i j && ltb j (i + n)
        then puts_after j (get_or cmds j 0) (puts_at s j)
        else puts_at s j)

  -- In round `i` the word of stepgen `j` is read only if it is `i`'s.
  word_at_round :
      {A : Type 0} (f : ℕ → A) (i j : ℕ) (x : A) (cmds : List ℕ)
      → (if i == j then f (get_or cmds i 0) else x) ≡ (if i == j then f (get_or cmds j 0) else x)
  word_at_round f i j x cmds = elim (ℕ_discrete i j) [
    | yes e ↦ ap (λ (k : ℕ). if i == j then f (get_or cmds k 0) else x) e
    | no ne ↦ let other : (i == j) ≡ false = ground (arith, ne) in rw other refl
  ]

  apply_from-Applied :
      (n i : ℕ) (cmds : List ℕ) (s : StepState) (j : ℕ)
      → i + n ≤ length s.position
      → j < 8
      → Applied n i cmds s (apply_from dir_invert full n i cmds s) j
  unfolding apply_from
  apply_from-Applied zero i cmds s j h hj = record {
    position = ground arith;
    overflow = ground arith;
    puts = none_done i j (puts_at s j) (puts_after j (get_or cmds j 0) (puts_at s j));
  }
  apply_from-Applied (suc n) i cmds s j h hj =
      let w = get_or cmds i 0 in
      let s1 = apply_one dir_invert full i w s in
      let len = length-apply_one i w s in
      let rest = apply_from-Applied n (i + 1) cmds s1 j (omega (arith, len)) hj in
      record {
        position =
            join_rounds n i j (position_at s j) (position_at s1 j) _ _ _ rest.position
              (position-apply_one i w j s (omega arith)
                ∙ word_at_round (λ v. position_after j v (position_at s j)) i j (position_at s j)
                    cmds)
              (λ ne e. ap (position_after j (get_or cmds j 0)) e);
        overflow =
            join_rounds n i j (bit_at s.overflow j) (bit_at s1.overflow j) _ _ _ rest.overflow
              (overflow-apply_one i w j s hj
                ∙ word_at_round (λ v. overflow_after j v (bit_at s.overflow j)) i j
                    (bit_at s.overflow j) cmds)
              (λ ne e. ap (overflow_after j (get_or cmds j 0)) e);
        puts =
            join_rounds n i j (puts_at s j) (puts_at s1 j) _ _ _ rest.puts
              (puts-apply_one i w j s
                ∙ word_at_round (λ v. puts_after j v (puts_at s j)) i j (puts_at s j) cmds)
              (λ ne e. ap (puts_after j (get_or cmds j 0)) e);
      }

-- A packet's commands, at any state of the FIFOs: of each stepgen whose word is not 0, the word goes
-- into its FIFO, with the direction bit inverted if the board's wiring says so, and the position
-- moves by the word's steps in the word's direction, if the FIFO has room within the wait; otherwise
-- nothing is put, it keeps its position and its overflow bit is set. All six are independent, a word
-- of 0 changes nothing, and under a checksum error none of them moves and nothing is put.
pub apply_stepgen_commands_lem :
    (dir_invert : ℕ → Bool) (full : ℕ → ℕ → Bool) (checksum_error : Bool) (cmds : List ℕ)
    (s : StepState) (j : ℕ)
    → length s.position ≡ 6
    → j < 6
    → let s' = apply_stepgen_commands dir_invert full checksum_error cmds s in
      let w = get_or cmds j 0 in
      (position_at s' j ≡ (
        if checksum_error
        then position_at s j
        else position_after dir_invert full j w (position_at s j)))
      × (bit_at s'.overflow j ≡ (
          if checksum_error
          then bit_at s.overflow j
          else overflow_after dir_invert full j w (bit_at s.overflow j)))
      × (puts_at s' j
          ≡ (if checksum_error then puts_at s j else puts_after dir_invert full j w (puts_at s j)))
unfolding apply_stepgen_commands
apply_stepgen_commands_lem dir_invert full true cmds s j len h = (refl, refl, refl)
apply_stepgen_commands_lem dir_invert full false cmds s j len h =
    let done = apply_from-Applied dir_invert full 6 0 cmds s j (omega arith) (omega arith) in
    let within : (leb 0 j && ltb j (0 + 6)) ≡ true = ground (arith, h) in
    (ground (arith, done.position), ground (arith, done.overflow), rw within at done.puts)

length-apply_from :
    (dir_invert : ℕ → Bool) (full : ℕ → ℕ → Bool) (n i : ℕ) (cmds : List ℕ) (s : StepState)
    → length (apply_from dir_invert full n i cmds s).position ≡ length s.position
unfolding apply_from
length-apply_from dir_invert full zero i cmds s = refl
length-apply_from dir_invert full (suc n) i cmds s =
    length-apply_from dir_invert full n (i + 1) cmds
      (apply_one dir_invert full i (get_or cmds i 0) s)
    ∙ length-apply_one dir_invert full i (get_or cmds i 0) s

pub length-apply_stepgen_commands :
    (dir_invert : ℕ → Bool) (full : ℕ → ℕ → Bool) (cmds : List ℕ) (s : StepState)
    → length (apply_stepgen_commands dir_invert full false cmds s).position ≡ length s.position
unfolding apply_stepgen_commands
length-apply_stepgen_commands dir_invert full cmds s = length-apply_from dir_invert full 6 0 cmds s
