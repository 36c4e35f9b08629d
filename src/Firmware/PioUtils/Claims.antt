-- ===== src/Firmware/PioUtils/Claims.antt =====
-- A state machine that is handed out was free, and is handed out to one caller.
use flexi_ninja.Prelude.{ℕ, zero, suc, refl, sym, inl, inr, Option, none, some, arith, ℕ_discrete}
use flexi_ninja.Prelude.{Bool-cases, length, get_or, set, length-set, get_or-set_self}
use flexi_ninja.Prelude.{get_or-set_ne, ◌+◌, ◌*◌, ◌≤◌, ◌<◌, ◌≡◌, ◌≢◌, ◌⊎◌, ◌∙◌, ◌&&◌, ◌==◌}
use mathlib.Core.Path.{subst}
use flexi_ninja.Firmware.PioUtils.{PioAlloc, reserve, slot, scan_sm, scan_block, get_next_pio}

pub record IsPioAlloc (st : PioAlloc) : Type 0 where
  pub blocks : length st.pio_memory ≡ 3
  pub machines : length st.pio_claimed ≡ 12

abbrev pub is_claimed : PioAlloc → ℕ → ℕ
is_claimed st k = get_or st.pio_claimed k 0

-- From `st` the call has claimed machine `s` of block `p`: it was free, the block holds a program
-- of this length, and no other machine changed hands.
pub record Claimed (len : ℕ) (st : PioAlloc) (p s : ℕ) (st' : PioAlloc) : Type 0 where
  pub valid : IsPioAlloc st'
  pub block_in : p < 3
  pub machine_in : s < 4
  pub was_free : is_claimed st (p * 4 + s) ≡ 0
  pub now_taken : is_claimed st' (p * 4 + s) ≡ 1
  pub holds : get_or st'.pio_memory p 0 ≡ len
  pub others : (k : ℕ) → k ≢ p * 4 + s → is_claimed st' k ≡ is_claimed st k

-- No machine of `[s, s + n)` of block `p` can be had for a program of this length.
abbrev pub Full : ℕ → ℕ → ℕ → ℕ → PioAlloc → Type 0
Full n s p len st =
    (k : ℕ) → s ≤ k → k < s + n → (get_or st.pio_memory p 0 ≢ len) ⊎ (is_claimed st (p * 4 + k) ≢ 0)

abbrev SmOutcome : ℕ → ℕ → ℕ → ℕ → PioAlloc → Option (ℕ × ℕ) × PioAlloc → Type 0
SmOutcome n s p len st (none, st') = (st' ≡ st) × Full n s p len st
SmOutcome n s p len st (some (q, k), st') = (q ≡ p) × Claimed len st q k st'

reserve-settled : (p len : ℕ) (st : PioAlloc) → get_or st.pio_memory p 0 ≢ 0 → reserve p len st ≡ st
reserve-settled p len st h = ground arith

claim-Claimed :
    (s p len : ℕ) (st : PioAlloc)
    → IsPioAlloc st
    → p < 3
    → s < 4
    → get_or st.pio_memory p 0 ≡ len
    → is_claimed st (slot p s) ≡ 0
    → Claimed len st p s (record st { pio_claimed = set st.pio_claimed (slot p s) 1 })
claim-Claimed s p len st v hp hs holds free =
    let at : slot p s ≡ p * 4 + s = omega arith in
    record {
      valid = record {
        blocks = v.blocks;
        machines = length-set st.pio_claimed (slot p s) 1 ∙ v.machines;
      };
      block_in = hp;
      machine_in = hs;
      was_free = rw (← at) free;
      now_taken =
          rw at (get_or-set_self st.pio_claimed (p * 4 + s) 1 0 (omega (arith, v.machines)));
      holds = holds;
      others = λ k ne. rw at (get_or-set_ne st.pio_claimed (p * 4 + s) k 1 0 (λ e. ne (sym e)));
    }

SmOutcome-extend :
    (n s p len : ℕ) (st : PioAlloc) (o : Option (ℕ × ℕ) × PioAlloc)
    → SmOutcome n (s + 1) p len st o
    → (get_or st.pio_memory p 0 ≢ len) ⊎ (is_claimed st (p * 4 + s) ≢ 0)
    → SmOutcome (suc n) s p len st o
SmOutcome-extend n s p len st (some (q, k), st') h here = h
SmOutcome-extend n s p len st (none, st') h here = (
  h.0,
  λ k a b. elim (ℕ_discrete s k) [
    | yes e ↦ subst (λ j. (get_or st.pio_memory p 0 ≢ len) ⊎ (is_claimed st (p * 4 + j) ≢ 0)) e here
    | no ne ↦ h.1 k (omega arith) (omega arith)
  ],
)

scan_sm_settled :
    (n s p len : ℕ) (st : PioAlloc)
    → IsPioAlloc st
    → p < 3
    → s + n ≤ 4
    → get_or st.pio_memory p 0 ≢ 0
    → SmOutcome n s p len st (scan_sm n s p len st)
unfolding scan_sm
scan_sm_settled zero s p len st v hp hs settled = (refl, λ k a b. absurd (omega arith))
scan_sm_settled (suc n) s p len st v hp hs settled =
    let rest = scan_sm_settled n (s + 1) p len st v hp (omega arith) settled in
    rw (reserve-settled p len st settled)
      (elim (Bool-cases
        (get_or st.pio_memory p 0 == len && get_or st.pio_claimed (slot p s) 0 == 0)) [
          | inl e ↦
              rw e (refl, claim-Claimed s p len st v hp (omega arith) (ground arith) (ground arith))
          | inr e ↦ rw e (SmOutcome-extend n s p len st _ rest (ground arith))
        ])

reserved :
    (p len : ℕ) (st : PioAlloc)
    → IsPioAlloc st
    → 0 < len
    → p < 3
    → get_or (reserve p len st).pio_memory p 0 ≢ 0
reserved p len st v hl hp = ground (arith, get_or-set_self st.pio_memory p len 0)

-- A block looks the same to a search after its memory is reserved.
scan_sm-reserve :
    (n p len : ℕ) (st : PioAlloc)
    → IsPioAlloc st
    → 0 < len
    → p < 3
    → scan_sm (suc n) 0 p len st ≡ scan_sm (suc n) 0 p len (reserve p len st)
unfolding scan_sm
scan_sm-reserve n p len st v hl hp =
    rw (reserve-settled p len (reserve p len st) (reserved p len st v hl hp))

reserve-IsPioAlloc : (p len : ℕ) (st : PioAlloc) → IsPioAlloc st → IsPioAlloc (reserve p len st)
reserve-IsPioAlloc p len st v = ground (arith, length-set st.pio_memory p len)

is_claimed-reserve :
    (p len k : ℕ) (st : PioAlloc) → is_claimed (reserve p len st) k ≡ is_claimed st k
is_claimed-reserve p len k st = ground arith

memory-reserve_ne :
    (p q len : ℕ) (st : PioAlloc)
    → p ≢ q
    → get_or (reserve p len st).pio_memory q 0 ≡ get_or st.pio_memory q 0
memory-reserve_ne p q len st ne = ground (arith, get_or-set_ne st.pio_memory p q len 0)

-- Blocks `[p, p + n)` offer nothing in `st'`, which has the claims of `st` and its blocks below `p`.
pub record Exhausted (n p len : ℕ) (st st' : PioAlloc) : Type 0 where
  pub full : (q : ℕ) → p ≤ q → q < p + n → Full 4 0 q len st'
  pub claims : (k : ℕ) → is_claimed st' k ≡ is_claimed st k
  pub below : (q : ℕ) → q < p → get_or st'.pio_memory q 0 ≡ get_or st.pio_memory q 0

abbrev pub Outcome : ℕ → ℕ → ℕ → PioAlloc → Option (ℕ × ℕ) × PioAlloc → Type 0
Outcome n p len st (some (q, k), st') = Claimed len st q k st'
Outcome n p len st (none, st') = Exhausted n p len st st'

Claimed-reserve :
    (p q k len : ℕ) (st st' : PioAlloc)
    → Claimed len (reserve p len st) q k st'
    → Claimed len st q k st'
Claimed-reserve p q k len st st' c = record {
  valid = c.valid;
  block_in = c.block_in;
  machine_in = c.machine_in;
  was_free = sym (is_claimed-reserve p len (q * 4 + k) st) ∙ c.was_free;
  now_taken = c.now_taken;
  holds = c.holds;
  others = λ j ne. c.others j ne ∙ is_claimed-reserve p len j st;
}

Full-move :
    (p len : ℕ) (st st' : PioAlloc)
    → Full 4 0 p len st
    → ((k : ℕ) → is_claimed st' k ≡ is_claimed st k)
    → get_or st'.pio_memory p 0 ≡ get_or st.pio_memory p 0
    → Full 4 0 p len st'
Full-move p len st st' f same mem k a b = rw (same (p * 4 + k), mem) (f k a b)

-- What the outer loop does with the outcome of a block's search.
abbrev resume : ℕ → ℕ → ℕ → Option (ℕ × ℕ) × PioAlloc → Option (ℕ × ℕ) × PioAlloc
resume n p len o = elim (o.0) [
  | some found ↦ (some found, o.1)
  | none ↦ scan_block n (p + 1) len o.1
]

-- One more block, after its own search and that of the blocks behind it.
block_step :
    (n p len : ℕ) (st : PioAlloc) (o : Option (ℕ × ℕ) × PioAlloc)
    → SmOutcome 4 0 p len (reserve p len st) o
    → Outcome n (p + 1) len (reserve p len st) (scan_block n (p + 1) len (reserve p len st))
    → Outcome (suc n) p len st (resume n p len o)
block_step n p len st (some (q, k), st') h rest = Claimed-reserve p q k len st st' h.1
block_step n p len st (none, st') h rest =
    rw (h.0) (pass (scan_block n (p + 1) len (reserve p len st)) rest)
  where
    st1 : PioAlloc
    st1 = reserve p len st

    pass :
        (o : Option (ℕ × ℕ) × PioAlloc) → Outcome n (p + 1) len st1 o → Outcome (suc n) p len st o
    pass (some (q, k), st2) c = Claimed-reserve p q k len st st2 c
    pass (none, st2) x = record {
      full = λ q a b. elim (ℕ_discrete p q) [
        | yes e ↦
            subst (λ j. Full 4 0 j len st2) e
              (Full-move p len st1 st2 h.1 x.claims (x.below p (omega arith)))
        | no ne ↦ x.full q (omega arith) (omega arith)
      ];
      claims = λ k. x.claims k ∙ is_claimed-reserve p len k st;
      below = λ q b. x.below q (omega arith) ∙ memory-reserve_ne p q len st (omega arith);
    }

scan_block-Outcome :
    (n p len : ℕ) (st : PioAlloc)
    → IsPioAlloc st
    → 0 < len
    → p + n ≤ 3
    → Outcome n p len st (scan_block n p len st)
unfolding scan_block
scan_block-Outcome zero p len st v hl hp = record {
  full = λ q a b. absurd (omega arith);
  claims = λ k. refl;
  below = λ q b. refl;
}
scan_block-Outcome (suc n) p len st v hl hp =
    let st1 = reserve p len st in
    let v1 = reserve-IsPioAlloc p len st v in
    subst (λ o. Outcome (suc n) p len st (resume n p len o))
      (sym (scan_sm-reserve 3 p len st v hl (omega arith)))
      (block_step n p len st (scan_sm 4 0 p len st1)
        (scan_sm_settled 4 0 p len st1 v1 (omega arith) (omega arith)
          (reserved p len st v hl (omega arith)))
        (scan_block-Outcome n (p + 1) len st1 v1 hl (omega arith)))

-- A call either claims one free state machine, in a block that holds a program of the caller's
-- length, and touches no other claim; or it claims nothing, and then no block offers one: each holds
-- a program of another length or has its four machines taken.
pub get_next_pio-Outcome :
    (len : ℕ) (st : PioAlloc) → IsPioAlloc st → 0 < len → Outcome 3 0 len st (get_next_pio len st)
unfolding get_next_pio
get_next_pio-Outcome len st v hl = scan_block-Outcome 3 0 len st v hl (omega arith)
