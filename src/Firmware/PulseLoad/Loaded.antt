-- ===== src/Firmware/PulseLoad/Loaded.antt =====
-- The step programs hold what the packets ask for.
use flexi_ninja.Prelude.{ℕ, zero, suc, refl, ap, inl, inr, true, false, List, [], arith, dec_lt}
use flexi_ninja.Prelude.{ℕ_discrete, ltb, Bool-cases, ltb→lt, lt→ltb, length, get_or, set}
use flexi_ninja.Prelude.{every_below, every_below_apply, length-set, get_or-set_self}
use flexi_ninja.Prelude.{get_or-set_ne, ◌+◌, ◌*◌, ◌≤◌, ◌<◌, ◌≡◌, ◌≢◌, ◌⊎◌, ◌∙◌}
use flexi_ninja.PioSettings
use flexi_ninja.PioSettings.{pio_settings, pio_settings_count}
use flexi_ninja.PioSettings.Table.{pio_settings_sound}
use flexi_ninja.Transmission.Packet.{PcPico}
use flexi_ninja.Firmware.StepProgram.{Instruction, Patch, freq_generator}
use flexi_ninja.Firmware.StepProgram.Run.{settle}
use flexi_ninja.Firmware.CoreState.{Core1}
use flexi_ninja.Firmware.PulseLoad.{
  dir_cycles, dir_count, patch_of, same_patch, write_patch, write_programs, load_pulse,
}

-- The patch that entry `j` of the table makes.
pub record IsEntry (j : ℕ) (p : Patch) : Type 0 where
  pub in_table : j < 299
  pub sety_is : p.sety ≡ PioSettings.sety j
  pub nop_is : p.nop_delay ≡ PioSettings.nop j

pub patch_of-IsEntry : (p : PcPico) → p.pio_timing < 299 → IsEntry p.pio_timing (patch_of p)
unfolding patch_of
patch_of-IsEntry p h =
    let sound = pio_settings_sound p.pio_timing h in
    record { in_table = h; sety_is = omega (arith, sound.0); nop_is = omega (arith, sound.1) }

-- The wait after a change of the direction is as long as asked for, unless the count is at its limit.
dir_count_enough :
    (cycles : ℕ)
    → dir_count cycles ≤ 31 × ((cycles ≤ dir_count cycles * 66 + 3) ⊎ (dir_count cycles ≡ 31))
unfolding dir_count
dir_count_enough cycles = ground arith

pub patch_of-settle :
    (p : PcPico) → (dir_cycles p.dir_setup_ns ≤ settle (patch_of p) 1) ⊎ ((patch_of p).dir_n ≡ 31)
unfolding patch_of
patch_of-settle p = (dir_count_enough (dir_cycles p.dir_setup_ns)).1

positive_table : every_below 299 (λ i. ltb 0 (PioSettings.sety i)) ≡ true
unfolding every_below pio_settings
positive_table = refl

sety_positive : (j : ℕ) → j < 299 → 0 < PioSettings.sety j
sety_positive j h =
    ltb→lt _ _ (every_below_apply 299 (λ i. ltb 0 (PioSettings.sety i)) j positive_table h)

eq_patch :
    (a b : Patch)
    → a.dir_n ≡ b.dir_n
    → a.dir_d1 ≡ b.dir_d1
    → a.dir_d2 ≡ b.dir_d2
    → a.sety ≡ b.sety
    → a.nop_delay ≡ b.nop_delay
    → a ≡ b
eq_patch a b e1 e2 e3 e4 e5 =
    λ i. record { dir_n = e1 i; dir_d1 = e2 i; dir_d2 = e3 i; sety = e4 i; nop_delay = e5 i }

same_patch_eq : (a b : Patch) → same_patch a b ≡ true → a ≡ b
same_patch_eq a b h =
    eq_patch a b (ground arith) (ground arith) (ground arith) (ground arith) (ground arith)

write_patch-freq_generator : (q r : Patch) → write_patch q (freq_generator r) ≡ freq_generator q
unfolding write_patch freq_generator
write_patch-freq_generator q r = refl

-- A loaded program: the source's, with some operands.
abbrev pub IsProgram : List Instruction → Type 0
IsProgram m = (r : Patch) × (m ≡ freq_generator r)

abbrev pub program_at : List (List Instruction) → ℕ → List Instruction
program_at programs b = get_or programs b []

module _ (block : ℕ → ℕ) (q : Patch) where
  -- Every stepgen's block is there and holds the program.
  record Holds (programs : List (List Instruction)) : Type 0 where
    in_range : (k : ℕ) → k < 6 → block k < length programs
    held : (k : ℕ) → k < 6 → IsProgram (program_at programs (block k))

  abbrev write_one : ℕ → List (List Instruction) → List (List Instruction)
  write_one i programs = set programs (block i) (write_patch q (program_at programs (block i)))

  write_one_same :
      (i : ℕ) (programs : List (List Instruction)) (b : ℕ)
      → i < 6
      → Holds programs
      → block i ≡ b
      → program_at (write_one i programs) b ≡ freq_generator q
  write_one_same i programs b hi h e =
      let (r, held) = h.held i hi in
      rw (← e) (
        get_or-set_self programs (block i) (write_patch q (program_at programs (block i))) []
          (h.in_range i hi)
        ∙ ap (write_patch q) held
        ∙ write_patch-freq_generator q r)

  write_one_other :
      (i : ℕ) (programs : List (List Instruction)) (b : ℕ)
      → block i ≢ b
      → program_at (write_one i programs) b ≡ program_at programs b
  write_one_other i programs b ne =
      get_or-set_ne programs (block i) b (write_patch q (program_at programs (block i))) [] ne

  write_one_keeps :
      (i : ℕ) (programs : List (List Instruction)) (b : ℕ)
      → i < 6
      → Holds programs
      → program_at programs b ≡ freq_generator q
      → program_at (write_one i programs) b ≡ freq_generator q
  write_one_keeps i programs b hi h here = elim (ℕ_discrete (block i) b) [
    | yes e ↦ write_one_same i programs b hi h e
    | no ne ↦ write_one_other i programs b ne ∙ here
  ]

  write_one-Holds :
      (i : ℕ) (programs : List (List Instruction))
      → i < 6
      → Holds programs
      → Holds (write_one i programs)
  write_one-Holds i programs hi h = record {
    in_range = λ k hk.
        rw (length-set programs (block i) (write_patch q (program_at programs (block i))))
          (h.in_range k hk);
    held = λ k hk. elim (ℕ_discrete (block i) (block k)) [
      | yes e ↦ (q, write_one_same i programs (block k) hi h e)
      | no ne ↦ let (r, held) = h.held k hk in (r, write_one_other i programs (block k) ne ∙ held)
    ];
  }

  -- The rounds `[i, i + n)` give their blocks the operands, and no other block changes what it has.
  record Written (n i : ℕ) (programs programs' : List (List Instruction)) : Type 0 where
    holds : Holds programs'
    kept :
        (b : ℕ)
        → program_at programs b ≡ freq_generator q
        → program_at programs' b ≡ freq_generator q
    wrote : (k : ℕ) → i ≤ k → k < i + n → program_at programs' (block k) ≡ freq_generator q

  write_programs-Written :
      (n i : ℕ) (programs : List (List Instruction))
      → i + n ≤ 6
      → Holds programs
      → Written n i programs (write_programs block q n i programs)
  unfolding write_programs
  write_programs-Written zero i programs hi h = record {
    holds = h;
    kept = λ b e. e;
    wrote = λ k a b. absurd (omega (arith, a, b));
  }
  write_programs-Written (suc n) i programs hi h =
      let programs1 = write_one i programs in
      let h1 = write_one-Holds i programs (omega arith) h in
      let rest = write_programs-Written n (i + 1) programs1 (omega arith) h1 in
      record {
        holds = rest.holds;
        kept = λ b e. rest.kept b (write_one_keeps i programs b (omega arith) h e);
        wrote = λ k a b. elim (ℕ_discrete i k) [
          | yes e ↦
              rest.kept (block k) (write_one_same i programs (block k) (omega arith) h (ap block e))
          | no ne ↦ rest.wrote k (omega (arith, a, ne)) (omega (arith, b))
        ];
      }

-- The programs are those of the source with some operands, which are the last ones written; before
-- the first packet none are, and `old_sety` is 0.
pub record IsLoaded (block : ℕ → ℕ) (s : Core1) : Type 0 where
  pub in_range : (k : ℕ) → k < 6 → block k < length s.programs
  pub held :
      (k : ℕ)
      → k < 6
      → (r : Patch) × (program_at s.programs (block k) ≡ freq_generator r)
        × ((s.old.sety ≡ 0) ⊎ (r ≡ s.old))

-- Every stepgen's program has the operands.
abbrev pub HasPatch : (ℕ → ℕ) → Patch → Core1 → Type 0
HasPatch block q s = (k : ℕ) → k < 6 → program_at s.programs (block k) ≡ freq_generator q

patch_sety : (p : PcPico) → p.pio_timing < 299 → 0 < (patch_of p).sety
patch_sety p h = omega (arith, (patch_of-IsEntry p h).sety_is, sety_positive p.pio_timing h)

-- The operands remembered are those in the programs, once there are any.
remembered :
    (block : ℕ → ℕ) (q : Patch) (s : Core1)
    → IsLoaded block s
    → s.old ≡ q
    → 0 < q.sety
    → HasPatch block q s
remembered block q s h e positive k hk =
    let (r, held, known) = h.held k hk in
    held ∙ elim known [
      | inl none_yet ↦ absurd (omega (arith, none_yet, ap (λ (o : Patch). o.sety) e))
      | inr last ↦ ap freq_generator (last ∙ e)
    ]

-- The pulse width of a packet is in every program after it: also when nothing is written, since the
-- programs hold the operands then.
pub load_pulse-HasPatch :
    (block : ℕ → ℕ) (p : PcPico) (s : Core1)
    → IsLoaded block s
    → p.pio_timing < 299
    → let s' = (load_pulse block p s).0 in IsLoaded block s' × HasPatch block (patch_of p) s'
unfolding load_pulse
load_pulse-HasPatch block p s h hp =
    let q = patch_of p in
    let inside = lt→ltb p.pio_timing pio_settings_count hp in
    elim (Bool-cases (same_patch s.old q)) [
      | inl same ↦
          let loaded = remembered block q s h (same_patch_eq s.old q same) (patch_sety p hp) in
          rw (inside, same) (record { in_range = h.in_range; held = h.held }, loaded)
      | inr other ↦
          let before : Holds block q s.programs = record {
            in_range = h.in_range;
            held = λ k hk. let (r, held, known) = h.held k hk in (r, held);
          } in
          let after = write_programs-Written block q 6 0 s.programs (omega arith) before in
          let wrote = λ (k : ℕ) (hk : k < 6). after.wrote k (omega arith) (omega (arith, hk)) in
          let kept = after.holds.in_range in
          rw (inside, other)
            (record { in_range = kept; held = λ k hk. (q, wrote k hk, inr refl) }, wrote)
    ]

-- Outside the table nothing changes.
pub load_pulse-IsLoaded :
    (block : ℕ → ℕ) (p : PcPico) (s : Core1)
    → IsLoaded block s
    → IsLoaded block (load_pulse block p s).0
unfolding load_pulse
load_pulse-IsLoaded block p s h = elim (dec_lt p.pio_timing 299) [
  | yes inside ↦ (load_pulse-HasPatch block p s h inside).0
  | no outside ↦
      let e : ltb p.pio_timing pio_settings_count ≡ false = ground (arith, outside) in rw e h
]
