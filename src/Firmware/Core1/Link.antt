-- ===== src/Firmware/Core1/Link.antt =====
-- What the rounds of core 1 keep, and what a lost link does.
use flexi_ninja.Prelude.{ℕ, zero, suc, refl, ap, inl, inr, false, List, [], arith, ltb}
use flexi_ninja.Prelude.{Bool-cases, get_or, ◌+◌, ◌≤◌, ◌<◌, ◌≡◌, ◌⊎◌, ◌∙◌, ◌==◌}
use flexi_ninja.Transmission.Packet.{PcPico}
use flexi_ninja.Firmware.StepProgram.Run.{settle}
use flexi_ninja.Firmware.HandleData.{Config}
use flexi_ninja.Firmware.CoreState.{Core1, Call, each}
use flexi_ninja.Firmware.GpioCallback.{reset_encoder_counter}
use flexi_ninja.Firmware.PulseLoad.{patch_of, dir_cycles, load_pulse}
use flexi_ninja.Firmware.PulseLoad.Loaded.{
  IsEntry, patch_of-IsEntry, patch_of-settle, IsLoaded, HasPatch, load_pulse-HasPatch,
  load_pulse-IsLoaded,
}
use flexi_ninja.Firmware.Core1.{
  disconnect, arm_index, arm_edges, set_pwm, serve_link, time_diff, core1_round,
}

-- A loop keeps what its body keeps.
pub each-keeps :
    (P : Core1 → Type 0) (body : ℕ → Core1 → Core1 × List Call)
    → ((i : ℕ) (s : Core1) → P s → P (body i s).0)
    → (n i : ℕ) (s : Core1) → P s
    → P (each body n i s).0
unfolding each
each-keeps P body kept zero i s h = h
each-keeps P body kept (suc n) i s h = each-keeps P body kept n (i + 1) (body i s).0 (kept i s h)

-- The programs and the operands remembered.
abbrev SamePrograms : Core1 → Core1 → Type 0
SamePrograms s t = (t.programs ≡ s.programs) × (t.old ≡ s.old)

arm_index-SamePrograms :
    (c : Config) (p : PcPico) (i : ℕ) (s : Core1) → SamePrograms s (arm_index c p i s).0
unfolding arm_index
arm_index-SamePrograms c p i s = (ground arith, ground arith)

arm_edges-SamePrograms :
    (c : Config) (pins : ℕ) (p : PcPico) (i : ℕ) (s : Core1)
    → SamePrograms s (arm_edges c pins p i s).0
unfolding arm_edges
arm_edges-SamePrograms c pins p i s = (ground arith, ground arith)

set_pwm-SamePrograms :
    (c : Config) (slice : ℕ → ℕ) (p : PcPico) (i : ℕ) (s : Core1)
    → SamePrograms s (set_pwm c slice p i s).0
unfolding set_pwm
set_pwm-SamePrograms c slice p i s = (ground arith, ground arith)

reset_encoder_counter-SamePrograms :
    (c : Config) (pins i : ℕ) (s : Core1) → SamePrograms s (reset_encoder_counter c pins i s).0
unfolding reset_encoder_counter
reset_encoder_counter-SamePrograms c pins i s = (ground arith, ground arith)

-- What a loop over such a body leaves.
each-SamePrograms :
    (body : ℕ → Core1 → Core1 × List Call)
    → ((i : ℕ) (s : Core1) → SamePrograms s (body i s).0)
    → (n : ℕ) (s : Core1) → SamePrograms s (each body n 0 s).0
each-SamePrograms body same n s =
    each-keeps (SamePrograms s) body (λ i t h. ((same i t).0 ∙ h.0, (same i t).1 ∙ h.1)) n 0 s
      (refl, refl)

IsLoaded-SamePrograms :
    (block : ℕ → ℕ) (s t : Core1) → SamePrograms s t → IsLoaded block s → IsLoaded block t
IsLoaded-SamePrograms block s t same h = record {
  in_range = rw (same.0) h.in_range;
  held = rw (same.0, same.1) h.held;
}

module _ (c : Config) (block slice : ℕ → ℕ) (pins : ℕ) where
  -- The loops of a live round around the pulse width.
  abbrev before_pulse : PcPico → Core1 → Core1
  before_pulse p s =
      (each (arm_edges c pins p) 2 0
        (each (arm_index c p) 2 0 (record s { timeout_error = 0; connected = 1 })).0).0

  before_pulse-SamePrograms : (p : PcPico) (s : Core1) → SamePrograms s (before_pulse p s)
  before_pulse-SamePrograms p s =
      let s0 : Core1 = record s { timeout_error = 0; connected = 1 } in
      let s1 = (each (arm_index c p) 2 0 s0).0 in
      let first = each-SamePrograms (arm_index c p) (arm_index-SamePrograms c p) 2 s0 in
      let second = each-SamePrograms (arm_edges c pins p) (arm_edges-SamePrograms c pins p) 2 s1 in
      (second.0 ∙ first.0, second.1 ∙ first.1)

  after_pulse :
      (p : PcPico) (s : Core1)
      → SamePrograms (load_pulse block p (before_pulse p s)).0 (serve_link c block slice pins p s).0
  unfolding serve_link
  after_pulse p s =
      each-SamePrograms (set_pwm c slice p) (set_pwm-SamePrograms c slice p) 1
        (load_pulse block p (before_pulse p s)).0

  disconnect-SamePrograms : (s : Core1) → SamePrograms s (disconnect c pins s).0
  unfolding disconnect
  disconnect-SamePrograms s =
      each-SamePrograms (reset_encoder_counter c pins) (reset_encoder_counter-SamePrograms c pins) 2
        (record s { connected = 0 })

  serve_link-IsLoaded :
      (p : PcPico) (s : Core1)
      → IsLoaded block s
      → IsLoaded block (serve_link c block slice pins p s).0
  serve_link-IsLoaded p s h =
      let s2 = before_pulse p s in
      let loaded =
        load_pulse-IsLoaded block p s2
          (IsLoaded-SamePrograms block s s2 (before_pulse-SamePrograms p s) h) in
      IsLoaded-SamePrograms block (load_pulse block p s2).0 (serve_link c block slice pins p s).0
        (after_pulse p s) loaded

  core1_round-IsLoaded :
      (now : ℕ) (p : PcPico) (s : Core1)
      → IsLoaded block s
      → IsLoaded block (core1_round c block slice now pins p s).0
  unfolding core1_round
  core1_round-IsLoaded now p s h =
      elim (Bool-cases (ltb s.timeout_us (time_diff now s.board.last_packet_time))) [
        | inl silent ↦ elim (Bool-cases (s.timeout_error == 0)) [
          | inl first ↦
              rw (silent, first)
                (IsLoaded-SamePrograms block s (disconnect c pins s).0 (disconnect-SamePrograms s)
                  h)
          | inr later ↦ rw (silent, later) h
        ]
        | inr live ↦ rw live (serve_link-IsLoaded p s h)
      ]

  -- A round of core 1 in which the link is live and the packet's pulse width is of the table, from
  -- programs that are those of the source with the operands that core 1 remembers: after it they are
  -- so again, the program of every stepgen has the high time of that entry, and it has a wait after
  -- a change of the direction that is as long as the packet asks for, or the longest that there is.
  pub core1_round-HasPatch :
      (now : ℕ) (p : PcPico) (s : Core1)
      → IsLoaded block s
      → p.pio_timing < 299
      → ltb s.timeout_us (time_diff now s.board.last_packet_time) ≡ false
      → let s' = (core1_round c block slice now pins p s).0 in
        let q = patch_of p in
        IsLoaded block s'
        × HasPatch block q s'
        × IsEntry p.pio_timing q
        × ((dir_cycles p.dir_setup_ns ≤ settle q 1) ⊎ (q.dir_n ≡ 31))
  unfolding core1_round
  core1_round-HasPatch now p s h hp live =
      let s2 = before_pulse p s in
      let loaded =
        load_pulse-HasPatch block p s2
          (IsLoaded-SamePrograms block s s2 (before_pulse-SamePrograms p s) h) hp in
      let same = after_pulse p s in
      (
        core1_round-IsLoaded now p s h,
        (λ k hk. rw live (ap (λ m. get_or m (block k) []) same.0 ∙ loaded.1 k hk)),
        patch_of-IsEntry p hp,
        patch_of-settle p,
      )
