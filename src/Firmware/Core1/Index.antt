-- ===== src/Firmware/Core1/Index.antt =====
-- The index pulse: what its interrupt does, what the next packet reports of it, and what gets lost.
use flexi_ninja.Prelude.{ℕ, zero, suc, refl, ap, inl, inr, true, false, List, [], arith}
use flexi_ninja.Prelude.{Bool-cases, length, get_or, get_or-set_self, u8, sub32, bit_at, test_bit}
use flexi_ninja.Prelude.{set_bit, bit_at-set_bit, ◌+◌, ◌<◌, ◌≡◌, ◌≢◌, ◌∙◌, ◌∷◌, ◌++◌, ◌==◌}
use flexi_ninja.Prelude.{if◌then◌else◌}
use flexi_ninja.Firmware.IrqEncoder.{encoder_at, is_irq, reset_count, handle_edge}
use flexi_ninja.Firmware.Stepgen.Laws.{bit_at-u8}
use flexi_ninja.Firmware.HandleData.{Config, Board, Reads, take_index_flags, encoder_report}
use mathlib.Core.List.{append-nil}
use flexi_ninja.Firmware.CoreState.{Core1, Call, zero_y, irq, each}
use flexi_ninja.Firmware.GpioCallback.{
  reset_encoder_counter, index_edge, index_call, callback_one, gpio_callback,
}
use flexi_ninja.Firmware.Core1.Lost.{
  count_after, pio_count, pio_count-append, HasEncoder, reset_zero,
}

-- The pin is none of the two that encoder `k` counts at.
abbrev pub IsApart : ℕ → ℕ → Core1 → Type 0
IsApart gpio k s =
    let base = (encoder_at s.board.irq.cfg k).base_pin in (gpio ≢ base) × (gpio ≢ base + 1)

handle_edge_apart :
    (pins i gpio : ℕ) (s : Core1)
    → IsApart gpio i s
    → (handle_edge pins i gpio s.board.irq).0 ≡ s.board.irq
unfolding handle_edge
handle_edge_apart pins i gpio s h = ground (arith, h.0, h.1)

module _ (c : Config) (pins : ℕ) where
  index_edge-cfg : (i : ℕ) (s : Core1) → (index_edge c pins i s).0.board.irq.cfg ≡ s.board.irq.cfg
  unfolding index_edge reset_encoder_counter reset_count
  index_edge-cfg i s = ground arith

  callback_other :
      (gpio i : ℕ) (s : Core1)
      → gpio ≢ (encoder_at c.encoder_config i).index_pin
      → IsApart gpio i s
      → callback_one c pins gpio i s ≡ (s, [])
  unfolding callback_one
  callback_other gpio i s ne h =
      let no : gpio == (encoder_at c.encoder_config i).index_pin ≡ false = ground (arith, ne) in
      rw (no, handle_edge_apart pins i gpio s h) refl

  callback_own :
      (gpio i : ℕ) (s : Core1)
      → gpio ≡ (encoder_at c.encoder_config i).index_pin
      → IsApart gpio i s
      → callback_one c pins gpio i s ≡ index_edge c pins i s
  unfolding callback_one
  callback_own gpio i s e h =
      let s1 = (index_edge c pins i s).0 in
      let yes_index : gpio == (encoder_at c.encoder_config i).index_pin ≡ true =
        ground (arith, e) in
      let apart : IsApart gpio i s1 = rw (index_edge-cfg i s) h in
      rw (yes_index, handle_edge_apart pins i gpio s1 apart) refl

  -- No other encoder is at the pin.
  pub record IsIndexPin (gpio i : ℕ) (s : Core1) : Type 0 where
    pub own : gpio ≡ (encoder_at c.encoder_config i).index_pin
    pub other : (k : ℕ) → k < 2 → k ≢ i → gpio ≢ (encoder_at c.encoder_config k).index_pin
    pub apart : (k : ℕ) → k < 2 → IsApart gpio k s

  callback_edge :
      (i gpio : ℕ) (s : Core1)
      → i < 2
      → IsIndexPin gpio i s
      → gpio_callback c pins gpio s ≡ index_edge c pins i s
  unfolding gpio_callback each
  callback_edge zero gpio s hi h =
      let (s1, calls) = index_edge c pins 0 s in
      let apart : IsApart gpio 1 s1 = rw (index_edge-cfg 0 s) (h.apart 1 (omega arith)) in
      let ne : gpio ≢ (encoder_at c.encoder_config 1).index_pin =
        h.other 1 (omega arith) (λ e. absurd (omega (arith, e))) in
      ap
        (λ (x : Core1 × List Call).
          let y = callback_one c pins gpio 1 x.0 in (y.0, x.1 ++ (y.1 ++ [])))
        (callback_own gpio 0 s h.own (h.apart 0 (omega arith)))
      ∙ ap (λ (y : Core1 × List Call). (y.0, calls ++ (y.1 ++ [])))
          (callback_other gpio 1 s1 ne apart)
      ∙ ap (λ (l : List Call). (s1, l)) (append-nil calls)
  callback_edge (suc zero) gpio s hi h =
      let (s1, calls) = index_edge c pins 1 s in
      ap
        (λ (x : Core1 × List Call).
          let y = callback_one c pins gpio 1 x.0 in (y.0, x.1 ++ (y.1 ++ [])))
        (callback_other gpio 0 s (h.other 0 (omega arith) (λ e. absurd (omega (arith, e))))
          (h.apart 0 (omega arith)))
      ∙ ap (λ (y : Core1 × List Call). (y.0, y.1 ++ []))
          (callback_own gpio 1 s h.own (h.apart 1 (omega arith)))
      ∙ ap (λ (l : List Call). (s1, l)) (append-nil calls)
  callback_edge (suc (suc i)) gpio s hi h = absurd (omega (arith, hi))

  index_edge-flags :
      (i : ℕ) (s : Core1)
      → (index_edge c pins i s).0.board.index_reset_flags ≡ u8 (set_bit s.board.index_reset_flags i)
  unfolding index_edge reset_encoder_counter
  index_edge-flags i s = ground arith

  index_edge-disarmed :
      (i : ℕ) (s : Core1)
      → i < length s.enc_index_enabled
      → get_or (index_edge c pins i s).0.enc_index_enabled i 0 ≢ 1
  unfolding index_edge reset_encoder_counter
  index_edge-disarmed i s hi = ground (arith, get_or-set_self s.enc_index_enabled i 0 0 hi)

  index_edge-count :
      (i n : ℕ) (s : Core1) → HasEncoder i s → count_after c i n (index_edge c pins i s) ≡ 0
  unfolding index_edge
  index_edge-count i n s h =
      let (s1, calls) = reset_encoder_counter c pins i s in
      let off = irq (index_call (encoder_at c.encoder_config i) false) ∷ [] in
      let zero_count = reset_zero c pins i n s h in
      elim (Bool-cases (get_or s1.enc_index_enabled i 0 == 1)) [
        | inr e ↦ rw e zero_count
        | inl e ↦ elim (Bool-cases (is_irq (encoder_at c.encoder_config i))) [
          | inl k ↦ rw (e, k) (rw k at zero_count)
          | inr k ↦
              rw (e, k)
                (pio_count-append i n calls off ∙ ap (λ m. pio_count i m off) (rw k at zero_count))
        ]
      ]

  -- What an edge of an armed index pin calls.
  index_edge-calls :
      (i : ℕ) (s : Core1)
      → get_or s.enc_index_enabled i 0 ≡ 1
      → let pin = encoder_at c.encoder_config i in
        (index_edge c pins i s).1
        ≡ (if is_irq pin then [] else zero_y i ∷ []) ++ (irq (index_call pin false) ∷ [])
  unfolding index_edge reset_encoder_counter
  index_edge-calls i s on =
      let test : (get_or s.enc_index_enabled i 0 == 1) ≡ true = ground (arith, on) in
      elim (Bool-cases (is_irq (encoder_at c.encoder_config i))) [
        | inl e ↦ rw (e, test) refl
        | inr e ↦ rw (e, test) refl
      ]

  index_edge-tx : (i : ℕ) (s : Core1) → (index_edge c pins i s).0.board.tx ≡ s.board.tx
  unfolding index_edge reset_encoder_counter
  index_edge-tx i s = ground arith

  index_edge-offsets :
      (i : ℕ) (s : Core1)
      → let b' = (index_edge c pins i s).0.board in
        (b'.pio_enc_offset ≡ s.board.pio_enc_offset) × (b'.enc_reset_done ≡ s.board.enc_reset_done)
  unfolding index_edge reset_encoder_counter
  index_edge-offsets i s = (ground arith, ground arith)

flag_set : (flags i : ℕ) → i < 2 → bit_at (u8 (set_bit flags i)) i ≡ 1
flag_set flags i h =
    ground (arith, bit_at-u8 (set_bit flags i) i (omega (arith, h)), bit_at-set_bit flags i i)

-- The two statements of `handle_data` that take the flags of the index interrupts.
unfoldable pub report_flags : Board → Board
report_flags b = record b { tx = record (b.tx) { interrupt_data = b.index_reset_flags } }

unfoldable pub clear_flags : Board → Board
clear_flags b = record b { index_reset_flags = 0 }

take_index_flags_parts : (b : Board) → take_index_flags b ≡ clear_flags (report_flags b)
unfolding take_index_flags report_flags clear_flags
take_index_flags_parts b = refl

module _ (c : Config) (pins : ℕ) where
  -- An edge of an encoder's index pin, which no other encoder uses, while its interrupt is on: the
  -- count is 0 whatever it was, by a call to the PIO of an encoder that a PIO counts, the only other
  -- call switches this pin's interrupt off, which is noted, and the next packet reports the event,
  -- once.
  pub gpio_callback-index :
      (i gpio n : ℕ) (s : Core1)
      → i < 2
      → IsIndexPin c pins gpio i s
      → HasEncoder i s
      → i < length s.enc_index_enabled
      → get_or s.enc_index_enabled i 0 ≡ 1
      → let pin = encoder_at c.encoder_config i in
        let (s', calls) = gpio_callback c pins gpio s in
        let b' = take_index_flags s'.board in
        (count_after c i n (s', calls) ≡ 0)
        × (calls ≡ (if is_irq pin then [] else zero_y i ∷ []) ++ (irq (index_call pin false) ∷ []))
        × (get_or s'.enc_index_enabled i 0 ≢ 1)
        × (bit_at b'.tx.interrupt_data i ≡ 1)
        × (b'.index_reset_flags ≡ 0)
  unfolding take_index_flags
  gpio_callback-index i gpio n s hi pin has held on = rw (callback_edge c pins i gpio s hi pin) (
    index_edge-count c pins i n s has,
    index_edge-calls c pins i s on,
    index_edge-disarmed c pins i s held,
    ap (λ f. bit_at f i) (index_edge-flags c pins i s) ∙ flag_set s.board.index_reset_flags i hi,
    refl,
  )

  -- An index interrupt on core 1 between the two statements with which core 0 takes the flags, of an
  -- encoder whose flag was not set: the count is set to 0 and the flag is set, but neither the packet
  -- being made has it nor the one after.
  pub index_edge-lost :
      (i n : ℕ) (s : Core1)
      → i < 2
      → HasEncoder i s
      → bit_at s.board.index_reset_flags i ≡ 0
      → let s1 : Core1 = record s { board = report_flags s.board } in
        let (s2, calls) = index_edge c pins i s1 in
        let b3 = clear_flags s2.board in
        let next = take_index_flags b3 in
        (count_after c i n (s2, calls) ≡ 0)
        × (bit_at s2.board.index_reset_flags i ≡ 1)
        × (bit_at b3.tx.interrupt_data i ≡ 0)
        × (next.tx.interrupt_data ≡ 0)
  unfolding report_flags clear_flags take_index_flags
  index_edge-lost i n s hi has unset =
      let s1 : Core1 = record s { board = report_flags s.board } in
      (
        index_edge-count c pins i n s1 has,
        ap (λ f. bit_at f i) (index_edge-flags c pins i s1)
            ∙ flag_set s.board.index_reset_flags i hi,
        ap (λ t. bit_at t.interrupt_data i) (index_edge-tx c pins i s1) ∙ unset,
        refl,
      )

  -- What the board reports of an encoder right after an index edge, no reset being asked for: 0 if it
  -- is counted by interrupt, and, if a PIO counts it and is read before it counts on, 0 less the
  -- offset of its last reset, which the edge leaves as it was.
  pub encoder_report-index_edge :
      (r : Reads) (i n : ℕ) (s : Core1)
      → HasEncoder i s
      → r.count_pio i ≡ pio_count i n (index_edge c pins i s).1
      → test_bit s.board.enc_reset_done i ≡ false
      → encoder_report c r i (index_edge c pins i s).0.board ≡ (
          if is_irq (encoder_at c.encoder_config i)
          then 0
          else sub32 0 (get_or s.board.pio_enc_offset i 0))
  unfolding encoder_report
  encoder_report-index_edge r i n s has still done =
      let kept = index_edge-offsets c pins i s in
      let zero_count = index_edge-count c pins i n s has in
      elim (Bool-cases (is_irq (encoder_at c.encoder_config i))) [
        | inl e ↦ rw (kept.1, done, e) (rw e at zero_count)
        | inr e ↦
            rw (kept.0, kept.1, done, e)
              (ap (λ m. sub32 m (get_or s.board.pio_enc_offset i 0)) (still ∙ (rw e at zero_count)))
      ]
