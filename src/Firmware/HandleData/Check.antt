-- ===== src/Firmware/HandleData/Check.antt =====
-- Packets in error: motion stops at the first one and comes back after ten good ones in a row.
use flexi_ninja.Prelude.{ℕ, zero, suc, refl, sym, ap, Bool, true, false, List, [], arith, dec_lt}
use flexi_ninja.Prelude.{ltb, lt→ltb, length, All, ◌+◌, ◌<◌, ◌≡◌, ◌∙◌, ◌∷◌}
use flexi_ninja.Transmission.Packet.{PcPico, rx_checksum_ok}
use flexi_ninja.Firmware.HandleData.{
  Config, Board, Reads, check, check_packet, actuate, reset_encoder, update_encoder,
  update_encoders, take_index_flags, sync_io, finish_tx, stamp, handle_data,
}

-- The fields that only the check and the actuation touch; `finish_tx` takes the overflow flags.
pub record Kept (b b' : Board) : Type 0 where
  pub checksum_error : b'.checksum_error ≡ b.checksum_error
  pub checksum_ok_count : b'.checksum_ok_count ≡ b.checksum_ok_count
  pub rx_counter : b'.rx_counter ≡ b.rx_counter
  pub position : b'.steps.position ≡ b.steps.position
  pub puts : b'.steps.puts ≡ b.steps.puts
  pub pwm_freq_buffer : b'.pwm_freq_buffer ≡ b.pwm_freq_buffer

Kept-trans : {a b c : Board} → Kept a b → Kept b c → Kept a c
Kept-trans k l = record {
  checksum_error = l.checksum_error ∙ k.checksum_error;
  checksum_ok_count = l.checksum_ok_count ∙ k.checksum_ok_count;
  rx_counter = l.rx_counter ∙ k.rx_counter;
  position = l.position ∙ k.position;
  puts = l.puts ∙ k.puts;
  pwm_freq_buffer = l.pwm_freq_buffer ∙ k.pwm_freq_buffer;
}

update_encoder-Kept :
    (c : Config) (r : Reads) (p : PcPico) (i : ℕ) (b : Board) → Kept b (update_encoder c r p i b)
unfolding update_encoder reset_encoder
update_encoder-Kept c r p i b = ground arith

update_encoders-Kept :
    (c : Config) (r : Reads) (p : PcPico) (n i : ℕ) (b : Board)
    → Kept b (update_encoders c r p n i b)
unfolding update_encoders
update_encoders-Kept c r p zero i b = ground arith
update_encoders-Kept c r p (suc n) i b =
    Kept-trans (update_encoder-Kept c r p i b)
      (update_encoders-Kept c r p n (i + 1) (update_encoder c r p i b))

-- After the check and the actuation nothing more happens to them.
pub handle_data-Kept :
    (c : Config) (r : Reads) (p : PcPico) (b : Board)
    → Kept (actuate c r p (check_packet p (stamp r b))).0 (handle_data c r p b).0
unfolding handle_data take_index_flags sync_io finish_tx
handle_data-Kept c r p b =
    let b1 = (actuate c r p (check_packet p (stamp r b))).0 in
    let k = update_encoders-Kept c r p 2 0 b1 in
    record {
      checksum_error = k.checksum_error;
      checksum_ok_count = k.checksum_ok_count;
      rx_counter = k.rx_counter;
      position = k.position;
      puts = k.puts;
      pwm_freq_buffer = k.pwm_freq_buffer;
    }

-- The error state after a packet.
abbrev pub verdict : PcPico → Board → Bool × ℕ
verdict p b = check (rx_checksum_ok p) b.checksum_error b.checksum_ok_count

pwm-handle_data :
    (c : Config) (r : Reads) (p : PcPico) (b : Board)
    → (handle_data c r p b).1.pwm ≡ (actuate c r p (check_packet p (stamp r b))).1
unfolding handle_data
pwm-handle_data c r p b = refl

actuate-keeps :
    (c : Config) (r : Reads) (p : PcPico) (b : Board)
    → let (b', calls) = actuate c r p b in
      (b'.checksum_error ≡ b.checksum_error)
      × (b'.checksum_ok_count ≡ b.checksum_ok_count)
      × (b.checksum_error ≡ true
          → (b'.steps.position ≡ b.steps.position)
            × (b'.steps.puts ≡ b.steps.puts)
            × (b'.pwm_freq_buffer ≡ b.pwm_freq_buffer)
            × (calls ≡ []))
unfolding actuate
actuate-keeps c r p b =
    (ground arith, ground arith, λ e. (ground arith, ground arith, ground arith, ground arith))

pub handle_data-check :
    (c : Config) (r : Reads) (p : PcPico) (b : Board)
    → let (b', effects) = handle_data c r p b in
      (b'.checksum_error ≡ (verdict p b).0)
      × (b'.checksum_ok_count ≡ (verdict p b).1)
      × ((verdict p b).0 ≡ true
          → (b'.steps.position ≡ b.steps.position)
            × (b'.steps.puts ≡ b.steps.puts)
            × (b'.pwm_freq_buffer ≡ b.pwm_freq_buffer)
            × (effects.pwm ≡ []))
unfolding check_packet stamp
handle_data-check c r p b =
    let b0 = check_packet p (stamp r b) in
    let k = handle_data-Kept c r p b in
    let a = actuate-keeps c r p b0 in
    (
      k.checksum_error ∙ a.0,
      k.checksum_ok_count ∙ a.1,
      λ e.
          let still = a.2 e in
          (
            k.position ∙ still.0,
            k.puts ∙ still.1,
            k.pwm_freq_buffer ∙ still.2,
            pwm-handle_data c r p b ∙ still.3,
          ),
    )

-- The packets of a connection, each with the hardware's answers during its call.
pub serve : Config → List (Reads × PcPico) → Board → Board
serve c [] b = b
serve c ((r, p) ∷ ps) b = serve c ps (handle_data c r p b).0

abbrev pub AllGood : List (Reads × PcPico) → Type 0
AllGood ps = All (λ rp. rx_checksum_ok (rp.1) ≡ true) ps

-- A good packet leaves a board without error so, and counts on a board in error.
verdict_good :
    (p : PcPico) (b : Board)
    → rx_checksum_ok p ≡ true
    → (b.checksum_error ≡ false → (verdict p b).0 ≡ false)
      × (b.checksum_error ≡ true
          → b.checksum_ok_count < 9
          → ((verdict p b).0 ≡ true) × ((verdict p b).1 ≡ b.checksum_ok_count + 1))
      × (b.checksum_error ≡ true → b.checksum_ok_count ≡ 9 → (verdict p b).0 ≡ false)
unfolding check
verdict_good p b ok =
    ((λ e. ground arith), (λ e few. (ground arith, ground arith)), (λ e nine. ground arith))

verdict_bad :
    (p : PcPico) (b : Board)
    → rx_checksum_ok p ≡ false
    → ((verdict p b).0 ≡ true) × ((verdict p b).1 ≡ 0)
unfolding check
verdict_bad p b bad = (ground arith, ground arith)

good_stays :
    (c : Config) (ps : List (Reads × PcPico)) (b : Board)
    → AllGood ps
    → b.checksum_error ≡ false
    → (serve c ps b).checksum_error ≡ false
unfolding serve
good_stays c [] b good e = e
good_stays c ((r, p) ∷ ps) b good e =
    good_stays c ps (handle_data c r p b).0 good.1
      ((handle_data-check c r p b).0 ∙ (verdict_good p b good.0).0 e)

-- A board in error that has counted `n` good packets, after more of them.
good_run :
    (c : Config) (ps : List (Reads × PcPico)) (b : Board)
    → AllGood ps
    → b.checksum_error ≡ true
    → b.checksum_ok_count < 10
    → let b' = serve c ps b in
      (b'.checksum_error ≡ ltb (length ps + b.checksum_ok_count) 10)
      × (length ps + b.checksum_ok_count < 10 → b'.steps.position ≡ b.steps.position)
unfolding serve
good_run c [] b good e few = (e ∙ sym (lt→ltb _ _ (omega arith)), λ h. refl)
good_run c ((r, p) ∷ ps) b good e few =
    let b1 = (handle_data c r p b).0 in
    let step = handle_data-check c r p b in
    let v = verdict_good p b good.0 in
    elim (dec_lt b.checksum_ok_count 9) [
      | yes more ↦
          let now = v.1 e more in
          let error = step.0 ∙ now.0 in
          let count : b1.checksum_ok_count ≡ b.checksum_ok_count + 1 = step.1 ∙ now.1 in
          let rest = good_run c ps b1 good.1 error (omega (arith, count)) in
          (
            rest.0 ∙ ap (λ n. ltb n 10) (omega (arith, count)),
            λ h. rest.1 (omega (arith, count)) ∙ (step.2 now.0).0,
          )
      | no last ↦
          let clear = step.0 ∙ v.2 e (omega arith) in
          (good_stays c ps b1 good.1 clear ∙ ground arith, λ h. absurd (omega arith))
    ]

after_bad :
    (c : Config) (r : Reads) (bad : PcPico) (ps : List (Reads × PcPico)) (b : Board)
    → rx_checksum_ok bad ≡ false
    → AllGood ps
    → let b' = serve c ((r, bad) ∷ ps) b in
      (b'.checksum_error ≡ ltb (length ps) 10)
      × (length ps < 10 → b'.steps.position ≡ b.steps.position)
unfolding serve
after_bad c r bad ps b wrong good =
    let b1 = (handle_data c r bad b).0 in
    let step = handle_data-check c r bad b in
    let v = verdict_bad bad b wrong in
    let count : b1.checksum_ok_count ≡ 0 = step.1 ∙ v.1 in
    let rest = good_run c ps b1 good (step.0 ∙ v.0) (omega (arith, count)) in
    (
      rest.0 ∙ ap (λ n. ltb n 10) (omega (arith, count)),
      λ h. rest.1 (omega (arith, count)) ∙ (step.2 v.0).0,
    )

-- A packet that leaves the board in error, by its own checksum or by one before it, touches no
-- stepgen and no PWM channel: the positions, the words in the FIFOs and the frequencies are as they
-- were, no PWM call is made, and the board says that it is in error.
pub handle_data-safe :
    (c : Config) (r : Reads) (p : PcPico) (b : Board)
    → (verdict p b).0 ≡ true
    → let (b', effects) = handle_data c r p b in
      (b'.checksum_error ≡ true)
      × (b'.steps.position ≡ b.steps.position)
      × (b'.steps.puts ≡ b.steps.puts)
      × (b'.pwm_freq_buffer ≡ b.pwm_freq_buffer)
      × (effects.pwm ≡ [])
handle_data-safe c r p b e =
    let step = handle_data-check c r p b in
    let still = step.2 e in (step.0 ∙ e, still.0, still.1, still.2, still.3)

-- After a packet with a wrong checksum the board is in error exactly until it has had ten good
-- packets in a row.
pub serve_recovers :
    (c : Config) (r : Reads) (bad : PcPico) (ps : List (Reads × PcPico)) (b : Board)
    → rx_checksum_ok bad ≡ false
    → AllGood ps
    → (serve c ((r, bad) ∷ ps) b).checksum_error ≡ ltb (length ps) 10
unfolding serve
serve_recovers c r bad ps b wrong good = (after_bad c r bad ps b wrong good).0

-- In a packet with a wrong checksum, and in fewer than ten good ones after it, no step is taken: the
-- stepgens stand where they stood before.
serve_holds :
    (c : Config) (r : Reads) (bad : PcPico) (ps : List (Reads × PcPico)) (b : Board)
    → rx_checksum_ok bad ≡ false
    → AllGood ps
    → length ps < 10
    → (serve c ((r, bad) ∷ ps) b).steps.position ≡ b.steps.position
serve_holds c r bad ps b wrong good few = (after_bad c r bad ps b wrong good).1 few
