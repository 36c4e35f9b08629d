-- ===== src/Firmware/HandleData/Buffers.antt =====
-- The rest of the state of the board: the count of good packets, the clock, and the buffers.
use flexi_ninja.Prelude.{ℕ, zero, suc, inl, inr, true, List, arith, leb, Bool-cases, get_or, u8}
use flexi_ninja.Prelude.{word, test_bit, set_bit, clear_bit, ◌+◌, ◌*◌, ◌<◌, ◌≡◌}
use flexi_ninja.Transmission.Packet.{PcPico, encoders, pwm_count, rx_checksum_ok, tx_checksum_ok}
use flexi_ninja.Transmission.Layout.{IsPcPico}
use flexi_ninja.Firmware.IrqEncoder.{encoder_at}
use flexi_ninja.Firmware.Pwm.{PwmCall}
use flexi_ninja.Firmware.HandleData.{
  Config, Board, Reads, check, check_packet, update_pwm, actuate, reset_requested, reset_encoder,
  update_encoder, update_encoders, take_index_flags, sync_io, finish_tx, stamp, handle_data,
}
use flexi_ninja.Firmware.HandleData.Shape.{
  AllWords, set-AllWords, word_at, either, IsBoard, IsReads, actuate-IsBoard,
  update_encoders-IsBoard,
}
use flexi_ninja.Firmware.HandleData.Fields.{
  take_index_flags-IsBoard, sync_io-IsBoard, stamp-IsBoard, check_packet-IsBoard,
}
use flexi_ninja.Firmware.HandleData.Report.{handle_data-IsBoard}

pub record IsBuffers (b : Board) : Type 0 where
  pub checksum_ok_count : b.checksum_ok_count < 256
  pub last_packet_time : b.last_packet_time < word * word
  pub pwm_freq_buffer : AllWords b.pwm_freq_buffer
  pub pio_enc_offset : AllWords b.pio_enc_offset
  pub enc_reset_done : b.enc_reset_done < 256
  pub input_buffer : AllWords b.input_buffer

-- The board's clock and the counts of its PIOs.
pub record IsClock (r : Reads) : Type 0 where
  pub now2 : r.now2 < word * word
  pub reset_count_pio : (i : ℕ) → r.reset_count_pio i < word

check_small :
    (p : PcPico) (b : Board)
    → b.checksum_ok_count < 256
    → (check_packet p b).checksum_ok_count < 256
unfolding check_packet check
check_small p b h = elim (Bool-cases (rx_checksum_ok p)) [
  | inr bad ↦ rw bad (omega arith)
  | inl ok ↦ elim (Bool-cases b.checksum_error) [
    | inr fine ↦ rw (ok, fine) h
    | inl error ↦ elim (Bool-cases (leb 10 (u8 (b.checksum_ok_count + 1)))) [
      | inl ten ↦ rw (ok, error, ten) (omega arith)
      | inr few ↦ rw (ok, error, few) (omega arith)
    ]
  ]
]

update_pwm-AllWords :
    (c : Config) (p : PcPico) (n i : ℕ) (buffer : List ℕ)
    → AllWords p.pwm_frequency
    → AllWords buffer
    → AllWords (update_pwm c p n i buffer).0
unfolding update_pwm
update_pwm-AllWords c p zero i buffer small h = h
update_pwm-AllWords c p (suc n) i buffer small h =
    update_pwm-AllWords c p n (i + 1) _ small
      (set-AllWords buffer i _ h (word_at p.pwm_frequency i small))

module _ (c : Config) (r : Reads) (p : PcPico) (times : IsClock r) where
  reset_encoder-IsBuffers : (i : ℕ) (b : Board) → IsBuffers b → IsBuffers (reset_encoder c r p i b)
  unfolding reset_encoder
  reset_encoder-IsBuffers i b h =
      let with_done : (done : ℕ) → done < 256 → IsBuffers (record b { enc_reset_done = done }) =
        λ done small. record {
          checksum_ok_count = h.checksum_ok_count;
          last_packet_time = h.last_packet_time;
          pwm_freq_buffer = h.pwm_freq_buffer;
          pio_enc_offset = h.pio_enc_offset;
          enc_reset_done = small;
          input_buffer = h.input_buffer;
        } in
      let done = with_done (u8 (set_bit b.enc_reset_done i)) (omega arith) in
      either IsBuffers (reset_requested p i) _ _
        (either IsBuffers (test_bit b.enc_reset_done i) _ _ h (
          either IsBuffers (leb 32 (encoder_at c.encoder_config i).base_pin) _ _
            (record {
              checksum_ok_count = done.checksum_ok_count;
              last_packet_time = done.last_packet_time;
              pwm_freq_buffer = done.pwm_freq_buffer;
              pio_enc_offset = done.pio_enc_offset;
              enc_reset_done = done.enc_reset_done;
              input_buffer = done.input_buffer;
            })
            (record {
              checksum_ok_count = done.checksum_ok_count;
              last_packet_time = done.last_packet_time;
              pwm_freq_buffer = done.pwm_freq_buffer;
              pio_enc_offset =
                  set-AllWords b.pio_enc_offset i (r.reset_count_pio i) h.pio_enc_offset
                    (times.reset_count_pio i);
              enc_reset_done = done.enc_reset_done;
              input_buffer = done.input_buffer;
            })))
        (with_done (clear_bit b.enc_reset_done i) (omega (arith, h.enc_reset_done)))

  update_encoders-IsBuffers :
      (n i : ℕ) (b : Board) → IsBuffers b → IsBuffers (update_encoders c r p n i b)
  unfolding update_encoders update_encoder
  update_encoders-IsBuffers zero i b h = h
  update_encoders-IsBuffers (suc n) i b h =
      let k = reset_encoder-IsBuffers i b h in
      update_encoders-IsBuffers n (i + 1) _ (record {
        checksum_ok_count = k.checksum_ok_count;
        last_packet_time = k.last_packet_time;
        pwm_freq_buffer = k.pwm_freq_buffer;
        pio_enc_offset = k.pio_enc_offset;
        enc_reset_done = k.enc_reset_done;
        input_buffer = k.input_buffer;
      })

  checked-IsBuffers : (b : Board) → IsBuffers b → IsBuffers (check_packet p (stamp r b))
  unfolding check_packet stamp
  checked-IsBuffers b h = record {
    checksum_ok_count = check_small p (stamp r b) h.checksum_ok_count;
    last_packet_time = times.now2;
    pwm_freq_buffer = h.pwm_freq_buffer;
    pio_enc_offset = h.pio_enc_offset;
    enc_reset_done = h.enc_reset_done;
    input_buffer = h.input_buffer;
  }

  -- The stamp, the check and the actuation.
  begin-IsBuffers :
      (b : Board)
      → AllWords p.pwm_frequency
      → IsBuffers b
      → IsBuffers (actuate c r p (check_packet p (stamp r b))).0
  unfolding actuate
  begin-IsBuffers b small h =
      let b1 = check_packet p (stamp r b) in
      let checked = checked-IsBuffers b h in
      either {A = Board × List PwmCall} (λ x. IsBuffers x.0) b1.checksum_error _ _ checked
        (record {
          checksum_ok_count = checked.checksum_ok_count;
          last_packet_time = checked.last_packet_time;
          pwm_freq_buffer =
              update_pwm-AllWords c p pwm_count 0 b1.pwm_freq_buffer small checked.pwm_freq_buffer;
          pio_enc_offset = checked.pio_enc_offset;
          enc_reset_done = checked.enc_reset_done;
          input_buffer = checked.input_buffer;
        })

  -- The inputs of the board and of the expander, once the report's words fit.
  sync_io-IsBuffers :
      (b : Board) → AllWords (sync_io r b).tx.inputs → IsBuffers b → IsBuffers (sync_io r b)
  unfolding sync_io
  sync_io-IsBuffers b small h =
      let words = (sync_io r b).tx.inputs in
      record {
        checksum_ok_count = h.checksum_ok_count;
        last_packet_time = h.last_packet_time;
        pwm_freq_buffer = h.pwm_freq_buffer;
        pio_enc_offset = h.pio_enc_offset;
        enc_reset_done = h.enc_reset_done;
        input_buffer =
            set-AllWords _ 2 _
              (set-AllWords _ 1 _
                (set-AllWords b.input_buffer 0 _ h.input_buffer (word_at words 0 small))
                (word_at words 1 small))
              (word_at words 2 small);
      }

-- The state of the board in its C types.
abbrev pub HasTypes : Board → Type 0
HasTypes b = IsBoard b × IsBuffers b

handle_data-IsBuffers :
    (c : Config) (r : Reads) (p : PcPico) (b : Board)
    → IsReads r
    → IsClock r
    → IsPcPico p
    → HasTypes b
    → IsBuffers (handle_data c r p b).0
unfolding handle_data finish_tx take_index_flags
handle_data-IsBuffers c r p b clean times v h =
    let b1 = (actuate c r p (check_packet p (stamp r b))).0 in
    let typed1 =
      actuate-IsBoard c r p clean _ (check_packet-IsBoard p _ v (stamp-IsBoard r clean b h.0)) in
    let typed2 = update_encoders-IsBoard c r p clean encoders 0 b1 typed1 in
    let k =
      update_encoders-IsBuffers c r p times encoders 0 b1
        (begin-IsBuffers c r p times b v.pwm_frequency.1 h.1) in
    let b2 = update_encoders c r p encoders 0 b1 in
    let k2 : IsBuffers (take_index_flags b2) = record {
      checksum_ok_count = k.checksum_ok_count;
      last_packet_time = k.last_packet_time;
      pwm_freq_buffer = k.pwm_freq_buffer;
      pio_enc_offset = k.pio_enc_offset;
      enc_reset_done = k.enc_reset_done;
      input_buffer = k.input_buffer;
    } in
    let words = sync_io-IsBoard r clean _ (take_index_flags-IsBoard r clean b2 typed2) in
    let k3 = sync_io-IsBuffers c r p times (take_index_flags b2) words.tx.inputs.1 k2 in
    record {
      checksum_ok_count = k3.checksum_ok_count;
      last_packet_time = k3.last_packet_time;
      pwm_freq_buffer = k3.pwm_freq_buffer;
      pio_enc_offset = k3.pio_enc_offset;
      enc_reset_done = k3.enc_reset_done;
      input_buffer = k3.input_buffer;
    }

-- The board's part of the contract: whatever packet arrives, good or bad, with reads of the hardware
-- in their types, the counters, flags, buffers and times of the state and all fields of the report
-- keep to their C types, the report passes the check of the driver, names the packet that it
-- answers, and carries the counters of the stepgens as they are after it.
pub handle_data-HasTypes :
    (c : Config) (r : Reads) (p : PcPico) (b : Board)
    → IsReads r
    → IsClock r
    → IsPcPico p
    → HasTypes b
    → let b' = (handle_data c r p b).0 in
      HasTypes b'
      × (tx_checksum_ok b'.tx ≡ true)
      × (b'.tx.packet_id ≡ p.packet_id)
      × ((i : ℕ) → i < 6 → get_or b'.tx.stepgen_position i 0 ≡ get_or b'.steps.position i 0)
handle_data-HasTypes c r p b clean times v h =
    let (typed, sealed, named, counted) = handle_data-IsBoard c r p b clean v h.0 in
    ((typed, handle_data-IsBuffers c r p b clean times v h), sealed, named, counted)
