-- ===== src/Driver/Recv/Laws.antt =====
-- What the driver takes from a reply, and what it does not take from a bad one.
use flexi_ninja.Prelude.{ℕ, refl, ap, inl, inr, Bool, true, false, List, [], arith, Bool-cases}
use flexi_ninja.Prelude.{All, sub32, ◌≡◌, ◌≢◌, ◌∙◌, ◌∷◌, ◌==◌, if◌then◌else◌}
use flexi_ninja.Transmission.Packet.{PicoPc, tx_checksum_ok}
use flexi_ninja.Driver.Arith.{Arith}
use flexi_ninja.Driver.Recv.{
  Status, quiet, accept, Encoder, Link, signed32, rebase, receive_encoder,
  update_encoder_velocity_from_deltas, udp_io_process_recv, count_delta,
}

module _ (ar : Arith) where
  velocity_keeps :
      (e : Encoder ar)
      → let e' = update_encoder_velocity_from_deltas ar e in
        (e'.raw_count ≡ e.raw_count) × (e'.position ≡ e.position)
  unfolding update_encoder_velocity_from_deltas
  velocity_keeps e = elim (Bool-cases e.enabled) [
    | inl on ↦ rw on (refl, refl)
    | inr off ↦ rw off (refl, refl)
  ]

  -- Whatever the board reports of an encoder that is on - its first report, an index event or a plain
  -- count - the driver takes over the count and the time, and the position is the count over the
  -- scale, which is at least 1.
  receive_encoder_lem :
      (count timestamp : ℕ) (index_reset_event : Bool) (e : Encoder ar)
      → e.enabled ≡ true
      → let e' = receive_encoder ar count timestamp index_reset_event e in
        (e'.raw_count ≡ count)
        × (e'.timestamp ≡ timestamp)
        × (e'.position
            ≡ ar.div
                (ar.f32 (ar.of_int (signed32 count)))
                (if ar.lt e.scale (ar.lit 1 1) then ar.lit 1 1 else e.scale))
  unfolding receive_encoder rebase
  receive_encoder_lem count timestamp index_reset_event e on =
      let scale = if ar.lt e.scale (ar.lit 1 1) then ar.lit 1 1 else e.scale in
      let seen : Encoder ar = record e {
        enabled = true;
        scale = scale;
        index_triggered = e.index;
        position = ar.div (ar.f32 (ar.of_int (signed32 count))) scale;
      } in
      let counted : Encoder ar = record seen {
        raw_count = count;
        delta_count = count_delta ar count seen;
        delta_count_accum = count_delta ar count seen;
        delta_time = sub32 timestamp e.timestamp;
      } in
      let kept = velocity_keeps counted in
      elim (Bool-cases (e.timestamp == 0)) [
        | inl first ↦ rw (on, first) (refl, refl, refl)
        | inr later ↦ elim (Bool-cases index_reset_event) [
          | inl event ↦ rw (on, later, event) (refl, refl, refl)
          | inr plain ↦ rw (on, later, plain) (kept.0, refl, kept.1)
        ]
      ]

  -- An index event makes no spike: whatever the count jumps to, the velocity and the filter behind it
  -- stay as they were, and the next difference starts from the new count.
  pub receive_encoder-index :
      (count timestamp : ℕ) (e : Encoder ar)
      → e.enabled ≡ true
      → let e' = receive_encoder ar count timestamp true e in
        (e'.velocity ≡ e.velocity)
        × (e'.filter_y ≡ e.filter_y)
        × (e'.raw_count ≡ count)
        × (e'.delta_count ≡ 0)
  unfolding receive_encoder rebase
  receive_encoder-index count timestamp e on = elim (Bool-cases (e.timestamp == 0)) [
    | inl first ↦ rw (on, first) (refl, refl, refl, refl)
    | inr later ↦ rw (on, later) (refl, refl, refl, refl)
  ]

  -- The replies of some periods, one after the other.
  abbrev pub receive_all : List PicoPc → Link ar → Link ar
  receive_all [] d = d
  receive_all (rx ∷ replies) d = receive_all replies (udp_io_process_recv ar false rx d)

  -- The pins that say that the board's replies are bad.
  abbrev pub disconnected : Status → Status
  disconnected s = record (quiet s) { checksum_error = true; connected = false }

  recv_bad :
      (rx : PicoPc) (d : Link ar)
      → d.watchdog.watchdog_expired ≡ false
      → d.watchdog.last_received_time ≢ 0
      → tx_checksum_ok rx ≡ false
      → udp_io_process_recv ar false rx d ≡ record d { status = disconnected d.status }
  unfolding udp_io_process_recv
  recv_bad rx d fresh before bad =
      let test : (d.watchdog.last_received_time == 0) ≡ false = ground arith in
      rw (fresh, test, bad) refl

  receive_all_bad :
      (replies : List PicoPc) (d : Link ar)
      → d.watchdog.watchdog_expired ≡ false
      → d.watchdog.last_received_time ≢ 0
      → All (λ rx. tx_checksum_ok rx ≡ false) replies
      → receive_all replies (record d { status = disconnected d.status })
        ≡ record d { status = disconnected d.status }
  receive_all_bad [] d fresh before bad = refl
  receive_all_bad (rx ∷ replies) d fresh before bad =
      ap (receive_all replies)
        (recv_bad rx (record d { status = disconnected d.status }) fresh before bad.0)
      ∙ receive_all_bad replies d fresh before bad.1

  -- Only the pins on the connection depend on them.
  recv_status :
      (rx : PicoPc) (s : Status) (d : Link ar)
      → let after = udp_io_process_recv ar false rx (record d { status = s }) in
        after ≡ record (udp_io_process_recv ar false rx d) { status = after.status }
  unfolding udp_io_process_recv accept
  recv_status rx s d = elim (Bool-cases d.watchdog.watchdog_expired) [
    | inl e ↦ rw e refl
    | inr e ↦ elim (Bool-cases (d.watchdog.last_received_time == 0)) [
      | inl f ↦ rw (e, f) refl
      | inr f ↦ elim (Bool-cases (tx_checksum_ok rx)) [
        | inl g ↦ rw (e, f, g) refl
        | inr g ↦ rw (e, f, g) refl
      ]
    ]
  ]

  -- Replies with a wrong checksum leave no trace, once there was a good one and while the watchdog
  -- has not expired: after any number of them nothing of the driver has changed but the pins that say
  -- that it is not connected, and the reply after them, whatever it is, does to everything but those
  -- pins what it would have done without them.
  pub udp_io_process_recv-rejected :
      (rx next : PicoPc) (replies : List PicoPc) (d : Link ar)
      → d.watchdog.watchdog_expired ≡ false
      → d.watchdog.last_received_time ≢ 0
      → All (λ x. tx_checksum_ok x ≡ false) (rx ∷ replies)
      → let d' = receive_all (rx ∷ replies) d in
        let after = udp_io_process_recv ar false next d' in
        (d' ≡ record d { status = disconnected d.status })
        × (after ≡ record (udp_io_process_recv ar false next d) { status = after.status })
  udp_io_process_recv-rejected rx next replies d fresh before bad =
      let d' = receive_all (rx ∷ replies) d in
      let same : d' ≡ record d { status = disconnected d.status } =
        ap (receive_all replies) (recv_bad rx d fresh before bad.0)
        ∙ receive_all_bad replies d fresh before bad.1 in
      (same, rw same (recv_status next (disconnected d.status) d))
