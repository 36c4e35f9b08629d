-- ===== src/Driver/Recv/Axes.antt =====
-- The receive function moves no axis: feedback is not what the send function counts with.
use flexi_ninja.Prelude.{ℕ, zero, suc, refl, ap, inl, inr, Bool, not, List, [], Bool-cases}
use flexi_ninja.Prelude.{length, get_or, ◌+◌, ◌≡◌, ◌&&◌, ◌∷◌, ◌==◌}
use flexi_ninja.Transmission.Packet.{PicoPc, tx_checksum_ok}
use flexi_ninja.Driver.Arith.{Arith}
use flexi_ninja.Driver.Axis.{Axis}
use flexi_ninja.Driver.Recv.{Link, accept, receive_axis, receive_axes, udp_io_process_recv}

module _ (ar : Arith) where
  -- As many axes, each in the place where it was.
  pub record SamePlaces (z : Axis ar) (axes' axes : List (Axis ar)) : Type 0 where
    pub count : length axes' ≡ length axes
    pub place : (k : ℕ) → (get_or axes' k z).prev_pos ≡ (get_or axes k z).prev_pos

  receive_axes_place :
      (z : Axis ar) (rx : PicoPc) (i : ℕ) (axes : List (Axis ar)) (k : ℕ)
      → (get_or (receive_axes ar rx i axes) k z).prev_pos ≡ (get_or axes k z).prev_pos
  unfolding receive_axes receive_axis
  receive_axes_place z rx i [] k = refl
  receive_axes_place z rx i (a ∷ axes) zero = refl
  receive_axes_place z rx i (a ∷ axes) (suc k) = receive_axes_place z rx (i + 1) axes k

  length-receive_axes :
      (rx : PicoPc) (i : ℕ) (axes : List (Axis ar))
      → length (receive_axes ar rx i axes) ≡ length axes
  unfolding receive_axes
  length-receive_axes rx i [] = refl
  length-receive_axes rx i (a ∷ axes) = ap suc (length-receive_axes rx (i + 1) axes)

  receive_axes-SamePlaces :
      (z : Axis ar) (rx : PicoPc) (axes : List (Axis ar))
      → SamePlaces z (receive_axes ar rx 0 axes) axes
  receive_axes-SamePlaces z rx axes = record {
    count = length-receive_axes rx 0 axes;
    place = receive_axes_place z rx 0 axes;
  }

  -- Whatever the reply, and whether it is taken or not.
  pub udp_io_process_recv-SamePlaces :
      (z : Axis ar) (debug_mode : Bool) (rx : PicoPc) (d : Link ar)
      → SamePlaces z (udp_io_process_recv ar debug_mode rx d).axes d.axes
  unfolding udp_io_process_recv accept
  udp_io_process_recv-SamePlaces z debug_mode rx d =
      let bad =
        not (d.watchdog.last_received_time == 0) && not (tx_checksum_ok rx) && not debug_mode in
      let same : SamePlaces z d.axes d.axes = record { count = refl; place = λ k. refl } in
      elim (Bool-cases d.watchdog.watchdog_expired) [
        | inl late ↦ rw late same
        | inr alive ↦ elim (Bool-cases bad) [
          | inl wrong ↦ rw (alive, wrong) same
          | inr right ↦ rw (alive, right) (receive_axes-SamePlaces z rx d.axes)
        ]
      ]
