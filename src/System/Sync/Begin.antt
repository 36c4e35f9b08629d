-- ===== src/System/Sync/Begin.antt =====
-- An axis that is switched on: the driver takes it to be at the command 0, and from there on counts
-- as for any other. So a period is that of the axes after they began, from an origin that moved
-- with them.
use flexi_ninja.Prelude.{ℕ, zero, suc, refl, sym, ap, inl, inr, Bool, true, false, some, List, []}
use flexi_ninja.Prelude.{map, arith, Bool-cases, length, get_or, ◌+◌, ◌<◌, ◌≡◌, ◌∙◌, ◌&&◌, ◌∷◌}
use flexi_ninja.Prelude.{◌==◌, if◌then◌else◌}
use flexi_ninja.Prelude.Int.{ℤ, ◌+ℤ◌, ◌-ℤ◌, int_laws}
use flexi_ninja.Transmission.Packet.{PcPico}
use flexi_ninja.Driver.Arith.{Arith}
use flexi_ninja.Driver.Axis.{Axis, Limits, pattern, axis_step, axes_step}
use flexi_ninja.Driver.Axis.Enable.{zero_place}
use flexi_ninja.Driver.Send.{Module, refresh_timing, send_packet, udp_io_process_send}
use flexi_ninja.Firmware.HandleData.{Board}
use flexi_ninja.System.Sync.Axes.{InSync}
use flexi_ninja.System.Sync.Axes.{send_live}

module _ (ar : Arith) where
  -- The axis from which a period goes on.
  abbrev pub begin : Axis ar → Axis ar
  begin a =
      if a.enable && a.first_data
      then record a { prev_pos = zero_place ar a; first_data = false }
      else a

  abbrev pub begun : Module ar → Module ar
  begun d = record d { axes = map (begin) d.axes }

  -- Where axis `i` counts from after it began, as far from the old origin as it jumped.
  abbrev pub begun_origin : Axis ar → Module ar → (ℕ → ℤ) → ℕ → ℤ
  begun_origin z d origin i =
      let a = get_or d.axes i z in origin i +ℤ ((begin a).prev_pos -ℤ a.prev_pos)

  axis_step-begin :
      (limits : Limits ar) (i : ℕ) (reset : Bool) (a : Axis ar)
      → axis_step ar limits i reset (begin a) ≡ axis_step ar limits i reset a
  unfolding axis_step
  axis_step-begin limits i reset a = elim (Bool-cases a.enable) [
    | inl on ↦ elim (Bool-cases a.first_data) [
      | inl fresh ↦ rw (on, fresh) refl
      | inr old ↦ rw (on, old) refl
    ]
    | inr off ↦ rw off refl
  ]

  axes_step-begin :
      (limits : Limits ar) (i : ℕ) (reset : Bool) (axes : List (Axis ar))
      → axes_step ar limits i reset (map (begin) axes) ≡ axes_step ar limits i reset axes
  unfolding axes_step
  axes_step-begin limits i reset [] = refl
  axes_step-begin limits i reset (a ∷ axes) =
      rw
        (
          axis_step-begin limits i reset a,
          axes_step-begin limits (i + 1) (axis_step ar limits i reset a).2 axes,
        )
        refl

  -- Sending from the axes that began is sending.
  send_packet-begun :
      (period : ℕ) (d : Module ar) → send_packet ar period (begun d) ≡ send_packet ar period d
  unfolding send_packet refresh_timing
  send_packet-begun period d = elim (Bool-cases (d.old_pulse_width == d.pulse_width)) [
    | inl e ↦ rw (e, axes_step-begin _ 0 d.debug_steps_reset d.axes) refl
    | inr e ↦ rw (e, axes_step-begin _ 0 d.debug_steps_reset d.axes) refl
  ]

  pub udp_io_process_send-begun :
      (period : ℕ) (d : Module ar)
      → d.watchdog_expired ≡ false
      → d.watchdog_running ≡ true
      → udp_io_process_send ar period (begun d) ≡ udp_io_process_send ar period d
  udp_io_process_send-begun period d fresh running =
      let ready : Module ar = record d { io_ready_out = d.io_ready_in } in
      send_live ar period (begun d) fresh running
      ∙ ap {A = Module ar × PcPico} (λ x. (x.0, some x.1)) (send_packet-begun period ready)
      ∙ sym (send_live ar period d fresh running)

  get_or-map-begin :
      (axes : List (Axis ar)) (i : ℕ) (z : Axis ar)
      → i < length axes
      → get_or (map (begin) axes) i z ≡ begin (get_or axes i z)
  get_or-map-begin [] i z h = absurd (omega (arith, h))
  get_or-map-begin (a ∷ axes) zero z h = refl
  get_or-map-begin (a ∷ axes) (suc i) z h = get_or-map-begin axes i z (omega (arith, h))

  length-map-begin : (axes : List (Axis ar)) → length (map (begin) axes) ≡ length axes
  length-map-begin [] = refl
  length-map-begin (a ∷ axes) = ap suc (length-map-begin axes)

  module _ (z : Axis ar) (period : ℕ) where
    pub begun-InSync :
        (origin : ℕ → ℤ) (d : Module ar) (b : Board)
        → InSync ar z period origin d b
        → InSync ar z period (begun_origin z d origin) (begun d) b
    begun-InSync origin d b h = record {
      axes_length = length-map-begin d.axes ∙ h.axes_length;
      position_length = h.position_length;
      healthy = h.healthy;
      table = h.table;
      same = λ i hi.
          let a = get_or d.axes i z in
          let inside : i < length d.axes = omega (arith, hi, h.axes_length) in
          let jumped = jump a.prev_pos (begin a).prev_pos (origin i) in
          h.same i hi
          ∙ ap pattern jumped
          ∙ ap (λ (x : Axis ar). pattern (x.prev_pos -ℤ begun_origin z d origin i))
              (sym (get_or-map-begin d.axes i z inside));
    }
      where
        jump : (p q o : ℤ) → p -ℤ o ≡ q -ℤ (o +ℤ (q -ℤ p))
        jump p q o = omega int_laws
