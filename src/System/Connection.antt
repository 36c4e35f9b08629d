-- ===== src/System/Connection.antt =====
-- A whole connection as steps: exchanges, the receive function, and in between what LinuxCNC and
-- core 1 do, in any order.
use flexi_ninja.Prelude.{ℕ, suc, sym, ap, Bool, false, some, length, get_or, ◌<◌, ◌≡◌, ◌∙◌}
use mathlib.Core.Option.{some-injective}
use flexi_ninja.Prelude.Int.{ℤ, ◌-ℤ◌}
use flexi_ninja.Driver.Arith.{Arith, IsExact}
use flexi_ninja.Driver.Axis.{Axis, pattern}
use flexi_ninja.Driver.Send.{Module, udp_io_process_send}
use flexi_ninja.Driver.Recv.{Link, udp_io_process_recv}
use flexi_ninja.Driver.Recv.Axes.{udp_io_process_recv-SamePlaces}
use flexi_ninja.Transmission.Packet.{PcPico, PicoPc}
use flexi_ninja.Firmware.HandleData.{Config, Board, Reads, handle_data}
use flexi_ninja.System.Sync.Axes.{InSync, IsLive}
use flexi_ninja.System.Sync.Exchange.{exchange-InSync}

module _ (ar : Arith) (z : Axis ar) (period : ℕ) (c : Config) where
  -- The pins, the feedback and the rest may change, but not what the send function counts with.
  pub record KeepsPlace (d d' : Module ar) : Type 0 where
    pub axes_length : length d'.axes ≡ length d.axes
    pub place : (i : ℕ) → i < 6 → (get_or d'.axes i z).prev_pos ≡ (get_or d.axes i z).prev_pos
    pub table : d'.table ≡ d.table
    pub old_pulse_width : d'.old_pulse_width ≡ d.old_pulse_width

  -- Core 1 and the interrupts move no stepgen, and clear the error at most.
  pub record KeepsSteps (b b' : Board) : Type 0 where
    pub position : b'.steps.position ≡ b.steps.position
    pub checksum_error : b.checksum_error ≡ false → b'.checksum_error ≡ false

  -- So many packets have gone from the driver to the board.
  pub data Connection (d : Module ar) (b : Board) : ℕ → Module ar → Board → Type 0 where
    start : Connection d b 0 d b
    between :
        {n : ℕ} {d1 d2 : Module ar} {b1 b2 : Board}
        → Connection d b n d1 b1
        → KeepsPlace d1 d2
        → KeepsSteps b1 b2
        → Connection d b n d2 b2
    receive :
        {n : ℕ} {d1 : Module ar} {b1 : Board}
        → Connection d b n d1 b1
        → (debug_mode : Bool) (rx : PicoPc) (l : Link ar) → l.axes ≡ d1.axes
        → Connection d b n (record d1 { axes = (udp_io_process_recv ar debug_mode rx l).axes }) b1
    exchange :
        {n : ℕ} {d1 : Module ar} {b1 : Board} {p : PcPico}
        → Connection d b n d1 b1
        → (r : Reads) → IsLive ar z period d1 r
        → (udp_io_process_send ar period d1).1 ≡ some p
        → Connection d b (suc n) (udp_io_process_send ar period d1).0 (handle_data c r p b1).0

  module _ (ex : IsExact ar) (origin : ℕ → ℤ) where
    pub between-InSync :
        (d d' : Module ar) (b b' : Board)
        → InSync ar z period origin d b
        → KeepsPlace d d'
        → KeepsSteps b b'
        → InSync ar z period origin d' b'
    between-InSync d d' b b' h k l = record {
      axes_length = k.axes_length ∙ h.axes_length;
      position_length = ap length l.position ∙ h.position_length;
      healthy = l.checksum_error h.healthy;
      table = rw (k.old_pulse_width, k.table) h.table;
      same = λ i hi.
          ap (λ ps. get_or ps i 0) l.position
          ∙ h.same i hi
          ∙ ap (λ x. pattern (x -ℤ origin i)) (sym (k.place i hi));
    }

    pub receive-InSync :
        (debug_mode : Bool) (rx : PicoPc) (l : Link ar) (d : Module ar) (b : Board)
        → l.axes ≡ d.axes
        → InSync ar z period origin d b
        → InSync ar z period origin
            (record d { axes = (udp_io_process_recv ar debug_mode rx l).axes })
            b
    receive-InSync debug_mode rx l d b shared h =
        let kept = udp_io_process_recv-SamePlaces ar z debug_mode rx l in
        record {
          axes_length = kept.count ∙ ap length shared ∙ h.axes_length;
          position_length = h.position_length;
          healthy = h.healthy;
          table = h.table;
          same = λ i hi.
              let place = kept.place i ∙ ap (λ axes. (get_or axes i z).prev_pos) shared in
              h.same i hi ∙ ap (λ x. pattern (x -ℤ origin i)) (sym place);
        }

    -- Driver and board that start in step stay so over a whole connection: with any number of
    -- exchanges (the axes off or in position mode with steps that fit the period, the FIFOs with room
    -- in time), of replies received, good or bad, and anything in between that moves no axis, the
    -- driver's position of each axis and the board's counter of its steps agree at the end.
    pub Connection-InSync :
        (d : Module ar) (b : Board) {n : ℕ} {d' : Module ar} {b' : Board}
        → InSync ar z period origin d b
        → Connection d b n d' b'
        → InSync ar z period origin d' b'
    Connection-InSync d b h start = h
    Connection-InSync d b h (between run k l) =
        between-InSync _ _ _ _ (Connection-InSync d b h run) k l
    Connection-InSync d b h (receive run debug_mode rx l shared) =
        receive-InSync debug_mode rx l _ _ shared (Connection-InSync d b h run)
    Connection-InSync d b h (exchange {d1} {b1} {p} run r live sent) =
        let (q, here, synced) =
          exchange-InSync ar ex z period origin c r d1 b1 (Connection-InSync d b h run) live in
        let same : q ≡ p = some-injective q p (sym here ∙ sent) in rw same at synced
