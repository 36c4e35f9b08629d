-- ===== src/Firmware/StepRing/Fifo.antt =====
-- The ring is a FIFO queue: what the timer takes from it, and any order of packets and interrupts.
use flexi_ninja.Prelude.{ℕ, refl, sym, ap, inl, inr, Bool, true, false, Option, none, some, List}
use flexi_ninja.Prelude.{[], arith, ℕ_discrete, ltb, Bool-cases, get_or, take, u8, ◌+◌, ◌-◌, ◌%◌}
use flexi_ninja.Prelude.{◌^◌, ◌≡◌, ◌≢◌, ◌∙◌, ◌∷◌, ◌++◌, ◌==◌, if◌then◌else◌}
use mathlib.Core.List.{append-nil, append_assoc}
use flexi_ninja.Firmware.StepRing.{StepRing, enqueue, is_alarm, timer_callback}
use flexi_ninja.Firmware.StepRing.Queue.{
  IsStepRing, window, contents, Same-IsStepRing, enqueue_lem, window_of_pos,
}

-- What became of the queue: its oldest entry is handed over, or nothing is and it is the same.
abbrev pub Handed : StepRing → Option (List ℕ) → StepRing → Type 0
Handed r none r' = contents r' ≡ contents r
Handed r (some x) r' = contents r ≡ x ∷ contents r'

contents_of_empty : (r : StepRing) → r.count ≡ 0 → contents r ≡ []
unfolding window
contents_of_empty r e = rw e

popped-IsStepRing :
    (now64 : ℕ) (r : StepRing)
    → IsStepRing r
    → r.count ≢ 0
    → let r' : StepRing = record r {
      tail = u8 ((r.tail + 1) % 3);
      count = r.count - 1;
      next_alarm_us = (now64 + r.period_us) % 2 ^ 64;
    } in
      IsStepRing r' × Handed r (some (get_or r.slots r.tail [])) r'
popped-IsStepRing now64 r v ne = (
  record {
    size = v.size;
    tail_in = omega arith;
    count_in = omega (arith, v.count_in);
    head_at = omega (arith, v.head_at, v.count_in, v.tail_in);
  },
  window_of_pos r.slots r.tail r.count ne
      ∙ ap (λ t. get_or r.slots r.tail [] ∷ window r.slots t (r.count - 1)) (omega arith),
)

-- The timer interrupt, of whichever alarm: the oldest commands are handed over and leave the queue,
-- or nothing is and the queue is the same.
timer_callback-Handed :
    (triggered now64 : ℕ) (r : StepRing)
    → IsStepRing r
    → let (out, r') = timer_callback triggered now64 r in IsStepRing r' × Handed r out r'
unfolding timer_callback
timer_callback-Handed triggered now64 r v = elim (Bool-cases (is_alarm triggered r.alarm_num)) [
  | inr other ↦ rw other (v, refl)
  | inl mine ↦ elim (ℕ_discrete r.count 0) [
    | yes e ↦
        let test : (r.count == 0) ≡ true = ground arith in
        rw (mine, test)
          (
            Same-IsStepRing (record r { timer_started = false; underflow = true }) r
                (refl, refl, refl, refl) v,
            refl,
          )
    | no ne ↦
        let test : (r.count == 0) ≡ false = ground arith in
        rw (mine, test) (popped-IsStepRing now64 r v ne)
  ]
]

armed_is_alarm : (a : ℕ) (alarm : Option ℕ) → alarm ≡ some a → is_alarm a alarm ≡ true
unfolding is_alarm
armed_is_alarm a alarm e = ground arith

-- The interrupt of the armed alarm hands over the oldest commands, which leave the queue; on an empty
-- queue it hands over nothing, stops the timer and raises the underflow flag.
pub timer_callback_lem :
    (a now64 : ℕ) (r : StepRing)
    → IsStepRing r
    → r.alarm_num ≡ some a
    → let (out, r') = timer_callback a now64 r in
      Handed r out r'
      × (r.count ≢ 0 → out ≡ some (get_or r.slots r.tail []))
      × (r.count ≡ 0 → (out ≡ none) × (r'.timer_started ≡ false) × (r'.underflow ≡ true))
unfolding timer_callback
timer_callback_lem a now64 r v armed =
    let mine = armed_is_alarm a r.alarm_num armed in
    (
      (timer_callback-Handed a now64 r v).1,
      (λ ne. let test : (r.count == 0) ≡ false = ground arith in rw (mine, test)),
      (λ e. let test : (r.count == 0) ≡ true = ground arith in rw (mine, test) (refl, refl, refl)),
    )

-- A client of the ring: what happens to it while the PC is connected, in the order it happens.
pub data Event : Type 0 where
  packet : ℕ → ℕ → ℕ → Option ℕ → List ℕ → Event
  tick : ℕ → ℕ → Event

-- The commands that the timer handed over, those that the ring took in, and the ring at the end.
pub run : List Event → StepRing → List (List ℕ) × List (List ℕ) × StepRing
run [] r = ([], [], r)
run (packet timeout now now64 claimed cmds ∷ es) r =
    let (out, took, r') = run es (enqueue timeout now now64 claimed cmds r) in
    (out, if ltb r.count 3 then take 6 cmds ∷ took else took, r')
run (tick triggered now64 ∷ es) r =
    let (o, r1) = timer_callback triggered now64 r in
    let (out, took, r') = run es r1 in (elim o [ none ↦ out | some x ↦ x ∷ out ], took, r')

tick_step :
    (r : StepRing) (o : Option (List ℕ) × StepRing) (took out end : List (List ℕ))
    → Handed r o.0 o.1
    → contents o.1 ++ took ≡ out ++ end
    → contents r ++ took ≡ elim (o.0) [ none ↦ out | some x ↦ x ∷ out ] ++ end
tick_step r (none, r1) took out end same rest = ap (λ q. q ++ took) (sym same) ∙ rest
tick_step r (some x, r1) took out end popped rest =
    ap (λ q. q ++ took) popped ∙ ap (λ q. x ∷ q) rest

packet_step :
    (room : Bool) (x : List ℕ) (q q1 took out end : List (List ℕ))
    → q1 ≡ (if room then q ++ (x ∷ []) else q)
    → q1 ++ took ≡ out ++ end
    → q ++ (if room then x ∷ took else took) ≡ out ++ end
packet_step true x q q1 took out end grown rest =
    sym (append_assoc q (x ∷ []) took) ∙ ap (λ l. l ++ took) (sym grown) ∙ rest
packet_step false x q q1 took out end same rest = ap (λ l. l ++ took) (sym same) ∙ rest

-- However packets and interrupts interleave, the timer hands over the commands that the ring took
-- in, each once and in their order; what it has not handed over yet is what the ring holds.
pub run_fifo :
    (es : List Event) (r : StepRing)
    → IsStepRing r
    → let (out, took, r') = run es r in (contents r ++ took ≡ out ++ contents r') × IsStepRing r'
unfolding run
run_fifo [] r v = (append-nil (contents r), v)
run_fifo (packet timeout now now64 claimed cmds ∷ es) r v =
    let step = enqueue_lem timeout now now64 claimed cmds r v in
    let rest = run_fifo es (enqueue timeout now now64 claimed cmds r) step.0 in
    let end = run es (enqueue timeout now now64 claimed cmds r) in
    (
      packet_step (ltb r.count 3) (take 6 cmds) (contents r) _ (end.1) (end.0) (contents end.2)
          step.1 rest.0,
      rest.1,
    )
run_fifo (tick triggered now64 ∷ es) r v =
    let step = timer_callback-Handed triggered now64 r v in
    let rest = run_fifo es (timer_callback triggered now64 r).1 step.0 in
    let end = run es (timer_callback triggered now64 r).1 in
    (
      tick_step r (timer_callback triggered now64 r) (end.1) (end.0) (contents end.2) step.1 rest.0,
      rest.1,
    )
