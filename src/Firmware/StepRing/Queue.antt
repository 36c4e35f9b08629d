-- ===== src/Firmware/StepRing/Queue.antt =====
-- The ring as a queue of at most three packets' commands: what a packet does to it.
use flexi_ninja.Prelude.{ℕ, zero, suc, refl, ap, inl, inr, true, false, not, Option, List, []}
use flexi_ninja.Prelude.{arith, ltb, Bool-cases, ltb→lt, length, get_or, set, take, length-set}
use flexi_ninja.Prelude.{u8, ◌+◌, ◌-◌, ◌%◌, ◌≤◌, ◌<◌, ◌≡◌, ◌≢◌, ◌∙◌, ◌&&◌, ◌∷◌, ◌++◌, ◌==◌}
use flexi_ninja.Prelude.{if◌then◌else◌}
use flexi_ninja.Firmware.StepRing.{StepRing, arm, measure, store, enqueue}

pub record IsStepRing (r : StepRing) : Type 0 where
  pub size : length r.slots ≡ 3
  pub tail_in : r.tail < 3
  pub count_in : r.count ≤ 3
  pub head_at : r.head ≡ (r.tail + r.count) % 3

-- The packets from `tail` on, oldest first.
unfoldable pub window : List (List ℕ) → ℕ → ℕ → List (List ℕ)
window slots t zero = []
window slots t (suc n) = get_or slots t [] ∷ window slots ((t + 1) % 3) n

abbrev pub contents : StepRing → List (List ℕ)
contents r = window r.slots r.tail r.count

-- Writing just behind a window extends it.
window-set :
    (slots : List (List ℕ)) (t n : ℕ) (x : List ℕ)
    → length slots ≡ 3
    → t < 3
    → n < 3
    → window (set slots ((t + n) % 3) x) t (suc n) ≡ window slots t n ++ (x ∷ [])
unfolding window
window-set (a ∷ b ∷ c ∷ []) zero zero x h ht hn = refl
window-set (a ∷ b ∷ c ∷ []) zero (suc zero) x h ht hn = refl
window-set (a ∷ b ∷ c ∷ []) zero (suc (suc zero)) x h ht hn = refl
window-set (a ∷ b ∷ c ∷ []) (suc zero) zero x h ht hn = refl
window-set (a ∷ b ∷ c ∷ []) (suc zero) (suc zero) x h ht hn = refl
window-set (a ∷ b ∷ c ∷ []) (suc zero) (suc (suc zero)) x h ht hn = refl
window-set (a ∷ b ∷ c ∷ []) (suc (suc zero)) zero x h ht hn = refl
window-set (a ∷ b ∷ c ∷ []) (suc (suc zero)) (suc zero) x h ht hn = refl
window-set (a ∷ b ∷ c ∷ []) (suc (suc zero)) (suc (suc zero)) x h ht hn = refl
window-set slots (suc (suc (suc t))) n x h ht hn = absurd (omega arith)
window-set slots t (suc (suc (suc n))) x h ht hn = absurd (omega arith)
window-set [] t n x h ht hn = absurd (omega arith)
window-set (a ∷ []) t n x h ht hn = absurd (omega arith)
window-set (a ∷ b ∷ []) t n x h ht hn = absurd (omega arith)
window-set (a ∷ b ∷ c ∷ d ∷ l) t n x h ht hn = absurd (omega arith)

-- The fields that make the queue.
abbrev Same : StepRing → StepRing → Type 0
Same r s = (r.slots ≡ s.slots) × (r.head ≡ s.head) × (r.tail ≡ s.tail) × (r.count ≡ s.count)

pub Same-IsStepRing : (r s : StepRing) → Same r s → IsStepRing s → IsStepRing r
Same-IsStepRing r s e v = record {
  size = ap length e.0 ∙ v.size;
  tail_in = omega (arith, e.2, v.tail_in);
  count_in = omega (arith, e.3, v.count_in);
  head_at = omega (arith, e.1, e.2, e.3, v.head_at);
}

Same-contents : (r s : StepRing) → Same r s → contents r ≡ contents s
Same-contents r s e = rw (e.0, e.2, e.3)

measure-ring : (timeout now : ℕ) (r : StepRing) → Same (measure timeout now r) r
unfolding measure
measure-ring timeout now r = ground arith

arm-ring :
    (now : ℕ) (claimed : Option ℕ) (r : StepRing)
    → Same (arm now claimed r) r × ((arm now claimed r).overflow ≡ r.overflow)
unfolding arm
arm-ring now claimed r = ground arith

-- A store with room keeps the ring and appends.
store-contents :
    (cmds : List ℕ) (r : StepRing)
    → IsStepRing r
    → r.count < 3
    → let s = store cmds r in IsStepRing s × (contents s ≡ contents r ++ (take 6 cmds ∷ []))
unfolding store
store-contents cmds r v room = (
  record {
    size = length-set r.slots r.head (take 6 cmds) ∙ v.size;
    tail_in = v.tail_in;
    count_in = omega (arith, v.count_in);
    head_at = omega (arith, v.head_at, v.tail_in, v.count_in);
  },
  grown,
)
  where
    more : u8 (r.count + 1) ≡ suc r.count
    more = omega arith

    grown :
        window (set r.slots r.head (take 6 cmds)) r.tail (u8 (r.count + 1))
        ≡ contents r ++ (take 6 cmds ∷ [])
    grown =
        rw (more, v.head_at) (window-set r.slots r.tail r.count (take 6 cmds) v.size v.tail_in room)

store-overflow : (cmds : List ℕ) (r : StepRing) → (store cmds r).overflow ≡ false
unfolding store
store-overflow cmds r = refl

-- The ring before the slot write.
abbrev timed : ℕ → ℕ → StepRing → StepRing
timed timeout now r = record (measure timeout now r) { last_packet_us = now }

enqueue_room :
    (timeout now now64 : ℕ) (claimed : Option ℕ) (cmds : List ℕ) (r : StepRing)
    → ltb (measure timeout now r).count 3 ≡ true
    → let s = store cmds (timed timeout now r) in
      Same (enqueue timeout now now64 claimed cmds r) s
      × ((enqueue timeout now now64 claimed cmds r).overflow ≡ s.overflow)
unfolding enqueue
enqueue_room timeout now now64 claimed cmds r room =
    let s = store cmds (timed timeout now r) in
    rw room (elim (Bool-cases (not s.timer_started && s.count == 3)) [
      | inl e ↦ rw e (arm-ring now64 claimed (record s { underflow = false }))
      | inr e ↦ rw e ((refl, refl, refl, refl), refl)
    ])

-- What a packet leaves: with room its six commands are the newest of the queue; in a full ring they
-- are dropped, the queue is as it was and the overflow flag is up. The ring stays well formed.
pub enqueue_lem :
    (timeout now now64 : ℕ) (claimed : Option ℕ) (cmds : List ℕ) (r : StepRing)
    → IsStepRing r
    → let r' = enqueue timeout now now64 claimed cmds r in
      IsStepRing r'
      × (contents r' ≡ (if ltb r.count 3 then contents r ++ (take 6 cmds ∷ []) else contents r))
      × (r'.overflow ≡ not (ltb r.count 3))
unfolding enqueue
enqueue_lem timeout now now64 claimed cmds r v =
    let m = timed timeout now r in
    let same : Same m r = measure-ring timeout now r in
    let vm = Same-IsStepRing m r same v in
    let e = enqueue timeout now now64 claimed cmds r in
    let dropped : StepRing = record m { overflow = true } in
    elim (Bool-cases (ltb (measure timeout now r).count 3)) [
      | inl room ↦
          let done = enqueue_room timeout now now64 claimed cmds r room in
          let stored = store-contents cmds m vm (ltb→lt _ _ room) in
          let here : ltb r.count 3 ≡ true = rw (← same.3) room in
          (
            Same-IsStepRing e (store cmds m) done.0 stored.0,
            Same-contents e (store cmds m) done.0
                ∙ stored.1
                ∙ ap (λ q. q ++ (take 6 cmds ∷ [])) (Same-contents m r same)
                ∙ rw here,
            done.1 ∙ store-overflow cmds m ∙ rw here,
          )
      | inr full ↦
          let here : ltb r.count 3 ≡ false = rw (← same.3) full in
          rw (full, here) (Same-IsStepRing dropped r same v, Same-contents dropped r same, refl)
    ]

pub window_of_pos :
    (slots : List (List ℕ)) (t n : ℕ)
    → n ≢ 0
    → window slots t n ≡ get_or slots t [] ∷ window slots ((t + 1) % 3) (n - 1)
unfolding window
window_of_pos slots t zero h = absurd (h refl)
window_of_pos slots t (suc n) h =
    ap (λ k. get_or slots t [] ∷ window slots ((t + 1) % 3) k) (omega arith)
