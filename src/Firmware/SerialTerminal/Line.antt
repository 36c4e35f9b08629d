-- ===== src/Firmware/SerialTerminal/Line.antt =====
-- What is typed is what runs, and the line buffer is never left.
use flexi_ninja.Prelude.{ℕ, zero, suc, refl, sym, ap, inl, inr, true, false, not, Option, none}
use flexi_ninja.Prelude.{some, List, [], arith, ltb, Bool-cases, ltb→lt, length, set, take, All}
use flexi_ninja.Prelude.{length-set, ◌+◌, ◌≤◌, ◌<◌, ◌≡◌, ◌∙◌, ◌&&◌, ◌||◌, ◌∷◌, ◌++◌, ◌==◌}
use mathlib.Core.List.{append-nil, append_assoc}
use flexi_ninja.Firmware.SerialTerminal.{Editor, handle_serial_input, buffer_size, carriage_return}

-- There is room for a character or for the final zero.
pub record IsEditor (e : Editor) : Type 0 where
  pub size : length e.buffer ≡ buffer_size
  pub room : e.buffer_pos < buffer_size

-- Whatever byte arrives, or none, the line buffer keeps its size and the next write is inside it.
pub handle_serial_input-IsEditor :
    (b : Option ℕ) (e : Editor) → IsEditor e → IsEditor (handle_serial_input b e).0
unfolding handle_serial_input
handle_serial_input-IsEditor none e v = v
handle_serial_input-IsEditor (some b) e v =
    elim (Bool-cases (not (b == carriage_return) && (ltb b 31 || ltb 126 b))) [
      | inl other ↦ rw other v
      | inr fine ↦ elim (Bool-cases (not (b == carriage_return) && ltb e.buffer_pos 63)) [
        | inl more ↦
            let below : e.buffer_pos < 63 = ground (arith, ltb→lt e.buffer_pos 63) in
            rw (fine, more)
              (record { size = length-set e.buffer e.buffer_pos b ∙ v.size; room = omega arith })
        | inr done ↦
            rw (fine, done)
              (record {
                size =
                    length-set (set e.buffer e.buffer_pos 0) 0 0
                    ∙ length-set e.buffer e.buffer_pos 0
                    ∙ v.size;
                room = omega arith;
              })
      ]
    ]

-- The bytes one after the other, and the line that the last of them ends.
abbrev pub type_line : List ℕ → Editor → Editor × Option (List ℕ)
type_line [] e = handle_serial_input (some carriage_return) e
type_line (b ∷ bs) e = type_line bs (handle_serial_input (some b) e).0

abbrev pub Printable : ℕ → Type 0
Printable b = (32 ≤ b) × (b ≤ 126)

typed :
    (b : ℕ) (e : Editor)
    → Printable b
    → e.buffer_pos < 63
    → handle_serial_input (some b) e
      ≡ (record { buffer = set e.buffer e.buffer_pos b; buffer_pos = e.buffer_pos + 1 }, none)
unfolding handle_serial_input
typed b e p h =
    let other : (b == carriage_return) ≡ false = ground arith in
    let low : ltb b 31 ≡ false = ground arith in
    let high : ltb 126 b ≡ false = ground arith in
    let room : ltb e.buffer_pos 63 ≡ true = ground arith in rw (other, low, high, room) refl

ended :
    (e : Editor)
    → let (e1, line) = handle_serial_input (some carriage_return) e in
      (e1.buffer_pos ≡ 0) × (line ≡ some (take e.buffer_pos (set e.buffer e.buffer_pos 0)))
unfolding handle_serial_input
ended e = (refl, refl)

take-set_end : (xs : List ℕ) (i v : ℕ) → take i (set xs i v) ≡ take i xs
take-set_end [] i v = refl
take-set_end (x ∷ xs) zero v = refl
take-set_end (x ∷ xs) (suc i) v = ap (λ r. x ∷ r) (take-set_end xs i v)

take-set_next :
    (xs : List ℕ) (i v : ℕ) → i < length xs → take (suc i) (set xs i v) ≡ take i xs ++ (v ∷ [])
take-set_next [] i v h = absurd (omega arith)
take-set_next (x ∷ xs) zero v h = refl
take-set_next (x ∷ xs) (suc i) v h = ap (λ r. x ∷ r) (take-set_next xs i v (omega arith))

take_more :
    (xs line : List ℕ) (i b : ℕ)
    → i < length xs
    → take (i + 1) (set xs i b) ++ line ≡ take i xs ++ (b ∷ line)
take_more xs line i b h =
    let next : i + 1 ≡ suc i = omega arith in
    ap (λ n. take n (set xs i b) ++ line) next
    ∙ ap (λ r. r ++ line) (take-set_next xs i b h)
    ∙ append_assoc (take i xs) (b ∷ []) line

type_line_from :
    (line : List ℕ) (e : Editor)
    → IsEditor e
    → All Printable line
    → length line + e.buffer_pos ≤ 63
    → ((type_line line e).0.buffer_pos ≡ 0)
      × ((type_line line e).1 ≡ some (take e.buffer_pos e.buffer ++ line))
type_line_from [] e v p h = (
  (ended e).0,
  (ended e).1
      ∙ ap some
          (take-set_end e.buffer e.buffer_pos 0 ∙ sym (append-nil (take e.buffer_pos e.buffer))),
)
type_line_from (b ∷ line) e v p h =
    let next : Editor = record {
      buffer = set e.buffer e.buffer_pos b;
      buffer_pos = e.buffer_pos + 1;
    } in
    let step = ap (λ r. type_line line r.0) (typed b e p.0 (omega arith)) in
    let valid : IsEditor next = record {
      size = length-set e.buffer e.buffer_pos b ∙ v.size;
      room = omega arith;
    } in
    let rest = type_line_from line next valid p.1 (omega arith) in
    (
      ap (λ r. r.0.buffer_pos) step ∙ rest.0,
      ap (λ r. r.1) step
          ∙ rest.1
          ∙ ap some (take_more e.buffer line e.buffer_pos b (omega (arith, v.size))),
    )

-- A line of up to 63 printable characters, typed from an empty line on and ended by a carriage
-- return, reaches `process_command` as it was typed, and the next line starts empty.
type_line_lem :
    (line : List ℕ) (e : Editor)
    → IsEditor e
    → e.buffer_pos ≡ 0
    → All Printable line
    → length line ≤ 63
    → ((type_line line e).0.buffer_pos ≡ 0) × ((type_line line e).1 ≡ some line)
type_line_lem line e v start p h =
    let all = type_line_from line e v p (omega arith) in
    (all.0, all.1 ∙ ap (λ n. some (take n e.buffer ++ line)) start)
