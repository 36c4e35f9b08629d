-- ===== src/Driver/Setup/Load.antt =====
-- The set-up succeeds as a whole, or leaves the HAL.
use flexi_ninja.Prelude.{ℕ, refl, sym, ap, inl, inr, Bool, true, false, not, Option, none, some}
use flexi_ninja.Prelude.{List, [], Bool-cases, ◌+◌, ◌≡◌, ◌⊎◌, ◌∙◌, ◌&&◌, ◌∷◌, ◌++◌, if◌then◌else◌}
use mathlib.Core.List.{append-nil, append_assoc}
use flexi_ninja.Prelude.Int.{ℤ, pos, ltb_ℤ}
use flexi_ninja.Driver.Setup.{
  HalCall, Names, Run, bb_hal_setup_pins, first_calls, later_calls, run_calls, with_board,
  rtapi_app_main, complete, too_many,
}

-- A failure after `hal_init`.
abbrev Failed : Run → Type 0
Failed x = (ltb_ℤ x.result (pos 0) ≡ true) × (x.hal_exits ≡ 1)

-- None of the calls from `k` on fails.
abbrev pub all_succeed : (ℕ → ℤ) → ℕ → List HalCall → Bool
all_succeed ret k [] = true
all_succeed ret k (c ∷ calls) = not (ltb_ℤ (ret k) (pos 0)) && all_succeed ret (k + 1) calls

run_calls-Failed :
    (ret : ℕ → ℤ) (next : List HalCall → Run) (k : ℕ) (calls made : List HalCall)
    → Failed (run_calls ret k calls made next)
      ⊎ ((run_calls ret k calls made next ≡ next (made ++ calls))
          × (all_succeed ret k calls ≡ true))
unfolding run_calls
run_calls-Failed ret next k [] made = inr (ap next (sym (append-nil made)), refl)
run_calls-Failed ret next k (c ∷ calls) made = elim (Bool-cases (ltb_ℤ (ret k) (pos 0))) [
  | inl e ↦ rw e (inl (e, refl))
  | inr e ↦ rw e (elim (run_calls-Failed ret next (k + 1) calls (made ++ (c ∷ []))) [
    | inl failed ↦ inl failed
    | inr whole ↦ inr (whole.0 ∙ ap next (append_assoc made (c ∷ []) calls), whole.1)
  ])
]

-- All calls of the set-up are made, and none fails.
abbrev pub Whole : (ℕ → ℤ) → Names → Run → Type 0
Whole ret n x =
    (board : List HalCall) × (bb_hal_setup_pins n ≡ some board)
    × (x ≡ complete (first_calls ++ (board ++ later_calls n)))
    × (all_succeed ret 0 (first_calls ++ (board ++ later_calls n)) ≡ true)

with_board-Whole :
    (ret : ℕ → ℤ) (n : Names) (o : Option (List HalCall))
    → bb_hal_setup_pins n ≡ o
    → Failed (with_board ret n o) ⊎ Whole ret n (with_board ret n o)
with_board-Whole ret n none e = elim (run_calls-Failed ret too_many 0 first_calls []) [
  | inl failed ↦ inl failed
  | inr whole ↦
      inl (ap (λ (x : Run). ltb_ℤ x.result (pos 0)) whole.0, ap (λ (x : Run). x.hal_exits) whole.0)
]
with_board-Whole ret n (some board) e =
    elim (run_calls-Failed ret complete 0 (first_calls ++ (board ++ later_calls n)) []) [
      | inl failed ↦ inl failed
      | inr whole ↦ inr (board, e, whole.0, whole.1)
    ]

-- The set-up of the driver: either the number of pins is in bounds, every call was made, in order,
-- none of them failed, and it returns 0 without leaving the HAL; or it returns a negative number, and has called
-- `hal_exit` once if `hal_init` had given it a component, and not at all otherwise.
pub rtapi_app_main_lem :
    (rx_buffer tx_buffer hal_data : Bool) (comp_id : ℤ) (ret : ℕ → ℤ) (n : Names)
    → let x = rtapi_app_main rx_buffer tx_buffer hal_data comp_id ret n in
      Whole ret n x
      ⊎ ((ltb_ℤ x.result (pos 0) ≡ true)
          × (x.hal_exits ≡ (
              if rx_buffer && (tx_buffer && (hal_data && not (ltb_ℤ comp_id (pos 0))))
              then 1
              else 0)))
unfolding rtapi_app_main
rtapi_app_main_lem false tx_buffer hal_data comp_id ret n = inr (refl, refl)
rtapi_app_main_lem true false hal_data comp_id ret n = inr (refl, refl)
rtapi_app_main_lem true true false comp_id ret n = inr (refl, refl)
rtapi_app_main_lem true true true comp_id ret n = elim (Bool-cases (ltb_ℤ comp_id (pos 0))) [
  | inl e ↦ rw e (inr (e, refl))
  | inr e ↦ rw e (elim (with_board-Whole ret n (bb_hal_setup_pins n) refl) [
    | inl failed ↦ inr failed
    | inr whole ↦ inl whole
  ])
]
