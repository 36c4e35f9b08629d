-- ===== src/Driver/Setup.antt =====
-- hal-driver/flexi-ninja.c, `module_init`, `bb_hal_setup_pins` and `rtapi_app_main`, with the
-- macros of hal_pin_macros.h: the set-up of the driver for one instance. The HAL is outside: `ret
-- k` is what its `k`-th call from the first pin on returns, and the calls are the result. Names are
-- in pieces, after the prefix.
pub mod Load
pub mod Start
pub mod Tests
use Prim.Native.String.{String}
use flexi_ninja.Prelude.{ℕ, zero, suc, Bool, true, false, Option, none, some, List, [], ltb}
use flexi_ninja.Prelude.{length, ◌+◌, ◌∷◌, ◌++◌, ◌==◌, if◌then◌else◌}
use flexi_ninja.Prelude.Int.{ℤ, pos, negsuc, ltb_ℤ}
use flexi_ninja.Transmission.Packet.{stepgens, encoders}
use flexi_ninja.Driver.Arith.{Arith}
use flexi_ninja.Driver.Axis.{Axis}
use flexi_ninja.Driver.Send.{Module, PwmPins}
use flexi_ninja.Driver.Recv.{Encoder, Link}
use flexi_ninja.Driver.Watchdog.{Watchdog}
use flexi_ninja.Firmware.HandleData.{pin_null}

-- `%d` and text.
pub data Piece : Type 0 where
  text : String → Piece
  number : ℕ → Piece

pub data PinType : Type 0 where
  hal_bit : PinType
  hal_s32 : PinType
  hal_u32 : PinType
  hal_float : PinType

pub data PinDir : Type 0 where
  hal_in : PinDir
  hal_out : PinDir

-- What is asked of the HAL.
pub data HalCall : Type 0 where
  pin : PinType → PinDir → List Piece → HalCall
  export_funct : List Piece → HalCall
  ready : HalCall

abbrev pub one : String → List Piece
one name = text name ∷ []

-- The names of config.h; a pin of the board is its gpio and its name.
pub record Names : Type 0 where
  pub inputs : List String
  pub outputs : List (ℕ × String)
  pub ex_inputs : List String
  pub ex_outputs : List String
  pub pwm : String
  pub encoder_names : List String

unfoldable pub input_calls : List String → List HalCall
input_calls [] = []
input_calls (name ∷ names) =
    pin hal_bit hal_out (text ".input." ∷ text name ∷ [])
    ∷ pin hal_bit hal_out (text ".input." ∷ text name ∷ text "-not" ∷ [])
    ∷ input_calls names

unfoldable pub output_calls : List (ℕ × String) → List HalCall
output_calls [] = []
output_calls ((gpio, name) ∷ pins) =
    let rest = output_calls pins in
    if gpio == pin_null then rest else pin hal_bit hal_in (text ".output." ∷ text name ∷ []) ∷ rest

unfoldable pub ex_output_calls : List String → List HalCall
ex_output_calls [] = []
ex_output_calls (name ∷ names) =
    pin hal_bit hal_in (text ".output." ∷ text name ∷ []) ∷ ex_output_calls names

-- `bb_hal_setup_pins`; `none` is -1, too many pins.
unfoldable pub bb_hal_setup_pins : Names → Option (List HalCall)
bb_hal_setup_pins n =
    if ltb 96 (length n.inputs)
    then none
    else if ltb 64 (length n.outputs)
    then none
    else some (
        input_calls n.inputs
        ++ (output_calls n.outputs ++ (input_calls n.ex_inputs ++ ex_output_calls n.ex_outputs)))

-- The pins before those of the board.
unfoldable pub first_calls : List HalCall
first_calls =
    pin hal_bit hal_in (one ".probe-select")
    ∷ pin hal_bit hal_in (one ".connected")
    ∷ pin hal_u32 hal_in (one ".stepgen.pulse-width")
    ∷ pin hal_float hal_out (one ".stepgen.max-freq-khz")
    ∷ pin hal_bit hal_in (one ".stepgen.debug-steps-reset")
    ∷ pin hal_s32 hal_out (one ".jitter")
    ∷ pin hal_u32 hal_out (one ".stepgen.ring-fill")
    ∷ pin hal_bit hal_out (one ".stepgen.ring-active")
    ∷ pin hal_bit hal_out (one ".stepgen.ring-underflow")
    ∷ pin hal_bit hal_out (one ".stepgen.ring-overflow")
    ∷ []

unfoldable pub pwm_calls : String → List HalCall
pwm_calls name =
    let of = λ (field : String). text "." ∷ text name ∷ text field ∷ [] in
    pin hal_bit hal_in (of ".enable")
    ∷ pin hal_u32 hal_in (of ".duty")
    ∷ pin hal_u32 hal_in (of ".frequency")
    ∷ pin hal_u32 hal_in (of ".min-limit")
    ∷ pin hal_u32 hal_in (of ".max-scale")
    ∷ []

-- The stepgens from `i` on, `n` of them.
unfoldable pub stepgen_calls : ℕ → ℕ → List HalCall
stepgen_calls zero i = []
stepgen_calls (suc n) i =
    let of = λ (field : String). text ".stepgen." ∷ number i ∷ text field ∷ [] in
    pin hal_s32 hal_out (of ".debug-steps")
    ∷ pin hal_float hal_in (of ".command")
    ∷ pin hal_float hal_in (of ".step-scale")
    ∷ pin hal_float hal_out (of ".feedback")
    ∷ pin hal_bit hal_in (of ".mode")
    ∷ pin hal_bit hal_in (of ".enable")
    ∷ stepgen_calls n (i + 1)

unfoldable pub encoder_calls : List String → List HalCall
encoder_calls [] = []
encoder_calls (name ∷ names) =
    let of = λ (field : String). text ".encoder." ∷ text name ∷ text field ∷ [] in
    pin hal_s32 hal_out (of ".raw-count")
    ∷ pin hal_float hal_out (of ".position")
    ∷ pin hal_float hal_in (of ".scale")
    ∷ pin hal_float hal_out (of ".velocity-rps")
    ∷ pin hal_bit hal_in (of ".index-enable")
    ∷ pin hal_float hal_out (of ".velocity-rpm")
    ∷ pin hal_float hal_in (of ".filter-tau")
    ∷ pin hal_float hal_in (of ".filter-dt")
    ∷ pin hal_float hal_in (of ".vel-threshold")
    ∷ pin hal_bit hal_in (of ".enabled")
    ∷ pin hal_bit hal_in (of ".debug-reset")
    ∷ encoder_calls names

-- What follows the pins of the board, for one instance.
unfoldable pub instance_calls : Names → List HalCall
instance_calls n =
    pwm_calls n.pwm
    ++ (stepgen_calls stepgens 0
        ++ (pin hal_u32 hal_in (one ".stepgen.dir-setup")
            ∷ (encoder_calls n.encoder_names
                ++ (pin hal_u32 hal_in (one ".period")
                    ∷ pin hal_bit hal_in (one ".io-ready-in")
                    ∷ pin hal_bit hal_out (one ".io-ready-out")
                    ∷ export_funct (one ".watchdog-process")
                    ∷ export_funct (one ".process-send")
                    ∷ export_funct (one ".process-recv")
                    ∷ []))))

-- And up to the end.
unfoldable pub later_calls : Names → List HalCall
later_calls n = instance_calls n ++ (ready ∷ [])

-- The run of the set-up so far: the calls made, and how often `hal_exit` was called.
pub record Run : Type 0 where
  pub result : ℤ
  pub made : List HalCall
  pub hal_exits : ℕ
  pub freed_rx : Bool

-- A list of calls from number `k` on: each one that fails ends the set-up with `hal_exit`.
unfoldable pub run_calls : (ℕ → ℤ) → ℕ → List HalCall → List HalCall → (List HalCall → Run) → Run
run_calls ret k [] made next = next made
run_calls ret k (c ∷ calls) made next =
    let rest = run_calls ret (k + 1) calls (made ++ (c ∷ [])) next in
    if ltb_ℤ (ret k) (pos 0)
    then record { result = ret k; made = made ++ (c ∷ []); hal_exits = 1; freed_rx = false }
    else rest

abbrev pub ended : ℤ → Bool → Run
ended result freed = record { result = result; made = []; hal_exits = 0; freed_rx = freed }

abbrev pub complete : List HalCall → Run
complete made = record { result = pos 0; made = made; hal_exits = 0; freed_rx = false }

-- Too many pins: -1 once the first pins are there.
abbrev pub too_many : List HalCall → Run
too_many made = record { result = negsuc 0; made = made; hal_exits = 1; freed_rx = false }

abbrev pub with_board : (ℕ → ℤ) → Names → Option (List HalCall) → Run
with_board ret n none = run_calls ret 0 first_calls [] too_many
with_board ret n (some board) =
    run_calls ret 0 (first_calls ++ (board ++ later_calls n)) [] complete

-- `rtapi_app_main`: whether the three allocations succeed, and what `hal_init` returns.
unfoldable pub rtapi_app_main : Bool → Bool → Bool → ℤ → (ℕ → ℤ) → Names → Run
rtapi_app_main rx_buffer tx_buffer hal_data comp_id ret n =
    if rx_buffer
    then if tx_buffer
      then if hal_data
        then if ltb_ℤ comp_id (pos 0)
          then ended comp_id false
          else with_board ret n (bb_hal_setup_pins n)
        else ended (negsuc 0) false
      else ended (negsuc 0) true
    else ended (negsuc 0) false
