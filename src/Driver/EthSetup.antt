-- ===== src/Driver/EthSetup.antt =====
-- hal-driver/flexi-ninja-eth.c, `init_socket`, `rtapi_app_main` and `rtapi_app_exit`: the set-up of
-- the driver for up to four boards, one instance each. The sockets and the HAL are outside: what
-- they answer is given, and the calls are the result. The pins of an instance are those of
-- flexi-ninja.c (Setup), with its number in the prefix when there are several.
pub mod Sockets
pub mod Load
pub mod Tests
use flexi_ninja.Prelude.{ℕ, Bool, Option, none, some, List, [], map, ltb, length, ◌+◌, ◌∷◌, ◌++◌}
use flexi_ninja.Prelude.{if◌then◌else◌}
use flexi_ninja.Prelude.Int.{ℤ, pos, negsuc, ltb_ℤ}
use flexi_ninja.Driver.EthAddress.{IpPort, parse_ip_port}
use flexi_ninja.Driver.Setup.{
  text, number, HalCall, pin, export_funct, ready, Names, bb_hal_setup_pins, first_calls,
  instance_calls,
}

-- Calls on a socket; that of `socket` has what it gives, `none` for an error.
pub data SocketCall : Type 0 where
  socket : Option ℕ → SocketCall
  bind : ℕ → ℕ → SocketCall
  set_nonblock : ℕ → SocketCall
  inet_pton : List ℕ → SocketCall
  set_sndbuf : ℕ → ℕ → SocketCall
  set_rcvbuf : ℕ → ℕ → SocketCall
  close : ℕ → SocketCall

-- The socket that is created, whether it is bound, and whether the address is valid.
pub record SocketReads : Type 0 where
  pub created : Option ℕ
  pub bound : Bool
  pub valid : Bool

abbrev pub bufsize : ℕ
bufsize = 65535

-- On a socket that was created.
unfoldable pub set_up_socket : SocketReads → IpPort → ℕ → Option ℕ × List SocketCall
set_up_socket r a fd =
    if r.bound
    then if r.valid
      then (
        some fd,
        bind fd a.port
            ∷ set_nonblock fd
            ∷ inet_pton a.ip
            ∷ set_sndbuf fd bufsize
            ∷ set_rcvbuf fd bufsize
            ∷ [],
      )
      else (none, bind fd a.port ∷ set_nonblock fd ∷ inet_pton a.ip ∷ close fd ∷ [])
    else (none, bind fd a.port ∷ close fd ∷ [])

abbrev pub created_socket : SocketReads → IpPort → Option ℕ → Option ℕ × List SocketCall
created_socket r a none = (none, socket none ∷ [])
created_socket r a (some fd) =
    let (sockfd, calls) = set_up_socket r a fd in (sockfd, socket (some fd) ∷ calls)

-- `init_socket`, and `sockfd` after it; `none` is negative.
unfoldable pub init_socket : SocketReads → IpPort → Option ℕ × List SocketCall
init_socket r a = created_socket r a r.created

-- The prefix of instance `j`.
unfoldable pub with_prefix : Bool → ℕ → HalCall → HalCall
with_prefix several j (pin type dir name) =
    pin type dir (if several then text "." ∷ number j ∷ name else name)
with_prefix several j (export_funct name) =
    export_funct (if several then text "." ∷ number j ∷ name else name)
with_prefix several j ready = ready

-- What the set-up does, one after the other.
pub data Step : Type 0 where
  open_socket : SocketReads → IpPort → Step
  call : HalCall → Step
  out_of_pins : Step

abbrev pub board_steps : Option (List HalCall) → List HalCall → List Step
board_steps none later = out_of_pins ∷ []
board_steps (some board) later = map (call) (board ++ later)

-- The pins of the board for instance `j`, if there are not too many.
abbrev pub board_of : Names → Bool → ℕ → Option (List HalCall)
board_of n several j = elim (bb_hal_setup_pins n) [
  | none ↦ none
  | some board ↦ some (map (with_prefix several j) board)
]

-- The round of the loop for instance `j`. What follows `out_of_pins` is not reached.
unfoldable pub instance_steps : Names → Bool → ℕ → SocketReads → IpPort → List Step
instance_steps n several j r a =
    let named = map (with_prefix several j) in
    open_socket r a
    ∷ (map (call) (named first_calls)
        ++ board_steps (board_of n several j) (named (instance_calls n)))

-- The loop over the instances from `j` on, and `hal_ready`.
unfoldable pub all_steps : Names → Bool → (ℕ → SocketReads) → ℕ → List IpPort → List Step
all_steps n several reads j [] = call ready ∷ []
all_steps n several reads j (a ∷ boards) =
    instance_steps n several j (reads j) a ++ all_steps n several reads (j + 1) boards

pub record EthRun : Type 0 where
  pub result : ℤ
  pub made : List HalCall
  pub sockets : List (Option ℕ)
  pub socket_calls : List SocketCall
  pub hal_exits : ℕ

-- The run of the steps from HAL call `k` on.
unfoldable pub run_steps : (ℕ → ℤ) → ℕ → List Step → EthRun → EthRun
run_steps ret k [] x = x
run_steps ret k (open_socket r a ∷ steps) x =
    let (sockfd, calls) = init_socket r a in
    run_steps ret k steps
      (record x { sockets = x.sockets ++ (sockfd ∷ []); socket_calls = x.socket_calls ++ calls })
run_steps ret k (call c ∷ steps) x =
    let y : EthRun = record x { made = x.made ++ (c ∷ []) } in
    let rest = run_steps ret (k + 1) steps y in
    if ltb_ℤ (ret k) (pos 0) then record y { result = ret k; hal_exits = 1 } else rest
run_steps ret k (out_of_pins ∷ steps) x = record x { result = negsuc 0; hal_exits = 1 }

abbrev pub begun_run : EthRun
begun_run = record { result = pos 0; made = []; sockets = []; socket_calls = []; hal_exits = 0 }

abbrev pub ended : ℤ → EthRun
ended result = record begun_run { result = result }

abbrev pub max_chan : ℕ
max_chan = 4

abbrev pub with_boards :
    Bool → ℤ → (ℕ → ℤ) → (ℕ → SocketReads) → Names → Option (List IpPort) → EthRun
with_boards hal_data comp_id ret reads n none = ended (negsuc 0)
with_boards hal_data comp_id ret reads n (some []) = ended (negsuc 0)
with_boards hal_data comp_id ret reads n (some (a ∷ boards)) =
    if hal_data
    then if ltb_ℤ comp_id (pos 0)
      then ended comp_id
      else run_steps ret 0 (all_steps n (ltb 1 (length (a ∷ boards))) reads 0 (a ∷ boards))
          begun_run
    else ended (negsuc 0)

-- `rtapi_app_main`: whether `module_init` and the allocations succeed, the module parameter (`none`
-- is NULL), what `hal_init` returns, and the answers of HAL and sockets.
unfoldable pub eth_app_main :
    Bool → Option (List ℕ) → Bool → Bool → ℤ → (ℕ → ℤ) → (ℕ → SocketReads) → Names → EthRun
eth_app_main module_ready ip_address copied hal_data comp_id ret reads n =
    if module_ready
    then with_boards hal_data comp_id ret reads n (parse_ip_port ip_address copied max_chan)
    else ended (negsuc 0)

-- The sockets that `rtapi_app_exit` closes.
unfoldable pub exit_closes : List (Option ℕ) → List SocketCall
exit_closes [] = []
exit_closes (none ∷ sockets) = exit_closes sockets
exit_closes (some fd ∷ sockets) = close fd ∷ exit_closes sockets
