-- ===== src/Driver/EthSetup/Load.antt =====
-- The set-up for several boards: it fails, or makes every call and opens what the exit closes.
use flexi_ninja.Prelude.{ℕ, refl, sym, ap, inl, inr, Bool, true, false, not, Option, none, some}
use flexi_ninja.Prelude.{List, [], map, ltb, Bool-cases, length, ◌+◌, ◌≡◌, ◌⊎◌, ◌∙◌, ◌&&◌, ◌∷◌}
use flexi_ninja.Prelude.{◌++◌, if◌then◌else◌}
use mathlib.Core.List.{append-nil, append_assoc}
use flexi_ninja.Prelude.Int.{ℤ, pos, negsuc, ltb_ℤ}
use flexi_ninja.Driver.EthAddress.{IpPort, parse_ip_port}
use flexi_ninja.Driver.Setup.{HalCall, Names}
use flexi_ninja.Driver.EthSetup.{
  SocketReads, init_socket, Step, open_socket, call, out_of_pins, EthRun, run_steps, exit_closes,
}
use flexi_ninja.Driver.EthSetup.Sockets.{IsBalanced, run_steps-IsBalanced}
use flexi_ninja.Driver.EthSetup.{
  board_steps, board_of, instance_steps, all_steps, with_prefix, with_boards, eth_app_main, ended,
  begun_run, max_chan,
}
use flexi_ninja.Driver.Setup.{first_calls, instance_calls}

-- The HAL calls of steps, the sockets that they set up (`none` where `init_socket` fails, which the
-- set-up does not look at), and whether none of their HAL calls fails, from call `k` on.
abbrev pub hal_calls : List Step → List HalCall
hal_calls [] = []
hal_calls (call c ∷ steps) = c ∷ hal_calls steps
hal_calls (_ ∷ steps) = hal_calls steps

abbrev opened : List Step → List (Option ℕ)
opened [] = []
opened (open_socket r a ∷ steps) = (init_socket r a).0 ∷ opened steps
opened (_ ∷ steps) = opened steps

abbrev pub all_succeed : (ℕ → ℤ) → ℕ → List Step → Bool
all_succeed ret k [] = true
all_succeed ret k (call c ∷ steps) = not (ltb_ℤ (ret k) (pos 0)) && all_succeed ret (k + 1) steps
all_succeed ret k (_ ∷ steps) = all_succeed ret k steps

-- A failure after `hal_init`, and a run that made every call.
abbrev Failed : EthRun → Type 0
Failed x = (ltb_ℤ x.result (pos 0) ≡ true) × (x.hal_exits ≡ 1)

abbrev Done : (ℕ → ℤ) → ℕ → List Step → EthRun → EthRun → Type 0
Done ret k steps x y =
    (y.result ≡ x.result)
    × (y.hal_exits ≡ x.hal_exits)
    × (y.made ≡ x.made ++ hal_calls steps)
    × (y.sockets ≡ x.sockets ++ opened steps)
    × (all_succeed ret k steps ≡ true)

run_steps-Done :
    (ret : ℕ → ℤ) (k : ℕ) (steps : List Step) (x : EthRun)
    → Failed (run_steps ret k steps x) ⊎ Done ret k steps x (run_steps ret k steps x)
unfolding run_steps
run_steps-Done ret k [] x =
    inr (refl, refl, sym (append-nil x.made), sym (append-nil x.sockets), refl)
run_steps-Done ret k (open_socket r a ∷ steps) x =
    let (sockfd, calls) = init_socket r a in
    let y : EthRun = record x {
      sockets = x.sockets ++ (sockfd ∷ []);
      socket_calls = x.socket_calls ++ calls;
    } in
    elim (run_steps-Done ret k steps y) [
      | inl failed ↦ inl failed
      | inr done ↦ inr (
        done.0,
        done.1,
        done.2,
        done.3 ∙ append_assoc x.sockets (sockfd ∷ []) (opened steps),
        done.4,
      )
    ]
run_steps-Done ret k (call c ∷ steps) x = elim (Bool-cases (ltb_ℤ (ret k) (pos 0))) [
  | inl e ↦ rw e (inl (e, refl))
  | inr e ↦ rw e (elim (run_steps-Done ret (k + 1) steps (record x { made = x.made ++ (c ∷ []) })) [
    | inl failed ↦ inl failed
    | inr done ↦
        inr
          (done.0, done.1, done.2 ∙ append_assoc x.made (c ∷ []) (hal_calls steps), done.3, done.4)
  ])
]
run_steps-Done ret k (out_of_pins ∷ steps) x = inl (refl, refl)

opened-append : (xs ys : List Step) → opened (xs ++ ys) ≡ opened xs ++ opened ys
opened-append [] ys = refl
opened-append (open_socket r a ∷ xs) ys = ap (λ l. (init_socket r a).0 ∷ l) (opened-append xs ys)
opened-append (call c ∷ xs) ys = opened-append xs ys
opened-append (out_of_pins ∷ xs) ys = opened-append xs ys

opened-map-call : (calls : List HalCall) → opened (map (call) calls) ≡ []
opened-map-call [] = refl
opened-map-call (c ∷ calls) = opened-map-call calls

opened-board_steps :
    (board : Option (List HalCall)) (later : List HalCall) → opened (board_steps board later) ≡ []
opened-board_steps none later = refl
opened-board_steps (some board) later = opened-map-call (board ++ later)

opened-instance_steps :
    (n : Names) (several : Bool) (j : ℕ) (r : SocketReads) (a : IpPort)
    → opened (instance_steps n several j r a) ≡ (init_socket r a).0 ∷ []
unfolding instance_steps
opened-instance_steps n several j r a =
    let named = map (with_prefix several j) in
    let board = board_of n several j in
    ap (λ l. (init_socket r a).0 ∷ l)
      (opened-append (map (call) (named first_calls)) (board_steps board (named (instance_calls n)))
        ∙ rw (opened-map-call (named first_calls))
            (opened-board_steps board (named (instance_calls n))))

-- What `init_socket` gives for each board, from instance `j` on.
abbrev pub sockets_of : (ℕ → SocketReads) → ℕ → List IpPort → List (Option ℕ)
sockets_of reads j [] = []
sockets_of reads j (a ∷ boards) = (init_socket (reads j) a).0 ∷ sockets_of reads (j + 1) boards

opened-all_steps :
    (n : Names) (several : Bool) (reads : ℕ → SocketReads) (j : ℕ) (boards : List IpPort)
    → opened (all_steps n several reads j boards) ≡ sockets_of reads j boards
unfolding all_steps
opened-all_steps n several reads j [] = refl
opened-all_steps n several reads j (a ∷ boards) =
    opened-append (instance_steps n several j (reads j) a)
      (all_steps n several reads (j + 1) boards)
    ∙ rw (opened-instance_steps n several j (reads j) a) (
        ap (λ l. (init_socket (reads j) a).0 ∷ l) (opened-all_steps n several reads (j + 1) boards))

abbrev pub some_board : Option (List IpPort) → Bool
some_board none = false
some_board (some []) = false
some_board (some (a ∷ boards)) = true

-- Every call of the set-up was made and none failed, every board has what `init_socket` gave for it,
-- and with the exit each socket is closed as often as it was created.
abbrev pub Whole : (ℕ → ℤ) → Names → (ℕ → SocketReads) → Option (List IpPort) → EthRun → Type 0
Whole ret n reads parsed x =
    (boards : List IpPort) × (parsed ≡ some boards)
    × (x.made ≡ hal_calls (all_steps n (ltb 1 (length boards)) reads 0 boards))
    × (all_succeed ret 0 (all_steps n (ltb 1 (length boards)) reads 0 boards) ≡ true)
    × (x.sockets ≡ sockets_of reads 0 boards)
    × (x.result ≡ pos 0)
    × (x.hal_exits ≡ 0)
    × IsBalanced x

module _ (ret : ℕ → ℤ) (reads : ℕ → SocketReads) (n : Names) where
  -- What a set-up ends with, with these boards, and with a component or without.
  abbrev pub Ends : Bool → Option (List IpPort) → EthRun → Type 0
  Ends component parsed x =
      Whole ret n reads parsed x
      ⊎ ((ltb_ℤ x.result (pos 0) ≡ true)
          × (x.hal_exits ≡ (if some_board parsed && component then 1 else 0)))

  ended-Ends :
      (parsed : Option (List IpPort)) (result : ℤ)
      → ltb_ℤ result (pos 0) ≡ true
      → Ends false parsed (ended result)
  unfolding exit_closes
  ended-Ends none result e = inr (e, refl)
  ended-Ends (some []) result e = inr (e, refl)
  ended-Ends (some (a ∷ boards)) result e = inr (e, refl)

  run-Ends :
      (a : IpPort) (boards : List IpPort)
      → Ends true (some (a ∷ boards)) (
          run_steps ret 0
            (all_steps n (ltb 1 (length (a ∷ boards))) reads 0 (a ∷ boards))
            begun_run)
  unfolding exit_closes
  run-Ends a boards =
      let steps = all_steps n (ltb 1 (length (a ∷ boards))) reads 0 (a ∷ boards) in
      elim (run_steps-Done ret 0 steps begun_run) [
        | inl failed ↦ inr failed
        | inr done ↦
            let opened_here =
              opened-all_steps n (ltb 1 (length (a ∷ boards))) reads 0 (a ∷ boards) in
            inl (
              a ∷ boards,
              refl,
              done.2,
              done.4,
              done.3 ∙ opened_here,
              done.0,
              done.1,
              run_steps-IsBalanced ret 0 steps begun_run (λ fd. refl),
            )
      ]

  with_boards-Ends :
      (hal_data : Bool) (comp_id : ℤ) (parsed : Option (List IpPort))
      → Ends
          (hal_data && not (ltb_ℤ comp_id (pos 0)))
          parsed
          (with_boards hal_data comp_id ret reads n parsed)
  unfolding exit_closes
  with_boards-Ends hal_data comp_id none = inr (refl, refl)
  with_boards-Ends hal_data comp_id (some []) = inr (refl, refl)
  with_boards-Ends false comp_id (some (a ∷ boards)) = inr (refl, refl)
  with_boards-Ends true comp_id (some (a ∷ boards)) = elim (Bool-cases (ltb_ℤ comp_id (pos 0))) [
    | inl e ↦ rw e (inr (e, refl))
    | inr e ↦ rw e (run-Ends a boards)
  ]

  -- The set-up of the Ethernet driver. Either the module parameter names boards, every HAL call was
  -- made, in order and for every board, and none failed, each board has the socket that `init_socket`
  -- gave for it, or none where that failed, every socket created is closed once, there or at the
  -- exit, and it returns 0 without leaving the HAL; or it returns a negative number, and has called
  -- `hal_exit` once if there are boards and `hal_init` had given it a component, and not at all
  -- otherwise.
  pub eth_app_main_lem :
      (module_ready : Bool) (ip_address : Option (List ℕ)) (copied hal_data : Bool) (comp_id : ℤ)
      → Ends
          (module_ready && (hal_data && not (ltb_ℤ comp_id (pos 0))))
          (parse_ip_port ip_address copied max_chan)
          (eth_app_main module_ready ip_address copied hal_data comp_id ret reads n)
  unfolding eth_app_main exit_closes
  eth_app_main_lem true ip_address copied hal_data comp_id =
      with_boards-Ends hal_data comp_id (parse_ip_port ip_address copied max_chan)
  eth_app_main_lem false ip_address copied hal_data comp_id =
      not_ready (parse_ip_port ip_address copied max_chan)
    where
      not_ready : (parsed : Option (List IpPort)) → Ends false parsed (ended (negsuc 0))
      not_ready parsed = ended-Ends parsed (negsuc 0) refl
