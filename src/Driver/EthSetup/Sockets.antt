-- ===== src/Driver/EthSetup/Sockets.antt =====
-- Every socket that the set-up creates is closed again once, there or at the exit.
use flexi_ninja.Prelude.{ℕ, refl, inl, inr, Bool, Option, none, some, List, [], arith, Bool-cases}
use flexi_ninja.Prelude.{◌+◌, ◌≡◌, ◌∷◌, ◌++◌, ◌==◌, if◌then◌else◌}
use flexi_ninja.Prelude.Int.{ℤ, pos, ltb_ℤ}
use flexi_ninja.Driver.EthAddress.{IpPort}
use flexi_ninja.Firmware.HandleData.Shape.{either}
use flexi_ninja.Driver.EthSetup.{
  SocketCall, socket, close, SocketReads, set_up_socket, created_socket, init_socket, Step,
  open_socket, call, out_of_pins, bind, set_nonblock, inet_pton, set_sndbuf, set_rcvbuf, EthRun,
  run_steps, exit_closes,
}

-- How often a socket was created, and how often closed.
abbrev pub one_if : Bool → ℕ
one_if b = if b then 1 else 0

abbrev pub creates : ℕ → List SocketCall → ℕ
creates fd [] = 0
creates fd (socket (some x) ∷ calls) = one_if (x == fd) + creates fd calls
creates fd (_ ∷ calls) = creates fd calls

abbrev pub closes : ℕ → List SocketCall → ℕ
closes fd [] = 0
closes fd (close x ∷ calls) = one_if (x == fd) + closes fd calls
closes fd (_ ∷ calls) = closes fd calls

-- Of one socket: created as often as closed, with the exit.
abbrev IsEven : ℕ → Option ℕ × List SocketCall → Type 0
IsEven fd (sockfd, calls) =
    closes fd calls + closes fd (exit_closes (sockfd ∷ [])) ≡ creates fd calls

created_socket-IsEven :
    (fd : ℕ) (r : SocketReads) (a : IpPort) (o : Option ℕ) → IsEven fd (created_socket r a o)
unfolding set_up_socket exit_closes
created_socket-IsEven fd r a none = refl
created_socket-IsEven fd r a (some x) = elim (Bool-cases r.bound) [
  | inl bound ↦ elim (Bool-cases r.valid) [
    | inl valid ↦ rw (bound, valid) (omega arith)
    | inr valid ↦ rw (bound, valid) (omega arith)
  ]
  | inr bound ↦ rw bound (omega arith)
]

creates-append :
    (fd : ℕ) (xs ys : List SocketCall) → creates fd (xs ++ ys) ≡ creates fd xs + creates fd ys
creates-append fd [] ys = omega arith
creates-append fd (socket none ∷ xs) ys = creates-append fd xs ys
creates-append fd (socket (some x) ∷ xs) ys = omega (arith, creates-append fd xs ys)
creates-append fd (bind x port ∷ xs) ys = creates-append fd xs ys
creates-append fd (set_nonblock x ∷ xs) ys = creates-append fd xs ys
creates-append fd (inet_pton ip ∷ xs) ys = creates-append fd xs ys
creates-append fd (set_sndbuf x size ∷ xs) ys = creates-append fd xs ys
creates-append fd (set_rcvbuf x size ∷ xs) ys = creates-append fd xs ys
creates-append fd (close x ∷ xs) ys = creates-append fd xs ys

closes-append :
    (fd : ℕ) (xs ys : List SocketCall) → closes fd (xs ++ ys) ≡ closes fd xs + closes fd ys
closes-append fd [] ys = omega arith
closes-append fd (socket o ∷ xs) ys = closes-append fd xs ys
closes-append fd (bind x port ∷ xs) ys = closes-append fd xs ys
closes-append fd (set_nonblock x ∷ xs) ys = closes-append fd xs ys
closes-append fd (inet_pton ip ∷ xs) ys = closes-append fd xs ys
closes-append fd (set_sndbuf x size ∷ xs) ys = closes-append fd xs ys
closes-append fd (set_rcvbuf x size ∷ xs) ys = closes-append fd xs ys
closes-append fd (close x ∷ xs) ys = omega (arith, closes-append fd xs ys)

closes-exit_closes :
    (fd : ℕ) (xs ys : List (Option ℕ))
    → closes fd (exit_closes (xs ++ ys)) ≡ closes fd (exit_closes xs) + closes fd (exit_closes ys)
unfolding exit_closes
closes-exit_closes fd [] ys = omega arith
closes-exit_closes fd (none ∷ xs) ys = closes-exit_closes fd xs ys
closes-exit_closes fd (some x ∷ xs) ys = omega (arith, closes-exit_closes fd xs ys)

-- Of a run so far.
abbrev pub IsBalanced : EthRun → Type 0
IsBalanced x =
    (fd : ℕ)
    → closes fd x.socket_calls + closes fd (exit_closes x.sockets) ≡ creates fd x.socket_calls

opened-IsBalanced :
    (r : SocketReads) (a : IpPort) (x : EthRun)
    → IsBalanced x
    → let (sockfd, calls) = init_socket r a in
      IsBalanced
        (record x { sockets = x.sockets ++ (sockfd ∷ []); socket_calls = x.socket_calls ++ calls })
unfolding init_socket
opened-IsBalanced r a x h fd =
    let (sockfd, calls) = created_socket r a r.created in
    omega (
      arith,
      h fd,
      created_socket-IsEven fd r a r.created,
      creates-append fd x.socket_calls calls,
      closes-append fd x.socket_calls calls,
      closes-exit_closes fd x.sockets (sockfd ∷ []),
    )

pub run_steps-IsBalanced :
    (ret : ℕ → ℤ) (k : ℕ) (steps : List Step) (x : EthRun)
    → IsBalanced x
    → IsBalanced (run_steps ret k steps x)
unfolding run_steps
run_steps-IsBalanced ret k [] x h = h
run_steps-IsBalanced ret k (open_socket r a ∷ steps) x h =
    run_steps-IsBalanced ret k steps _ (opened-IsBalanced r a x h)
run_steps-IsBalanced ret k (call c ∷ steps) x h =
    let rest = run_steps-IsBalanced ret (k + 1) steps (record x { made = x.made ++ (c ∷ []) }) h in
    either {A = EthRun} IsBalanced (ltb_ℤ (ret k) (pos 0)) _ _ h rest
run_steps-IsBalanced ret k (out_of_pins ∷ steps) x h = h
