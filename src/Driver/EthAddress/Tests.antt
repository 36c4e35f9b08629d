-- ===== src/Driver/EthAddress/Tests.antt =====
-- Two addresses and room for four.
use flexi_ninja.Prelude.{ℕ, refl, Bool, true, some, List, [], arith, ltb, All, ◌≡◌, ◌≢◌, ◌&&◌}
use flexi_ninja.Prelude.{◌∷◌}
use flexi_ninja.Driver.EthAddress.{parse_ip_port}
use flexi_ninja.Driver.EthAddress.RoundTrip.{
  Written, IsWritten, joined, read_back, parse_ip_port-joined,
}

-- 10.0.0.2:8888
abbrev first_board : Written
first_board = record {
  ip_text = 49 ∷ 48 ∷ 46 ∷ 48 ∷ 46 ∷ 48 ∷ 46 ∷ 50 ∷ [];
  port_text = 56 ∷ 56 ∷ 56 ∷ 56 ∷ [];
}

-- 10.0.0.3:80
abbrev second_board : Written
second_board = record {
  ip_text = 49 ∷ 48 ∷ 46 ∷ 48 ∷ 46 ∷ 48 ∷ 46 ∷ 51 ∷ [];
  port_text = 56 ∷ 48 ∷ [];
}

port_ne : (c : ℕ) (cs : List ℕ) → c ∷ cs ≢ []
port_ne c cs e = ground (arith, e)

abbrev all_below : ℕ → List ℕ → Bool
all_below n [] = true
all_below n (c ∷ cs) = ltb c n && all_below n cs

plain : (cs : List ℕ) → all_below 58 cs ≡ true → All (λ c. (c ≢ 58) × (c ≢ 59)) cs
plain [] h = tt
plain (c ∷ cs) h =
    let rest : all_below 58 cs ≡ true = ground (arith, h) in
    ((λ e. ground (arith, h, e), λ e. ground (arith, h, e)), plain cs rest)

first_board-IsWritten : IsWritten first_board
first_board-IsWritten = record {
  no_separator = plain first_board.ip_text refl;
  some_digits = port_ne 56 (56 ∷ 56 ∷ 56 ∷ []);
  all_digits = (refl, (refl, (refl, (refl, tt))));
  in_range = omega arith;
}

second_board-IsWritten : IsWritten second_board
second_board-IsWritten = record {
  no_separator = plain second_board.ip_text refl;
  some_digits = port_ne 56 (48 ∷ []);
  all_digits = (refl, (refl, tt));
  in_range = omega arith;
}

parse_ip_port-joined_example :
    parse_ip_port (some (joined first_board (second_board ∷ []))) true 4
    ≡ some (read_back first_board ∷ read_back second_board ∷ [])
parse_ip_port-joined_example =
    parse_ip_port-joined first_board (second_board ∷ []) 4
      (first_board-IsWritten, (second_board-IsWritten, tt)) (omega arith)
