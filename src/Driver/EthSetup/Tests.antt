-- ===== src/Driver/EthSetup/Tests.antt =====
-- Two boards, one of which has an address that is no address; and a pin that cannot be exported.
use flexi_ninja.Prelude.{ℕ, true, not, some, List, [], ◌+◌, ◌&&◌, ◌∷◌, ◌==◌, if◌then◌else◌}
use flexi_ninja.Prelude.Int.{pos, negsuc, ltb_ℤ}
use flexi_ninja.Driver.EthAddress.{parse_ip_port}
use flexi_ninja.Driver.EthAddress.RoundTrip.{Written, joined}
use flexi_ninja.Driver.Setup.{Names}
use flexi_ninja.Driver.EthSetup.{SocketReads, eth_app_main}
use flexi_ninja.Driver.EthSetup.Load.{Ends, eth_app_main_lem}

abbrev first_board : Written
first_board = record { ip_text = 49 ∷ 46 ∷ 50 ∷ []; port_text = 56 ∷ 48 ∷ [] }

abbrev second_board : Written
second_board = record { ip_text = 120 ∷ []; port_text = 57 ∷ [] }

abbrev text : List ℕ
text = joined first_board (second_board ∷ [])

abbrev sockets : ℕ → SocketReads
sockets j = record { created = some (3 + j); bound = true; valid = j == 0 }

abbrev names : Names
names = record {
  inputs = "HALT" ∷ [];
  outputs = (2, "LED") ∷ [];
  ex_inputs = [];
  ex_outputs = "X_EN" ∷ [];
  pwm = "SPINDLE_PWM";
  encoder_names = "ENC1" ∷ [];
}

-- The pins of the first board are exported, and the seventieth call is that of a pin of the second.
eth_app_main_lem_example :
    Ends
      (λ k. if k == 70 then negsuc 0 else pos 0)
      sockets
      names
      (true && (true && not (ltb_ℤ (pos 4) (pos 0))))
      (parse_ip_port (some text) true 4)
      (eth_app_main true
        (some text)
        true
        true
        (pos 4)
        (λ k. if k == 70 then negsuc 0 else pos 0)
        sockets
        names)
eth_app_main_lem_example =
    eth_app_main_lem (λ k. if k == 70 then negsuc 0 else pos 0) sockets names true (some text) true
      true (pos 4)
