-- ===== src/Firmware/SerialTerminal/Words.antt =====
-- The words of the terminal's commands, in ASCII.
use flexi_ninja.Prelude.{ℕ, List, [], ◌∷◌}

abbrev pub help_text : List ℕ
help_text = 104 ∷ 101 ∷ 108 ∷ 112 ∷ []  -- "help"

abbrev pub save_text : List ℕ
save_text = 115 ∷ 97 ∷ 118 ∷ 101 ∷ []  -- "save"

abbrev pub check_text : List ℕ
check_text = 99 ∷ 104 ∷ 101 ∷ 99 ∷ 107 ∷ []  -- "check"

abbrev pub reboot_text : List ℕ
reboot_text = 114 ∷ 101 ∷ 98 ∷ 111 ∷ 111 ∷ 116 ∷ []  -- "reboot"

abbrev pub ip_text : List ℕ
ip_text = 105 ∷ 112 ∷ []  -- "ip"

abbrev pub port_text : List ℕ
port_text = 112 ∷ 111 ∷ 114 ∷ 116 ∷ []  -- "port"

abbrev pub defaults_text : List ℕ
defaults_text = 100 ∷ 101 ∷ 102 ∷ 97 ∷ 117 ∷ 108 ∷ 116 ∷ 115 ∷ []  -- "defaults"

abbrev pub timeout_text : List ℕ
timeout_text = 116 ∷ 105 ∷ 109 ∷ 101 ∷ 111 ∷ 117 ∷ 116 ∷ []  -- "timeout"

abbrev pub mac_text : List ℕ
mac_text = 109 ∷ 97 ∷ 99 ∷ []  -- "mac"

abbrev pub reset_text : List ℕ
reset_text = 114 ∷ 101 ∷ 115 ∷ 101 ∷ 116 ∷ []  -- "reset"

abbrev pub scan_text : List ℕ
scan_text = 115 ∷ 99 ∷ 97 ∷ 110 ∷ []  -- "scan"

abbrev pub rp2040_reload_text : List ℕ
rp2040_reload_text = 114 ∷ 112 ∷ 50 ∷ 48 ∷ 52 ∷ 48 ∷ 95 ∷ 114 ∷ 101 ∷ 108 ∷ 111 ∷ 97 ∷ 100 ∷ []  -- "rp2040_reload"

abbrev pub inputs_text : List ℕ
inputs_text = 105 ∷ 110 ∷ 112 ∷ 117 ∷ 116 ∷ 115 ∷ []  -- "inputs"

abbrev pub timeout_prefix : List ℕ
timeout_prefix = 116 ∷ 105 ∷ 109 ∷ 101 ∷ 111 ∷ 117 ∷ 116 ∷ 32 ∷ []  -- "timeout "

abbrev pub port_prefix : List ℕ
port_prefix = 112 ∷ 111 ∷ 114 ∷ 116 ∷ 32 ∷ []  -- "port "

abbrev pub ip_prefix : List ℕ
ip_prefix = 105 ∷ 112 ∷ 32 ∷ []  -- "ip "

abbrev pub gateway_prefix : List ℕ
gateway_prefix = 103 ∷ 97 ∷ 116 ∷ 101 ∷ 119 ∷ 97 ∷ 121 ∷ 32 ∷ []  -- "gateway "

abbrev pub mac_prefix : List ℕ
mac_prefix = 109 ∷ 97 ∷ 99 ∷ 32 ∷ []  -- "mac "
