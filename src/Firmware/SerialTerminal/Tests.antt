-- ===== src/Firmware/SerialTerminal/Tests.antt =====
-- The theorems on the configuration and on the terminal at concrete inputs.
use flexi_ninja.Prelude.{ℕ, refl, inl, true, false, none, some, List, [], arith, replicate, ◌≡◌}
use flexi_ninja.Prelude.{◌≢◌, ◌∷◌}
use flexi_ninja.Firmware.FlashConfig.{
  queued, Configuration, default_config, config_of_bytes, config_bytes, calculate_checksum_flash,
  sum_bytes, seal, Store, Call, restarted, save_config_to_flash, load_config_from_flash,
  flash_sector_size,
}
use flexi_ninja.Firmware.FlashConfig.Laws.{IsConfiguration}
use flexi_ninja.Firmware.FlashConfig.Boot.{
  load_config_from_flash-save, load_config_from_flash-default,
}
use flexi_ninja.Firmware.SerialTerminal.{
  Settings, Format, saved, process_command, load_configuration, Editor, handle_serial_input,
}
use flexi_ninja.Firmware.Server.{serve_save}
use flexi_ninja.System.Samples.{server}
use flexi_ninja.Firmware.SerialTerminal.Words.{save_text}
use flexi_ninja.Firmware.SerialTerminal.Line.{IsEditor, handle_serial_input-IsEditor}
use flexi_ninja.Firmware.SerialTerminal.Persist.{IsSettings, SameSettings, load_configuration-save}

-- A flash that is all 0xFF once erased, and holds what is programmed into it.
abbrev erase : List ℕ → List ℕ
erase s = replicate flash_sector_size 255

abbrev program : List ℕ → List ℕ → List ℕ
program s d = d

abbrev good_call : Call
good_call = record { core_num = 0; malloc_ok = true; erase_ok = true; program_ok = true }

abbrev half_call : Call
half_call = record { core_num = 0; malloc_ok = true; erase_ok = true; program_ok = false }

abbrev core1_call : Call
core1_call = record { core_num = 1; malloc_ok = true; erase_ok = true; program_ok = true }

abbrev other_config : Configuration
other_config = record default_config { port = 9000; ip = 10 ∷ 0 ∷ 0 ∷ 7 ∷ [] }

other_config-IsConfiguration : IsConfiguration other_config
other_config-IsConfiguration = record {
  mac = refl;
  ip = refl;
  sn = refl;
  gw = refl;
  dns = refl;
  port = omega arith;
  timeout = omega arith;
  cfg_version = omega arith;
}

abbrev store : Store
store = record { flash_config = some other_config; save_requested = false; sector = [] }

load_config_from_flash-save_example :
    let (written, outcome) = save_config_to_flash erase program good_call store in
    let start : Store = record written { flash_config = none; save_requested = false } in
    let (loaded, again) = load_config_from_flash erase program good_call core1_call start in
    (outcome ≡ restarted) × (loaded.flash_config ≡ some (seal other_config)) × (again ≡ none)
load_config_from_flash-save_example =
    load_config_from_flash-save erase program (λ s d. refl) good_call good_call core1_call
      other_config store other_config-IsConfiguration refl refl refl refl refl refl

-- A byte that is set, with the checksum 0.
abbrev bad_store : Store
bad_store = record store { sector = 1 ∷ [] }

bad_sum :
    calculate_checksum_flash (config_of_bytes bad_store.sector)
    ≢ (config_of_bytes bad_store.sector).checksum
unfolding config_of_bytes calculate_checksum_flash sum_bytes config_bytes
bad_sum = λ e. absurd (omega (arith, e))

load_config_from_flash-default_example :
    (load_config_from_flash erase program half_call core1_call bad_store).0.flash_config
    ≡ some (seal default_config)
load_config_from_flash-default_example =
    load_config_from_flash-default erase program half_call core1_call bad_store (inl bad_sum)

abbrev settings : Settings
settings = record {
  net_info = record {
    mac = 0 ∷ 8 ∷ 220 ∷ 1 ∷ 2 ∷ 3 ∷ [];
    ip = 10 ∷ 0 ∷ 0 ∷ 9 ∷ [];
    sn = 255 ∷ 255 ∷ 0 ∷ 0 ∷ [];
    gw = 10 ∷ 0 ∷ 0 ∷ 1 ∷ [];
    dns = 8 ∷ 8 ∷ 4 ∷ 4 ∷ [];
    dhcp = 1;
  };
  port = 5000;
  timeout_us = 250000;
  store = store;
}

settings-IsSettings : IsSettings settings
settings-IsSettings = record {
  mac = refl;
  ip = refl;
  sn = refl;
  gw = refl;
  dns = refl;
  port = omega arith;
  timeout = omega arith;
}

abbrev no_numbers : Format → List ℕ → List ℕ
no_numbers kind command = []

load_configuration-save_example :
    let (t1, reply) = process_command erase program no_numbers core1_call save_text settings in
    let (v1, restart) = serve_save erase program good_call (record server { store = t1.store }) in
    let start : Settings = record settings {
      store = record { flash_config = none; save_requested = false; sector = v1.store.sector };
    } in
    (reply ≡ saved queued)
    × (t1.store.sector ≡ settings.store.sector)
    × (restart ≡ true)
    × SameSettings (load_configuration erase program good_call good_call start).0 settings
load_configuration-save_example =
    load_configuration-save erase program (λ s d. refl) no_numbers core1_call good_call good_call
      good_call other_config settings settings server settings-IsSettings refl
      (λ e. absurd (omega (arith, e))) refl refl refl refl refl

abbrev editor : Editor
editor = record { buffer = replicate 64 0; buffer_pos = 0 }

editor-IsEditor : IsEditor editor
editor-IsEditor = record { size = refl; room = omega arith }

handle_serial_input-IsEditor_example : IsEditor (handle_serial_input (some 104) editor).0
handle_serial_input-IsEditor_example =
    handle_serial_input-IsEditor (some 104) editor editor-IsEditor
