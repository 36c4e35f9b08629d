-- ===== src/Firmware/SerialTerminal/Persist.antt =====
-- The network settings survive a restart.
use flexi_ninja.Prelude.{ℕ, refl, ap, true, false, none, some, List, arith, length, word, ◌<◌}
use flexi_ninja.Prelude.{◌≡◌, ◌≢◌}
use flexi_ninja.Firmware.FlashConfig.{
  queued, is_restarted, consume_save_config_request, Configuration, config_version, seal, Store,
  Call, save_config_to_flash, load_config_from_flash,
}
use flexi_ninja.Firmware.FlashConfig.Laws.{IsConfiguration}
use flexi_ninja.Firmware.FlashConfig.Boot.{load_config_from_flash-save, save_config_to_flash-later}
use flexi_ninja.Firmware.SerialTerminal.{
  Settings, saved, Format, gather, save_configuration, save_settings, load_configuration,
  process_command, spread_settings,
}
use flexi_ninja.Firmware.Server.{Server, serve_save}
use flexi_ninja.Firmware.SerialTerminal.Words.{save_text}

-- The addresses have their lengths, and the numbers their widths.
pub record IsSettings (t : Settings) : Type 0 where
  pub mac : length t.net_info.mac ≡ 6
  pub ip : length t.net_info.ip ≡ 4
  pub sn : length t.net_info.sn ≡ 4
  pub gw : length t.net_info.gw ≡ 4
  pub dns : length t.net_info.dns ≡ 4
  pub port : t.port < 65536
  pub timeout : t.timeout_us < word

-- The settings in use, without the store.
abbrev pub SameSettings : Settings → Settings → Type 0
SameSettings a b = (a.net_info ≡ b.net_info) × (a.port ≡ b.port) × (a.timeout_us ≡ b.timeout_us)

gather-IsConfiguration :
    (t : Settings) (c : Configuration)
    → IsSettings t
    → c.cfg_version ≡ config_version
    → IsConfiguration (gather t c)
unfolding gather
gather-IsConfiguration t c v e = record {
  mac = v.mac;
  ip = v.ip;
  sn = v.sn;
  gw = v.gw;
  dns = v.dns;
  port = v.port;
  timeout = v.timeout;
  cfg_version = omega arith;
}

module _ (erase : List ℕ → List ℕ) (program : List ℕ → List ℕ → List ℕ) where
  loaded_settings :
      (first second : Call) (cold t : Settings) (c : Configuration)
      → (load_config_from_flash erase program first second cold.store).0.flash_config
        ≡ some (seal (gather t c))
      → SameSettings (load_configuration erase program first second cold).0 t
  unfolding load_configuration spread_settings gather
  loaded_settings first second cold t c h = rw h (refl, refl, refl)

  -- What `save` stores comes back. Core 1, which runs the terminal, only asks for the save and leaves
  -- the flash alone; the next round of core 0, over the store that the two share, with a flash that
  -- holds what was programmed into an erased sector and SDK calls that succeed, writes it and
  -- restarts the board; and the board then loads the settings that were in use at the command,
  -- whatever its variables held before.
  pub load_configuration-save :
      ((s d : List ℕ) → program (erase s) d ≡ d)
      → (scan : Format → List ℕ → List ℕ) (asking serving first second : Call) (c : Configuration)
        (t cold : Settings) (v : Server)
      → IsSettings t
      → c.cfg_version ≡ config_version
      → asking.core_num ≢ 0
      → serving.core_num ≡ 0
      → serving.malloc_ok ≡ true
      → serving.erase_ok ≡ true
      → serving.program_ok ≡ true
      → t.store.flash_config ≡ some c
      → let (t1, reply) = process_command erase program scan asking save_text t in
        let (v1, restart) = serve_save erase program serving (record v { store = t1.store }) in
        let start : Settings = record cold {
          store = record { flash_config = none; save_requested = false; sector = v1.store.sector };
        } in
        (reply ≡ saved queued)
        × (t1.store.sector ≡ t.store.sector)
        × (restart ≡ true)
        × SameSettings (load_configuration erase program first second start).0 t
  unfolding process_command save_settings save_configuration gather serve_save
      consume_save_config_request
  load_configuration-save flash scan asking serving first second c t cold v fits e other core mem er
        pr here =
      let s : Store = record t.store { flash_config = some (gather t c); save_requested = false } in
      let written = save_config_to_flash erase program serving s in
      let start : Settings = record cold {
        store = record { flash_config = none; save_requested = false; sector = written.0.sector };
      } in
      let round =
        load_config_from_flash-save erase program flash serving first second (gather t c) s
          (gather-IsConfiguration t c fits e) e core mem er pr refl in
      let later =
        save_config_to_flash-later erase program asking (gather t c)
          (record t.store { flash_config = some (gather t c) }) other refl in
      rw (here, later)
        (refl, refl, ap is_restarted round.0, loaded_settings first second start t c round.1)
