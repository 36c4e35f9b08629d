-- ===== src/Firmware/FlashConfig/Boot.antt =====
-- Saving, the restart after it, and loading at the next start.
use flexi_ninja.Prelude.{ℕ, refl, sym, ap, inl, inr, true, false, none, some, List, arith}
use flexi_ninja.Prelude.{Bool-cases, replicate, ◌-◌, ◌≡◌, ◌≢◌, ◌⊎◌, ◌++◌, ◌==◌}
use flexi_ninja.Firmware.FlashConfig.{
  Configuration, default_config, config_version, config_bytes, config_of_bytes, seal,
  calculate_checksum_flash, Store, Call, queued, restarted, save_config_to_flash, program_failed,
  load_config_from_flash, restore_default_config, consume_save_config_request, write_sector,
  rejected, save_from, sum_bytes, is_restarted, request_save_config_to_flash, flash_sector_size,
  configuration_size,
}
use mathlib.Core.Path.{subst}
use flexi_ninja.Firmware.FlashConfig.Laws.{
  IsConfiguration, Accepted, seal-Accepted, seal-twice, config_of_bytes-config_bytes,
  seal-IsConfiguration,
}

default-IsConfiguration : IsConfiguration default_config
default-IsConfiguration = record {
  mac = refl;
  ip = refl;
  sn = refl;
  gw = refl;
  dns = refl;
  port = omega arith;
  timeout = omega arith;
  cfg_version = omega arith;
}

accepted : (c : Configuration) → Accepted c → rejected c ≡ false
unfolding rejected
accepted c ok =
    let sum : (calculate_checksum_flash c == c.checksum) ≡ true = ground (arith, ok.checksum) in
    let version : (c.cfg_version == config_version) ≡ true = ground (arith, ok.cfg_version) in
    rw (sum, version) refl

bad_rejected :
    (c : Configuration)
    → (calculate_checksum_flash c ≢ c.checksum) ⊎ (c.cfg_version ≢ config_version)
    → rejected c ≡ true
unfolding rejected
bad_rejected c (inl ne) =
    let sum : (calculate_checksum_flash c == c.checksum) ≡ false = ground (arith, ne) in rw sum refl
bad_rejected c (inr ne) =
    let version : (c.cfg_version == config_version) ≡ false = ground (arith, ne) in
    elim (Bool-cases (calculate_checksum_flash c == c.checksum)) [
      | inl e ↦ rw (e, version) refl
      | inr e ↦ rw e refl
    ]

module _ (erase : List ℕ → List ℕ) (program : List ℕ → List ℕ → List ℕ) where
  load_good :
      (first second : Call) (s : Store)
      → Accepted (config_of_bytes s.sector)
      → load_config_from_flash erase program first second s
        ≡ (record s { flash_config = some (config_of_bytes s.sector) }, none)
  unfolding load_config_from_flash
  load_good first second s ok = rw (accepted (config_of_bytes s.sector) ok) refl

  padding : List ℕ
  padding = replicate (flash_sector_size - configuration_size) 255

  save_ok :
      ((s d : List ℕ) → program (erase s) d ≡ d)
      → (call : Call) (c : Configuration) (s : Store) → call.core_num ≡ 0
      → call.malloc_ok ≡ true
      → call.erase_ok ≡ true
      → call.program_ok ≡ true
      → s.flash_config ≡ some c
      → save_config_to_flash erase program call s ≡ (
        record s { flash_config = some (seal c); sector = config_bytes (seal c) ++ padding },
        restarted,
      )
  unfolding save_config_to_flash save_from write_sector padding
  save_ok flash call c s core mem er pr here =
      rw
        (
          here,
          core,
          mem,
          er,
          pr,
          flash s.sector
              (config_bytes (seal c) ++ replicate (flash_sector_size - configuration_size) 255),
        )
        refl

  -- A saved configuration is the one that the next start loads: core 0 saves, the SDK's calls
  -- succeed, and the flash holds what was programmed into an erased sector. The board restarts, and
  -- the load reads the saved configuration with its checksum and saves nothing.
  pub load_config_from_flash-save :
      ((s d : List ℕ) → program (erase s) d ≡ d)
      → (call first second : Call) (c : Configuration) (s : Store) → IsConfiguration c
      → c.cfg_version ≡ config_version
      → call.core_num ≡ 0
      → call.malloc_ok ≡ true
      → call.erase_ok ≡ true
      → call.program_ok ≡ true
      → s.flash_config ≡ some c
      → let (saved, outcome) = save_config_to_flash erase program call s in
        let start : Store = record saved { flash_config = none; save_requested = false } in
        let (loaded, again) = load_config_from_flash erase program first second start in
        (outcome ≡ restarted) × (loaded.flash_config ≡ some (seal c)) × (again ≡ none)
  load_config_from_flash-save flash call first second c s v e core mem er pr here =
      let sector = config_bytes (seal c) ++ padding in
      let read : config_of_bytes sector ≡ seal c =
        config_of_bytes-config_bytes (seal c) padding (seal-IsConfiguration c v) in
      let ok : Accepted (config_of_bytes sector) =
        subst Accepted (sym read) (seal-Accepted c v e) in
      let start : Store = record { flash_config = none; save_requested = false; sector = sector } in
      rw (save_ok flash call c s core mem er pr here, load_good first second start ok)
        (refl, ap some read, refl)

  keeps_default :
      (call : Call) (s : Store)
      → s.flash_config ≡ some (seal default_config)
      → (save_config_to_flash erase program call s).0.flash_config ≡ some (seal default_config)
  unfolding save_config_to_flash save_from write_sector request_save_config_to_flash
  keeps_default call s h =
      let again = ap some (seal-twice default_config default-IsConfiguration) in
      rw h (elim (Bool-cases (call.core_num == 0)) [
        | inr other ↦ rw other refl
        | inl core ↦ elim (Bool-cases call.malloc_ok) [
          | inr e ↦ rw (core, e) refl
          | inl mem ↦ elim (Bool-cases call.erase_ok) [
            | inr e ↦ rw (core, mem, e) again
            | inl er ↦ elim (Bool-cases call.program_ok) [
              | inr e ↦ rw (core, mem, er, e) again
              | inl pr ↦ rw (core, mem, er, pr) again
            ]
          ]
        ]
      ])

  default_of_rejected :
      (first second : Call) (s : Store)
      → rejected (config_of_bytes s.sector) ≡ true
      → (load_config_from_flash erase program first second s).0.flash_config
        ≡ some (seal default_config)
  unfolding load_config_from_flash restore_default_config
  default_of_rejected first second s bad =
      let s1 : Store = record s { flash_config = some (seal default_config) } in
      let once = keeps_default first s1 refl in
      let restored = save_config_to_flash erase program first s1 in
      rw bad (elim (Bool-cases (is_restarted restored.1)) [
        | inl yes_restarted ↦ rw yes_restarted once
        | inr not_restarted ↦ rw not_restarted (keeps_default second restored.0 once)
      ])

  -- A sector whose bytes do not have the checksum that it gives, or that is of another version, never
  -- gets through: whatever the saves that follow it meet, the configuration in use is the default
  -- one, with its checksum.
  pub load_config_from_flash-default :
      (first second : Call) (s : Store)
      → (calculate_checksum_flash (config_of_bytes s.sector) ≢ (config_of_bytes s.sector).checksum)
        ⊎ ((config_of_bytes s.sector).cfg_version ≢ config_version)
      → (load_config_from_flash erase program first second s).0.flash_config
        ≡ some (seal default_config)
  load_config_from_flash-default first second s bad =
      default_of_rejected first second s (bad_rejected (config_of_bytes s.sector) bad)

  erased_rejected : rejected (config_of_bytes (replicate flash_sector_size 255)) ≡ true
  unfolding rejected config_of_bytes calculate_checksum_flash sum_bytes config_bytes
  erased_rejected = refl

  save_failed :
      ((s : List ℕ) → erase s ≡ replicate flash_sector_size 255)
      → (call : Call) (c : Configuration) (s : Store) → call.core_num ≡ 0
      → call.malloc_ok ≡ true
      → call.erase_ok ≡ true
      → call.program_ok ≡ false
      → s.flash_config ≡ some c
      → save_config_to_flash erase program call s ≡ (
        record s { flash_config = some (seal c); sector = replicate flash_sector_size 255 },
        program_failed,
      )
  unfolding save_config_to_flash save_from write_sector
  save_failed flash call c s core mem er pr here = rw (here, core, mem, er, pr, flash s.sector) refl

  -- A save that fails between erasing and programming costs the configuration, but not the board:
  -- an erased sector is all 0xFF, and the next start rejects it and takes the default configuration.
  pub load_config_from_flash-program_failed :
      ((s : List ℕ) → erase s ≡ replicate flash_sector_size 255)
      → (call first second : Call) (c : Configuration) (s : Store) → call.core_num ≡ 0
      → call.malloc_ok ≡ true
      → call.erase_ok ≡ true
      → call.program_ok ≡ false
      → s.flash_config ≡ some c
      → let (failed, outcome) = save_config_to_flash erase program call s in
        let start : Store = record failed { flash_config = none; save_requested = false } in
        (outcome ≡ program_failed)
        × ((load_config_from_flash erase program first second start).0.flash_config
            ≡ some (seal default_config))
  load_config_from_flash-program_failed flash call first second c s core mem er pr here =
      let start : Store = record {
        flash_config = none;
        save_requested = false;
        sector = replicate flash_sector_size 255;
      } in
      rw (save_failed flash call c s core mem er pr here)
        (refl, default_of_rejected first second start erased_rejected)

  pub save_config_to_flash-later :
      (call : Call) (c : Configuration) (s : Store)
      → call.core_num ≢ 0
      → s.flash_config ≡ some c
      → save_config_to_flash erase program call s ≡ (record s { save_requested = true }, queued)
  unfolding save_config_to_flash save_from request_save_config_to_flash
  save_config_to_flash-later call c s other here =
      let test : (call.core_num == 0) ≡ false = ground arith in rw (here, test) refl

  -- Core 1 may not touch the flash: its save leaves the sector alone and is served by the next round
  -- of core 0, which finds the request, once.
  pub save_config_to_flash-queued :
      (call : Call) (c : Configuration) (s : Store)
      → call.core_num ≢ 0
      → s.flash_config ≡ some c
      → let (s1, outcome) = save_config_to_flash erase program call s in
        let (found, s2) = consume_save_config_request s1 in
        (outcome ≡ queued)
        × (s1.sector ≡ s.sector)
        × (found ≡ true)
        × ((consume_save_config_request s2).0 ≡ false)
        × (s2.flash_config ≡ some c)
  unfolding save_config_to_flash save_from consume_save_config_request request_save_config_to_flash
  save_config_to_flash-queued call c s other here =
      let test : (call.core_num == 0) ≡ false = ground arith in
      rw (here, test) (refl, refl, refl, refl, refl)
