-- ===== src/Firmware/FlashConfig.antt =====
-- firmware/src/flash_config.c: the configuration in RAM, its copy in the last flash sector, and the
-- request that core 1 leaves for core 0. The flash is outside: `erase` and `program` stand for what
-- `flash_range_erase` and `flash_range_program` do to the sector, and a call's record says what the
-- SDK answers. The 32 bytes of the first `malloc` are taken to be there.
pub mod Laws
pub mod Boot
use flexi_ninja.Prelude.{ℕ, Bool, true, false, not, Option, none, some, List, [], take, drop}
use flexi_ninja.Prelude.{replicate, u8, ◌+◌, ◌-◌, ◌||◌, ◌∷◌, ◌++◌, ◌==◌, if◌then◌else◌}
use flexi_ninja.Transmission.Packet.{le16, le32, byte_at, word16_at, word_at}

-- `configuration_t`, packed
pub record Configuration : Type 0 where
  pub mac : List ℕ
  pub ip : List ℕ
  pub sn : List ℕ
  pub gw : List ℕ
  pub dns : List ℕ
  pub dhcp : ℕ
  pub port : ℕ
  pub timeout : ℕ
  pub cfg_version : ℕ
  pub checksum : ℕ

abbrev pub config_version : ℕ
config_version = 1

abbrev pub configuration_size : ℕ
configuration_size = 32

abbrev pub flash_sector_size : ℕ
flash_sector_size = 4096

abbrev pub default_config : Configuration
default_config = record {
  mac = 0 ∷ 8 ∷ 220 ∷ 18 ∷ 52 ∷ 86 ∷ [];
  ip = 192 ∷ 168 ∷ 5 ∷ 1 ∷ [];
  sn = 255 ∷ 255 ∷ 255 ∷ 0 ∷ [];
  gw = 192 ∷ 168 ∷ 5 ∷ 254 ∷ [];
  dns = 8 ∷ 8 ∷ 8 ∷ 8 ∷ [];
  dhcp = 1;
  port = 8888;
  timeout = 1000000;
  cfg_version = config_version;
  checksum = 0;
}

abbrev pub numbers : Configuration → List ℕ
numbers c = c.dhcp ∷ (le16 c.port ++ (le32 c.timeout ++ le16 c.cfg_version))

-- The bytes of the struct.
unfoldable pub config_bytes : Configuration → List ℕ
config_bytes c = c.mac ++ (c.ip ++ (c.sn ++ (c.gw ++ (c.dns ++ (numbers c ++ (c.checksum ∷ []))))))

-- What the fields read after `memcpy` from the flash.
unfoldable pub config_of_bytes : List ℕ → Configuration
config_of_bytes bytes =
    let b1 = drop 6 bytes in
    let b2 = drop 4 b1 in
    let b3 = drop 4 b2 in
    let b4 = drop 4 b3 in
    let b5 = drop 4 b4 in
    record {
      mac = take 6 bytes;
      ip = take 4 b1;
      sn = take 4 b2;
      gw = take 4 b3;
      dns = take 4 b4;
      dhcp = byte_at b5 0;
      port = word16_at b5 1;
      timeout = word_at b5 3;
      cfg_version = word16_at b5 7;
      checksum = byte_at b5 9;
    }

unfoldable pub sum_bytes : ℕ → List ℕ → ℕ
sum_bytes checksum [] = checksum
sum_bytes checksum (b ∷ bytes) = sum_bytes (u8 (checksum + b)) bytes

-- `calculate_checksum_flash`
unfoldable pub calculate_checksum_flash : Configuration → ℕ
calculate_checksum_flash c = sum_bytes 0 (take (configuration_size - 1) (config_bytes c))

abbrev pub seal : Configuration → Configuration
seal c = record c { checksum = calculate_checksum_flash c }

-- The test of `load_config_from_flash`.
unfoldable pub rejected : Configuration → Bool
rejected c = not (calculate_checksum_flash c == c.checksum) || not (c.cfg_version == config_version)

-- `flash_config`, `save_requested` and the sector at FLASH_TARGET_OFFSET
pub record Store : Type 0 where
  pub flash_config : Option Configuration
  pub save_requested : Bool
  pub sector : List ℕ

-- What a call of `save_config_to_flash` meets: `get_core_num()`, and whether `malloc` and the two
-- calls of `flash_safe_execute` succeed.
pub record Call : Type 0 where
  pub core_num : ℕ
  pub malloc_ok : Bool
  pub erase_ok : Bool
  pub program_ok : Bool

-- The returns of `save_config_to_flash`, in their order; the last does not return, since
-- `reset_with_watchdog` restarts the board.
pub data Outcome : Type 0 where
  nothing_to_save : Outcome
  queued : Outcome
  no_memory : Outcome
  erase_failed : Outcome
  program_failed : Outcome
  restarted : Outcome

abbrev pub is_restarted : Outcome → Bool
is_restarted nothing_to_save = false
is_restarted queued = false
is_restarted no_memory = false
is_restarted erase_failed = false
is_restarted program_failed = false
is_restarted restarted = true

unfoldable pub request_save_config_to_flash : Store → Store
request_save_config_to_flash s = record s { save_requested = true }

unfoldable pub consume_save_config_request : Store → Bool × Store
consume_save_config_request s =
    if not s.save_requested then (false, s) else (true, record s { save_requested = false })

module _ (erase : List ℕ → List ℕ) (program : List ℕ → List ℕ → List ℕ) where
  -- The part from `malloc` on.
  unfoldable pub write_sector : Call → Configuration → Store → Store × Outcome
  write_sector call config s =
      let sealed = seal config in
      let data_bytes =
        config_bytes sealed ++ replicate (flash_sector_size - configuration_size) 255 in
      let s1 : Store = record s { flash_config = some sealed } in
      let erased = erase s.sector in
      if not call.malloc_ok
      then (s, no_memory)
      else if not call.erase_ok
      then (s1, erase_failed)
      else if not call.program_ok
      then (record s1 { sector = erased }, program_failed)
      else (record s1 { sector = program erased data_bytes }, restarted)

  save_from : Call → Option Configuration → Store → Store × Outcome
  save_from call none s = (s, nothing_to_save)
  save_from call (some config) s =
      if not (call.core_num == 0)
      then (request_save_config_to_flash s, queued)
      else write_sector call config s

  unfoldable pub save_config_to_flash : Call → Store → Store × Outcome
  unfolding save_from
  save_config_to_flash call s = save_from call s.flash_config s

  unfoldable pub restore_default_config : Call → Store → Store × Outcome
  restore_default_config call s =
      save_config_to_flash call (record s { flash_config = some (seal default_config) })

  -- The calls are those of `restore_default_config` and of the `save_config_to_flash` after it; no
  -- outcome when the sector was good.
  unfoldable pub load_config_from_flash : Call → Call → Store → Store × Option Outcome
  load_config_from_flash first second s =
      let config = config_of_bytes s.sector in
      let s1 : Store = record s { flash_config = some config } in
      let (s2, restored) = restore_default_config first s1 in
      let (s3, saved) = save_config_to_flash second s2 in
      if rejected config
      then (if is_restarted restored then (s2, some restored) else (s3, some saved))
      else (s1, none)
