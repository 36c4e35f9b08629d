-- ===== src/Firmware/SerialTerminal.antt =====
-- firmware/src/serial_terminal.c: the line editor of the terminal, its commands, and the way of the
-- network settings into the configuration and back. A text is its bytes without the final zero.
-- `sscanf` is outside: `scan` gives the numbers that it converts (int32 bit patterns), in order.
pub mod Words
pub mod Line
pub mod Persist
pub mod Tests
use flexi_ninja.Prelude.{ℕ, Bool, true, false, not, Option, none, some, List, [], map, ltb}
use flexi_ninja.Prelude.{length, get_or, set, take, u8, u16, u32, ◌+◌, ◌&&◌, ◌||◌, ◌∷◌, ◌==◌}
use flexi_ninja.Prelude.{if◌then◌else◌}
use mathlib.Core.Option
use flexi_ninja.Firmware.FlashConfig.{
  Configuration, Store, Call, Outcome, save_config_to_flash, restore_default_config,
  load_config_from_flash,
}
use flexi_ninja.Firmware.SerialTerminal.Words.{
  help_text, save_text, check_text, reboot_text, ip_text, port_text, defaults_text, timeout_text,
  mac_text, reset_text, scan_text, rp2040_reload_text, inputs_text, timeout_prefix, port_prefix,
  ip_prefix, gateway_prefix, mac_prefix,
}

-- `wiz_NetInfo`
pub record NetInfo : Type 0 where
  pub mac : List ℕ
  pub ip : List ℕ
  pub sn : List ℕ
  pub gw : List ℕ
  pub dns : List ℕ
  pub dhcp : ℕ

-- `net_info`, `port`, `TIMEOUT_US`, and the configuration with the flash.
pub record Settings : Type 0 where
  pub net_info : NetInfo
  pub port : ℕ
  pub timeout_us : ℕ
  pub store : Store

unfoldable pub gather : Settings → Configuration → Configuration
gather t c = record c {
  dhcp = t.net_info.dhcp;
  mac = t.net_info.mac;
  ip = t.net_info.ip;
  sn = t.net_info.sn;
  gw = t.net_info.gw;
  dns = t.net_info.dns;
  port = t.port;
  timeout = t.timeout_us;
}

-- `flash_config` is there from the start of the board on.
unfoldable pub save_configuration : Settings → Settings
save_configuration t = record t {
  store = record t.store { flash_config = Option.map (gather t) t.store.flash_config };
}

spread_settings : Option Configuration → Settings → Settings
spread_settings none t = t
spread_settings (some c) t = record t {
  net_info = record { mac = c.mac; ip = c.ip; sn = c.sn; gw = c.gw; dns = c.dns; dhcp = c.dhcp };
  port = c.port;
  timeout_us = c.timeout;
}

-- The formats of `process_command`.
pub data Format : Type 0 where
  timeout_format : Format
  port_format : Format
  ip_format : Format
  gateway_format : Format
  mac_format : Format

-- What a command answers with.
pub data Reply : Type 0 where
  shown : Reply
  changed : Reply
  invalid_format : Reply
  saved : Outcome → Reply
  reset : Reply
  bus_scanned : Reply
  reloaded : Reply
  unknown : Reply

abbrev pub text_eq : List ℕ → List ℕ → Bool
text_eq [] [] = true
text_eq [] (y ∷ ys) = false
text_eq (x ∷ xs) [] = false
text_eq (x ∷ xs) (y ∷ ys) = (x == y) && text_eq xs ys

-- `strncmp(command, prefix, n) == 0`
abbrev pub starts_with : List ℕ → List ℕ → Bool
starts_with command prefix = text_eq (take (length prefix) command) prefix

abbrev pub bytes_of : List ℕ → List ℕ
bytes_of values = map u8 values

module _ (erase : List ℕ → List ℕ) (program : List ℕ → List ℕ → List ℕ) where
  unfoldable pub load_configuration : Call → Call → Settings → Settings × Option Outcome
  unfolding spread_settings
  load_configuration first second t =
      let (store, outcome) = load_config_from_flash erase program first second t.store in
      (spread_settings store.flash_config (record t { store = store }), outcome)

  -- The commands with an argument; `n` numbers are wanted.
  set_timeout : List ℕ → Settings → Settings
  set_timeout values t = save_configuration (record t { timeout_us = u32 (get_or values 0 0) })

  set_port : List ℕ → Settings → Settings
  set_port values t = save_configuration (record t { port = u16 (get_or values 0 0) })

  set_ip : List ℕ → Settings → Settings
  set_ip values t =
      save_configuration (record t { net_info = record t.net_info { ip = bytes_of values } })

  set_gateway : List ℕ → Settings → Settings
  set_gateway values t =
      save_configuration (record t { net_info = record t.net_info { gw = bytes_of values } })

  set_mac : List ℕ → Settings → Settings
  set_mac values t =
      save_configuration (record t { net_info = record t.net_info { mac = bytes_of values } })

  change : ℕ → (List ℕ → Settings → Settings) → List ℕ → Settings → Settings × Reply
  change n write values t =
      if length values == n then (write values t, changed) else (t, invalid_format)

  save_settings : Call → Settings → Settings × Reply
  save_settings call t =
      let t1 = save_configuration t in
      let (store, outcome) = save_config_to_flash erase program call t1.store in
      (record t1 { store = store }, saved outcome)

  restore_settings : Call → Settings → Settings × Reply
  restore_settings call t =
      let (store, outcome) = restore_default_config erase program call t.store in
      (record t { store = store }, saved outcome)

  unfoldable pub process_command :
      (Format → List ℕ → List ℕ) → Call → List ℕ → Settings → Settings × Reply
  unfolding set_timeout set_port set_ip set_gateway set_mac change save_settings restore_settings
  process_command scan call command t =
      if text_eq command help_text
      then (t, shown)
      else if text_eq command save_text
      then save_settings call t
      else if text_eq command check_text
      then (t, shown)
      else if text_eq command reboot_text
      then (t, reset)
      else if text_eq command ip_text
      then (t, shown)
      else if text_eq command port_text
      then (t, shown)
      else if text_eq command defaults_text
      then restore_settings call t
      else if text_eq command timeout_text
      then (t, shown)
      else if text_eq command mac_text
      then (t, shown)
      else if starts_with command timeout_prefix
      then change 1 set_timeout (scan timeout_format command) t
      else if starts_with command port_prefix
      then change 1 set_port (scan port_format command) t
      else if starts_with command ip_prefix
      then change 4 set_ip (scan ip_format command) t
      else if starts_with command gateway_prefix
      then change 4 set_gateway (scan gateway_format command) t
      else if starts_with command mac_prefix
      then change 6 set_mac (scan mac_format command) t
      else if text_eq command reset_text
      then (t, reset)
      else if text_eq command scan_text
      then (t, bus_scanned)
      else if text_eq command rp2040_reload_text
      then (t, reloaded)
      else if text_eq command inputs_text
      then (t, shown)
      else (t, unknown)

-- `buffer` and `buffer_pos`
pub record Editor : Type 0 where
  pub buffer : List ℕ
  pub buffer_pos : ℕ

abbrev pub buffer_size : ℕ
buffer_size = 64

abbrev pub carriage_return : ℕ
carriage_return = 13

-- One call of `handle_serial_input`; `none` is PICO_ERROR_TIMEOUT. The result is the line that goes
-- to `process_command`, when there is one. That call clears the first byte of the buffer.
unfoldable pub handle_serial_input : Option ℕ → Editor → Editor × Option (List ℕ)
handle_serial_input none e = (e, none)
handle_serial_input (some in_byte) e =
    let ended = set e.buffer e.buffer_pos 0 in
    if not (in_byte == carriage_return) && (ltb in_byte 31 || ltb 126 in_byte)
    then (e, none)
    else if not (in_byte == carriage_return) && ltb e.buffer_pos 63
    then (
      record e { buffer = set e.buffer e.buffer_pos in_byte; buffer_pos = e.buffer_pos + 1 },
      none,
    )
    else (record e { buffer = set ended 0 0; buffer_pos = 0 }, some (take e.buffer_pos ended))
