-- ===== src/Firmware/RamLoader.antt =====
-- firmware/src/rp2040_ram_loader.c: the upload of the expander's program to its boot loader over I2C.
-- The bus is outside: an answer says what a transaction's calls return, and a message is the bytes
-- that are written.
pub mod Image
pub mod Tests
use flexi_ninja.Prelude.{ℕ, zero, suc, Bool, true, false, Option, none, some, List, [], ltb}
use flexi_ninja.Prelude.{length, take, drop, u32, ◌+◌, ◌&&◌, ◌||◌, ◌∷◌, ◌++◌, ◌==◌, if◌then◌else◌}
use flexi_ninja.Transmission.Packet.{le16, le32}

-- `CHUNK_SIZE`
abbrev pub chunk_size : ℕ
chunk_size = 4096

-- `PICOBOOT3_LOAD_RAM`
abbrev pub load_ram : ℕ
load_ram = 0x45

abbrev pub exec_ram : ℕ
exec_ram = 0x46

abbrev pub activate_retries : ℕ
activate_retries = 5

abbrev pub ram_base : ℕ
ram_base = 0x20002000

-- The write was whole, the read was whole, and the byte read.
pub record ChunkAnswer : Type 0 where
  pub written : Bool
  pub read : Bool
  pub ready : ℕ

pub record ActivateAnswer : Type 0 where
  pub written : Bool
  pub read : Bool
  pub response : List ℕ

-- The message of `rp2040_ram_load_chunk`, and whether it returns 0.
unfoldable pub chunk_message : ℕ → List ℕ → List ℕ
chunk_message addr data_bytes = (load_ram ∷ le32 addr) ++ (le16 (length data_bytes) ++ data_bytes)

unfoldable pub chunk_accepted : ChunkAnswer → Bool
chunk_accepted a = a.written && a.read && (a.ready == 1)

-- The loop of `rp2040_load_and_run` from chunk `k` on, at address `addr` with `rest` to load; each
-- round takes at least a byte, so that the length is fuel enough. The result is the messages, and
-- whether the loop came to its end.
unfoldable pub load_chunks : (ℕ → ChunkAnswer) → ℕ → ℕ → ℕ → List ℕ → List (List ℕ) × Bool
load_chunks answers zero k addr rest = ([], ltb (length rest) 1)
load_chunks answers (suc n) k addr rest =
    let chunk = take chunk_size rest in
    let (more, done) =
      load_chunks answers n (k + 1) (u32 (addr + length chunk)) (drop chunk_size rest) in
    if length rest == 0
    then ([], true)
    else if chunk_accepted (answers k)
    then (chunk_message addr chunk ∷ more, done)
    else (chunk_message addr chunk ∷ [], false)

-- The message of `rp2040_ram_execute`
unfoldable pub execute_message : ℕ → List ℕ
execute_message entry = exec_ram ∷ le32 entry

-- What a call of `rp2040_load_and_run` sends, and whether it returns 0. The probe after the start,
-- which only prints, is left out.
pub record Upload : Type 0 where
  pub chunks : List (List ℕ)
  pub execute : Option (List ℕ)
  pub ok : Bool

unfoldable pub rp2040_load_and_run : (ℕ → ChunkAnswer) → Bool → List ℕ → Upload
rp2040_load_and_run answers executed image =
    let (chunks, done) = load_chunks answers (length image) 0 ram_base image in
    record {
      chunks = chunks;
      execute = if done then some (execute_message ram_base) else none;
      ok = done && executed;
    }

abbrev pub activate_response : List ℕ
activate_response = 0x70 ∷ 0x62 ∷ 0x74 ∷ 0x33 ∷ []

-- `memcmp(a, b, 4) == 0`
abbrev pub bytes_eq : List ℕ → List ℕ → Bool
bytes_eq [] [] = true
bytes_eq [] (b ∷ bs) = false
bytes_eq (a ∷ xs) [] = false
bytes_eq (a ∷ xs) (b ∷ bs) = (a == b) && bytes_eq xs bs

-- `rp2040_activate() == 0`
unfoldable pub activated : ActivateAnswer → Bool
activated a = a.written && a.read && bytes_eq a.response activate_response

-- The tries from `i` on, `n` of them.
unfoldable pub try_activate : ℕ → ℕ → (ℕ → ActivateAnswer) → Bool
try_activate zero i answers = false
try_activate (suc n) i answers = activated (answers i) || try_activate n (i + 1) answers

-- `rp2040_enter_bootloader`; `first` answers the try before the magic bytes.
unfoldable pub rp2040_enter_bootloader : Bool → ActivateAnswer → (ℕ → ActivateAnswer) → Bool
rp2040_enter_bootloader try_activate_first first answers =
    (try_activate_first && activated first) || try_activate activate_retries 0 answers

-- `rp2040_boot_flexgpio` and `rp2040_reload_flexgpio`, which differ in the first argument; no upload
-- when the boot loader is not entered.
unfoldable pub rp2040_start_flexgpio :
    Bool → ActivateAnswer → (ℕ → ActivateAnswer) → (ℕ → ChunkAnswer) → Bool → List ℕ → Option Upload
rp2040_start_flexgpio try_activate_first first answers chunks executed image =
    if rp2040_enter_bootloader try_activate_first first answers
    then some (rp2040_load_and_run chunks executed image)
    else none
