-- ===== src/Driver/Platform.antt =====
-- hal-driver/flexi-ninja.c, the hardware of the Raspberry Pi: which one it is
-- (`rt_peripheral_init`), the set-up of pins and bus (`init_spi`), an exchange (`_send`) and the
-- end (`rtapi_app_exit`). The access libraries are outside: what is called of them, in which order,
-- is the result.
pub mod Calls
pub mod Frame
use flexi_ninja.Prelude.{ℕ, Bool, true, false, not, Option, none, some, List, [], ltb, take}
use flexi_ninja.Prelude.{replicate, u32, ◌+◌, ◌*◌, ◌&&◌, ◌∷◌, ◌++◌, ◌==◌, if◌then◌else◌}
use flexi_ninja.Transmission.Packet.{PcPico, PicoPc, pc_pico_bytes, pico_pc_of_bytes, pico_pc_size}
use flexi_ninja.Firmware.Transport.{overwrite}

-- The two libraries: bcm2835.c, and rp1lib.c with its companions.
pub data Library : Type 0 where
  bcm2835 : Library
  rp1lib : Library

-- What is called of a library; `six` says that the bus is the second one. The delays are those of
-- bcm2835.c, on every platform.
pub data Call : Type 0 where
  init : Library → Call
  pin_output : Library → ℕ → Call
  pin_clear : Library → ℕ → Call
  pin_set : Library → ℕ → Call
  delay_ms : ℕ → Call
  usleep : ℕ → Call
  spi_begin : Library → Bool → Call
  spi_bit_order : Bool → Call
  spi_data_mode : Bool → Call
  spi_clock : Bool → Call
  spi_chip_select : Bool → ℕ → Call
  spi_polarity : Bool → ℕ → Call
  transfer : Library → Bool → ℕ → Call
  spi_end : Bool → Call
  close : Library → Call

-- `bcm` and `rp1`
pub record Platform : Type 0 where
  pub bcm : Bool
  pub rp1 : Bool

unfoldable pub initial : Platform
initial = record { bcm = true; rp1 = false }

abbrev pub rpi4_peri_base : ℕ
rpi4_peri_base = 0xfe000000

abbrev pub rp1_peri_base : ℕ
rp1_peri_base = 0x7c000000

-- Four bytes of the buffer from `i` on, the highest first.
unfoldable pub be32 : (ℕ → ℕ) → ℕ → ℕ
be32 buf i = u32 (buf i * 16777216 + buf (i + 1) * 65536 + buf (i + 2) * 256 + buf (i + 3))

-- `base_address` and `peri_size`, of a file of which so many bytes are read.
unfoldable pub addresses : ℕ → (ℕ → ℕ) → ℕ × ℕ
addresses count buf =
    if ltb count 8
    then (0, 0)
    else if be32 buf 4 == 0
    then (be32 buf 8, be32 buf 12)
    else (be32 buf 4, be32 buf 8)

-- `rt_peripheral_init`; `none` is a file that cannot be opened. What it returns for an unknown
-- platform is not looked at.
unfoldable pub rt_peripheral_init : Option (ℕ × (ℕ → ℕ)) → Platform → Platform
rt_peripheral_init none p = p
rt_peripheral_init (some (count, buf)) p =
    let (base_address, peri_size) = addresses count buf in
    if base_address == rpi4_peri_base
    then record { bcm = true; rp1 = false }
    else if peri_size == rp1_peri_base
    then record { bcm = false; rp1 = true }
    else p

-- `if (rp1) … else …`, as everywhere in the file
abbrev pub library : Platform → Library
library p = if p.rp1 then rp1lib else bcm2835

abbrev pub reset_pin : ℕ
reset_pin = 17

-- `raspi_int_out`
abbrev pub int_pin : ℕ
int_pin = 22

unfoldable pub begin_bus : Library → Bool → List Call
begin_bus rp1lib six = spi_begin rp1lib six ∷ []
begin_bus bcm2835 true =
    spi_begin bcm2835 true
    ∷ spi_clock true
    ∷ spi_data_mode true
    ∷ spi_chip_select true 1
    ∷ spi_polarity true 1
    ∷ []
begin_bus bcm2835 false =
    spi_begin bcm2835 false
    ∷ spi_bit_order false
    ∷ spi_data_mode false
    ∷ spi_clock false
    ∷ spi_chip_select false 0
    ∷ spi_polarity false 0
    ∷ []

-- After both libraries: a reset of the board, time for it to start, the bus, and the interrupt line.
unfoldable pub set_up : Library → Bool → List Call
set_up l six =
    (pin_output l reset_pin
      ∷ pin_clear l reset_pin
      ∷ delay_ms 100
      ∷ pin_set l reset_pin
      ∷ delay_ms 3000
      ∷ [])
    ++ (begin_bus l six ++ (pin_output l int_pin ∷ pin_set l int_pin ∷ []))

-- The initialisers: that of bcm2835.c always, that of rp1lib.c on its platform.
abbrev pub init_calls : Library → List Call
init_calls bcm2835 = init bcm2835 ∷ []
init_calls rp1lib = init bcm2835 ∷ init rp1lib ∷ []

-- `init_spi`, with what the initialisers of the libraries return.
unfoldable pub init_spi : Bool → Bool → Option (ℕ × (ℕ → ℕ)) → ℕ → Platform → Platform × List Call
init_spi bcm2835_init_rt rt_rp1lib_init file spi_bus p =
    let q = rt_peripheral_init file p in
    if not bcm2835_init_rt
    then (p, init bcm2835 ∷ [])
    else if q.rp1 && not rt_rp1lib_init
    then (q, init bcm2835 ∷ init rp1lib ∷ [])
    else (q, init_calls (library q) ++ set_up (library q) (spi_bus == 6))

-- `SPI_TRANSFER_SIZE`, the longer of the two structs.
abbrev pub spi_transfer_size : ℕ
spi_transfer_size = 74

-- `spi_tx_buffer`: zeros, and the packet over their beginning.
unfoldable pub tx_frame : PcPico → List ℕ
tx_frame p = overwrite (pc_pico_bytes p) (replicate spi_transfer_size 0)

-- `rx_buffer` after the transfer.
unfoldable pub rx_packet : List ℕ → PicoPc
rx_packet bytes = pico_pc_of_bytes (take pico_pc_size bytes)

-- What `_send` calls: the exchange stands between the two edges of the interrupt line.
unfoldable pub send_calls : Platform → ℕ → List Call
send_calls p spi_bus =
    pin_clear (library p) int_pin
    ∷ usleep 50
    ∷ transfer (library p) (spi_bus == 6) spi_transfer_size
    ∷ pin_set (library p) int_pin
    ∷ []

-- The library calls of `rtapi_app_exit`.
unfoldable pub exit_calls : Platform → ℕ → List Call
exit_calls p spi_bus =
    if p.rp1 then close rp1lib ∷ [] else spi_end (spi_bus == 6) ∷ close bcm2835 ∷ []
