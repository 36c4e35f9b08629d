-- ===== src/Lib.antt =====
-- Flexi-Ninja: a motion controller of two programs that exchange one packet each in every servo
-- period. On the PC a LinuxCNC driver (hal-driver/flexi-ninja.c) turns commanded positions into step
-- words and sends them over SPI; on the board the firmware (firmware/src) checks the packet, hands
-- the words to the PIO programs that make the pulses, and answers with counts and inputs.
--
-- The parts and their files:
--   Prelude        what the other modules share: tests and bits on the native numbers, arrays as
--                  lists, words of C as remainders, integers (Prelude/Int).
--   Transmission   firmware/src/transmission.c and firmware/lib/modules/inc/transmission.h: Table is
--                  the substitution table, Checksum is `calculate_checksum`, Packet the two structs
--                  with their bytes, Layout the round trips.
--   PioSettings    firmware/lib/modules/inc/pio_settings.h, the pulse widths that the PIO can make.
--   Firmware       firmware/src, built for BOARD_FLEXI_2350. IrqEncoder is irq_encoder.c, PioUtils
--                  is pio_utils.c, Pwm is pwm.c, FlexGpio is flexgpio.c. From main.c come Stepgen
--                  (`apply_stepgen_commands`), StepRing (the ring of `use_timer_interrupt == 1`) and
--                  HandleData (`handle_data`, which calls the others). FlashConfig is flash_config.c,
--                  SerialTerminal serial_terminal.c and RamLoader rp2040_ram_loader.c.
--                  StepProgram is the PIO program freq_generator. CoreState, GpioCallback, PulseLoad
--                  and Core1 are core 1 (`core1_entry`, `gpio_callback`), Transport and Server core 0
--                  (`handle_udp` with SPI and UDP). Boot is the start of the board (`main`).
--   Driver         hal-driver/flexi-ninja.c. Timing is `nearest` and the table of step words, Axis
--                  the loop over the stepgens, Io the digital pins, Watchdog `watchdog_process`, Send
--                  the whole of `udp_io_process_send` and Recv that of `udp_io_process_recv`. Arith
--                  is the floating-point arithmetic. Platform is the hardware of the Raspberry Pi
--                  (`rt_peripheral_init`, `init_spi`, `_send`), Setup the set-up (`module_init`,
--                  `bb_hal_setup_pins`, `rtapi_app_main`) with the macros of hal_pin_macros.h and,
--                  in Setup.Start, what it writes. Eth is hal-driver/flexi-ninja-eth.c where it is
--                  not the same, EthAddress its `parse_ip_port`, EthSetup its sockets and set-up. PicoBob is
--                  hal-driver/picobob-dlx.c, the driver of the older board, where it is not Eth.
--   System         both sides together: StepTime the driver's step words on the step program, Sync and
--                  Connection the positions of driver and board over exchanges, Wire the same with
--                  the bytes on SPI, Round a whole period of both programs, Service periods and
--                  core 1 in any order, Start the first of them.
-- A function of the source has its name here, and its static variables are the fields of a record
-- that it takes and returns. A `Tests` module holds concrete inputs, a `Samples` module the state that
-- several share.
--
-- Widths and bounds: a number of w bits is a natural number with `% 2 ^ w` where the source wraps,
-- and a signed one is its bit pattern; the int64 positions of the driver are integers. Loops are
-- structural, over a list or a count of rounds left, so none runs out: `wait_put` has the 1000
-- polls of the source, and `scan` the 299 entries of the table. The upload of the expander's image
-- runs on its length as fuel, which `rp2040_load_and_run-ends` shows to be enough; the loops that
-- wait for the hardware run on a number of polls, and `serve_spi-IsServing` says how many are
-- enough. The step program runs on a number of instructions, which `run-steps_word` finds.
--
-- Parameters: the SDK, the PIO hardware and the I2C bus answer through arguments (`full`, `Reads`,
-- `Call`), the flash through `erase` and `program`, `sscanf` through `scan`. Floating point is a
-- record of operations (Driver/Arith); a theorem that needs more of it takes `IsExact`, which says
-- what IEEE 754 and the C standard say of small whole numbers.
--
-- Not modelled: of the board's start the calls of the SDK for SPI, DMA and the W5500, and all printed
-- texts; the HAL, the sockets and the access libraries of the Raspberry Pi answer through arguments.
-- The WIZnet, display and Raspberry Pi libraries and the PIO programs of the encoders are third-party
-- code, and the firmware of the expander is a submodule.
pub mod Prelude
pub mod Transmission
pub mod PioSettings
pub mod Firmware
pub mod Driver
pub mod System
