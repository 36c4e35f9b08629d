-- ===== src/Driver.antt =====
-- hal-driver/flexi-ninja.c: the LinuxCNC driver on the PC that talks to the board over SPI.
pub mod Arith
pub mod Timing
pub mod Axis
pub mod Io
pub mod Watchdog
pub mod Send
pub mod Recv
pub mod Platform
pub mod Setup
pub mod Eth
pub mod EthAddress
pub mod EthSetup
pub mod PicoBob
pub mod Samples
pub mod Tests
