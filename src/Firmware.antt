-- ===== src/Firmware.antt =====
-- firmware/src: the program of the board.
pub mod IrqEncoder
pub mod PioUtils
pub mod Stepgen
pub mod StepRing
pub mod Pwm
pub mod FlexGpio
pub mod HandleData
pub mod FlashConfig
pub mod SerialTerminal
pub mod StepProgram
pub mod CoreState
pub mod GpioCallback
pub mod PulseLoad
pub mod Core1
pub mod Transport
pub mod Server
pub mod Boot
pub mod RamLoader
pub mod Samples
pub mod Tests
