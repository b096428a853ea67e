-- ===== src/IoProcess.antt =====
-- mainCtl/mainCtl.c: the thread of the IO process, `ios_process`.
pub mod Answer
pub mod Clock
pub mod Station
pub mod Mode
pub mod Handle
pub mod Loop
pub mod Bounds
pub mod Ranges
pub mod World
pub mod Drain
pub mod Repeat
pub mod Effects
pub mod Lights
mod Tests
