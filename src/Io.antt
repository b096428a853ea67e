-- ===== src/Io.antt =====
-- The IO side, iosCtl/: the sysfs files behind the GPIO pins and the PWM channels, the digital
-- outputs, the lights and the LEDs, and the handlers that the main loop calls.
pub mod Sysfs
pub mod Gpio
pub mod Pwm
pub mod Dout
pub mod Light
pub mod Report
pub mod Activate
pub mod Status
pub mod Led
pub mod Files
mod Tests
