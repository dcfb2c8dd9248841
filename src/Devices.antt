-- ===== src/Devices.antt =====
-- Devices: kernel/src/devices.
pub mod Keyboard
pub mod Timer
pub mod Tty
pub mod Ansi
pub mod Console
mod Tests
