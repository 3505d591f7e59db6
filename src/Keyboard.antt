-- ===== src/Keyboard.antt =====
-- src/drivers/usb/hid_keyboard.rs, src/drivers/keyboard.rs and the time outs of src/time.rs: the
-- keyboards.
pub mod Timer
pub mod Layout
pub mod Hid
pub mod Queueing
pub mod Reporting
pub mod Repeating
pub mod Typing
pub mod Reached
pub mod Pairs
pub mod Polling
pub mod Ps2
pub mod Scanning
pub mod Keys
mod Tests
