-- ===== src/Mousepad.antt =====
-- The mousepad plugin, src/plugins/mousepad: the keyboard and the pointer of another device.
pub mod Keysym
pub mod Keydef
pub mod Device
pub mod Plugin
pub mod Requests
pub mod Typing
pub mod Clicks
