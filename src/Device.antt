-- ===== src/Device.antt =====
-- A remote device, src/libvalent/device/valent-device.c. State: the device and what an operation
-- does to the world outside. Name: names and identifiers. Plugins: the plugins and their packet
-- handlers. Pairing: the pairing state machine. Channels: connections, the identity and packets.
-- Transfer: the channel of a transfer.
pub mod Name
pub mod State
pub mod Plugins
pub mod Pairing
pub mod Channels
pub mod Events
pub mod Trust
pub mod Transfer
pub mod Key
pub mod Handshake
