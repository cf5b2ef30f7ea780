-- ===== src/Packet.antt =====
-- KDE Connect packets, src/libvalent/device/valent-packet.c and valent-packet.h.
-- Json: what is used of JSON-GLib, as an interface. Check: validation. Fields: the readers and
-- writers of one field. Build: new packets. Stream: reading from and writing to a stream.
pub mod Json
pub mod Check
pub mod Fields
pub mod Build
pub mod Stream
pub mod Sound
pub mod Payload
pub mod Readers
pub mod Wire
