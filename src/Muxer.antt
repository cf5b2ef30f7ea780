-- ===== src/Muxer.antt =====
-- The Bluetooth multiplexer, src/plugins/bluez/valent-bluez-muxer.c. Header: the 19-byte message
-- header, with Wire about it. Channel: the state of one multiplexed channel and its operations.
-- Ring, Buffer: the input buffer as a queue, Credit: the offers of its free space. Link: the two
-- ends of a channel and the messages between them. Table: the channels. Send, Receive: the
-- messages and the receive loop. Local: what a client calls.
pub mod Header
pub mod Channel
pub mod Ring
pub mod Buffer
pub mod Credit
pub mod Link
pub mod Wire
pub mod Table
pub mod Send
pub mod Receive
pub mod Local
