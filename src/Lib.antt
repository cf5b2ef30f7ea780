-- ===== src/Lib.antt =====
-- Verification library of Valent, a KDE Connect implementation in C.
--
-- A device talks to its peer in packets, JSON objects of one line. A packet arrives on a channel,
-- a connection over LAN or Bluetooth; the device handles pairing by itself and hands everything
-- else to the plugins, once it is paired. Channels over Bluetooth share one socket through a
-- multiplexer.
--
-- Packet: src/libvalent/device/valent-packet.c and valent-packet.h. A field reader keeps the name
-- of the C function without `valent_packet_`, with `_field` for the readers of body fields;
-- `validate`, `from_stream`, `to_stream`, `serialize` and `deserialize` are the functions of these
-- names. JSON-GLib is a parameter, the record Packet.Json.JsonGlib, with its documented behaviour
-- in JsonLaws. An input stream is the list of what its one-byte reads give; a write outside the
-- line buffer is the error `buffer_overrun`.
--
-- Device: src/libvalent/device/valent-device.c. State holds `struct _ValentDevice` and what an
-- operation finds outside (Env) and calls outside (Effect, a log). Pairing, Channels, Plugins and
-- Name are the functions of these parts, a C function `valent_device_f` under the name `f`. Events
-- is a history of callbacks on the main context, one at a time. Pairing.Spec is the pairing
-- protocol as a machine of four states. Character classes of GLib, SHA-256 and number printing are
-- parameters. The certificate of a device is one optional file.
--
-- Muxer: src/plugins/bluez/valent-bluez-muxer.c. Channel is `ChannelState` and what the threads do
-- with one while they hold its mutex; a size is a number with its uint16_t or size_t wrap-around
-- written out. Ring and Buffer are about its ring buffer, Credit about the offers of free space,
-- Wire about the header. Link takes both ends of a channel with the messages between them; a wait
-- for the condition is a state. Table is the hash table of channels, Send and Receive are the
-- functions send_* and recv_* with the receive loop, and Local the handshake and the functions
-- valent_bluez_muxer_channel_*. An uninitialised variable is a parameter.
--
-- Service: src/libvalent/device/valent-channel-service.c. A `Connection` is what a service looks
-- at of a channel, and Service its table with what it emits and destroys; verify_channel, channel
-- and on_channel_destroyed are the functions of these names. Certificates are a parameter, the
-- record Tls, with the documented behaviour of their comparison in TlsLaws.
--
-- Lan: src/plugins/lan/valent-lan-channel-service.c and valent-lan-utils.c. Network is what a
-- handshake finds outside; exchange, exchange_again and shake are the parts of handshake_fiber(),
-- which passes its channel to a Service; they give the bytes that they write too. A step that fails is `none`, since its error is only
-- logged.
--
-- Manager: src/libvalent/device/valent-device-manager.c. Its devices are those of Device, at their
-- places in the list; `load_state` and `save_state` are the functions of these names without the
-- files, and a function valent_device_manager_f has the name `f`. Histories is one call after
-- another.
--
-- Clipboard: src/plugins/clipboard/valent-clipboard-plugin.c. A function gives the list of what it
-- calls, and the plugin; the callbacks of an asynchronous read take its result.
--
-- Output: src/libvalent/device/valent-channel.c, the packets that are written; a write that is
-- under way is a state, and its end an event. Device.Transfer:
-- src/libvalent/device/valent-device-transfer.c, the channels that are tried.
--
-- Component: src/libvalent/core/valent-component.c, with valent-component-private.h and the plugin
-- state of valent-extension.c; a C function `valent_component_f` has the name `f`, and what the
-- class and the signals are called with is a log. A history has the choice that a caller made last. The plugins stand in the order of the hash table.
-- Transfer: src/libvalent/core/valent-transfer.c, over doubles as a parameter; the end of the
-- operation is an event.
--
-- Mousepad: src/plugins/mousepad. Keysym and Keydef are the keysyms and the tables of
-- valent-mousepad-keydef.c, Device is valent-mousepad-device.c, whose functions give the packets
-- that they send, and Plugin the packet handler of valent-mousepad-plugin.c, which gives what is
-- put in. The tables of GTK between keysyms and Unicode and the encoding in UTF-8 are parameters.
--
-- Telephony: src/plugins/telephony/valent-telephony-plugin.c. The streams are a function of the
-- object, and a player that answers at once changes its state within the call; Plugin is what an
-- event of a call does. Findmyphone: src/plugins/findmyphone, the ringer and its plugin, with the
-- sound and the notification as fields.
--
-- Systemvolume: src/plugins/systemvolume. The states of the streams of one end are a list, and the
-- outputs of the other end a function of the name; a packet about the outputs is a value with the
-- members that are read. Requests is the JSON of the requests and their handling, with the
-- calls of the mixer as a list. Doubles are a parameter, the record Doubles with the accuracy of their
-- operations in DoublesLaws.
--
-- Battery: src/plugins/battery/valent-battery-plugin.c. A function valent_battery_plugin_f has the
-- name `f`. A percentage is a whole number, since it is clamped from an integer; the levels of the
-- settings and the mean of two rates, which are doubles, are parameters.
--
-- Every loop is structural recursion over what is read or stored, so no fuel is needed, but for
-- the receive loop of the multiplexer, which takes the number of its iterations: one for each 19
-- bytes that are left to read is enough for it to end, if the stream ends with an error; for the
-- attempts of a transfer, of which no number is enough; and for the loop over the players that are
-- told to play, for which their number is enough.
--
-- Not modelled: the action table and the menu of a device, the eventfd and the sources of the
-- multiplexer, the reads of valent-channel.c, the D-Bus export of the device manager, DNS-SD and
-- transfers of the LAN service, the tree of objects, and the other plugins for single packet types,
-- which are planned; the adapters of the platform, GObject glue, D-Bus, sockets and the user
-- interface.
--
-- Prelude passes on the library's names and adds lists and integers over native numbers; Tests
-- applies the theorems to concrete inputs, packets in a small JSON library of its own.
pub mod Prelude
pub mod Packet
pub mod Device
pub mod Muxer
pub mod Service
pub mod Lan
pub mod Manager
pub mod Clipboard
pub mod Output
pub mod Component
pub mod Mousepad
pub mod Telephony
pub mod Findmyphone
pub mod Transfer
pub mod Systemvolume
pub mod Battery
mod Tests
