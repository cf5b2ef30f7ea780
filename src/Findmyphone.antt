-- ===== src/Findmyphone.antt =====
-- The ringer and its plugin: src/plugins/findmyphone/valent-findmyphone-ringer.c and
-- valent-findmyphone-plugin.c.
pub mod Ringing
use valent.Prelude.{ℕ, Bool, true, false, not, ◌&&◌, ◌||◌, Option, none, some, ◌==◌, if◌then◌else◌}
use valent.Device.State.{DeviceState}

-- The watch of the bus: `source_id` is zero, names the source, or names one that is gone.
pub data Watch : Type 0 where
  no_watch watched gone : Watch

-- ValentFindmyphoneRinger. `playbin` says that the element is there; `ringing` that it plays and
-- `shown` that the notification is there are the state outside of the structure.
pub record Ringer : Type 0 where
  pub application : Bool
  pub notification : Bool
  pub playbin : Bool
  pub source_id : Watch
  pub owner : Option ℕ
  pub ringing : Bool
  pub shown : Bool

abbrev pub is_set : Watch → Bool
is_set no_watch = false
is_set watched = true
is_set gone = true

-- valent_findmyphone_ringer_new(), with the default application and what GStreamer makes.
unfoldable pub ringer_new : Bool → Bool → Ringer
ringer_new application playbin = record {
  application = application;
  notification = application;
  playbin = playbin;
  source_id = no_watch;
  owner = none;
  ringing = false;
  shown = false;
}

-- `plays` says that gst_element_set_state() does not fail.
unfoldable pub ringer_start : Bool → Ringer → Ringer
ringer_start plays r =
    if not r.playbin || is_set r.source_id
    then r
    else if plays
    then record r { source_id = watched; ringing = true }
    else record r { source_id = no_watch }

unfoldable pub ringer_stop : Ringer → Ringer
ringer_stop r =
    if not r.playbin || not (is_set r.source_id)
    then r
    else record r { ringing = false; source_id = no_watch; owner = none }

abbrev pub send_notification : Ringer → Ringer
send_notification r = if r.application then record r { shown = true } else r

unfoldable pub ringer_show : Bool → Ringer → Ringer
ringer_show plays r = send_notification (ringer_start plays r)

abbrev pub withdraw_notification : Ringer → Ringer
withdraw_notification r = if r.notification then record r { shown = false } else r

unfoldable pub ringer_hide : Ringer → Ringer
ringer_hide r = ringer_stop (withdraw_notification r)

unfoldable pub ringer_toggle : Bool → Option ℕ → Ringer → Ringer
ringer_toggle plays owner r =
    if is_set r.source_id
    then record (ringer_hide r) { owner = none }
    else record (ringer_show plays r) { owner = owner }

abbrev pub is_object : Option ℕ → ℕ → Bool
is_object none owner = false
is_object (some x) owner = x == owner

unfoldable pub ringer_is_owner : Ringer → ℕ → Bool
ringer_is_owner r owner = is_object r.owner owner

-- ringer_source_func(): an error removes the source, and so does a seek that fails.
pub data Message : Type 0 where
  message_error message_other : Message
  message_eos : Bool → Message

abbrev pub source_gone : Watch → Watch
source_gone no_watch = no_watch
source_gone watched = gone
source_gone gone = gone

unfoldable pub ringer_source_func : Message → Ringer → Ringer
ringer_source_func message_error r = record r { source_id = source_gone r.source_id }
ringer_source_func message_other r = r
ringer_source_func (message_eos true) r = r
ringer_source_func (message_eos false) r = record r { source_id = source_gone r.source_id }

-- valent_findmyphone_plugin_handle_findmyphone_request(), of the plugin `self`.
unfoldable pub handle_findmyphone_request : Bool → ℕ → Ringer → Ringer
handle_findmyphone_request plays self r = ringer_toggle plays (some self) r

-- valent_findmyphone_plugin_update_state(), but for the actions.
unfoldable pub update_state : DeviceState → ℕ → Ringer → Ringer
update_state state self r =
    if not (state.connected && state.is_paired) && ringer_is_owner r self then ringer_hide r else r
