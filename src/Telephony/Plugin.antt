-- ===== src/Telephony/Plugin.antt =====
-- What an event of a call does in src/plugins/telephony/valent-telephony-plugin.c.
use valent.Prelude.{
  ℕ, Bool, not, ◌||◌, Option, none, some, List, [], ◌∷◌, String, str_eq, if◌then◌else◌,
}
use valent.Prelude.Int.{ℤ, pos, negsuc}
use valent.Packet.Json.{JsonGlib}
use valent.Packet.Fields.{get_string_field, check_field}
use valent.Telephony.{
  Streams, StreamState, stream_state_new, stream_state_update, stream_state_restore, Media,
  restore_players, pause_players,
}

-- MediaState; its players are the array that is tracked.
pub record MediaState : Type 0 where
  pub speakers : Option StreamState
  pub microphone : Option StreamState

abbrev pub media_state_new : MediaState
media_state_new = record { speakers = none; microphone = none }

-- The mixer and the players, and the state that the plugin keeps of them.
pub record World : Type 0 where
  pub streams : Streams
  pub default_output : Option ℕ
  pub default_input : Option ℕ
  pub players : List ℕ
  pub media : Media
  pub media_state : Option MediaState

pub record Settings : Type 0 where
  pub ringing_volume : ℤ
  pub ringing_microphone : ℤ
  pub ringing_pause : Bool
  pub talking_volume : ℤ
  pub talking_microphone : ℤ
  pub talking_pause : Bool

-- The state of a stream, which is made when there is none.
abbrev pub or_new : ℕ → Streams → Option StreamState → StreamState
or_new id streams none = stream_state_new id streams
or_new id streams (some state) = state

abbrev pub kept : StreamState × Streams → Option StreamState × Streams
kept (state, streams) = (some state, streams)

-- One half of media_state_update(): the default stream of a direction and the level for it.
abbrev pub update_stream :
    Option ℕ → ℤ → Option StreamState → Streams → Option StreamState × Streams
update_stream none level state streams = (state, streams)
update_stream (some id) (negsuc n) state streams = (state, streams)
update_stream (some id) (pos n) state streams =
    kept (stream_state_update (pos n) (or_new id streams state) streams)

unfoldable pub media_state_update : ℤ → ℤ → Bool → MediaState → World → World
media_state_update output_level input_level pause state w =
    let output = update_stream w.default_output output_level state.speakers w.streams in
    let input = update_stream w.default_input input_level state.microphone output.1 in
    record w {
      streams = input.1;
      media = if pause then pause_players w.players w.media else w.media;
      media_state = some (record { speakers = output.0; microphone = input.0 });
    }

abbrev pub restore_stream : Option StreamState → Streams → Streams
restore_stream none streams = streams
restore_stream (some state) streams = stream_state_restore state streams

-- g_clear_pointer() with media_state_restore()
abbrev pub restore_at : Option MediaState → World → World
restore_at none w = w
restore_at (some state) w = record w {
  streams = restore_stream state.microphone (restore_stream state.speakers w.streams);
  media = record (restore_players w.media) { tracked = [] };
  media_state = none;
}

unfoldable pub media_state_restore : World → World
media_state_restore w = restore_at w.media_state w

-- A new MediaState has a new array of players.
abbrev pub prepare : Option MediaState → World → World
prepare none w = record w { media = record w.media { tracked = [] } }
prepare (some state) w = w

abbrev pub state_or_new : Option MediaState → MediaState
state_or_new none = media_state_new
state_or_new (some state) = state

-- valent_telephony_plugin_update_media_state(), whose event is `ringing` or `talking`.
unfoldable pub update_media_state : Settings → String → World → World
update_media_state settings event w =
    let state = state_or_new w.media_state in
    let w' = prepare w.media_state w in
    if str_eq event "ringing"
    then media_state_update settings.ringing_volume settings.ringing_microphone
        settings.ringing_pause state w'
    else if str_eq event "talking"
    then media_state_update settings.talking_volume settings.talking_microphone
        settings.talking_pause state w'
    else w

-- The notification for a sender, shown with the event or hidden.
pub data Notice : Type 0 where
  shown : String → String → Notice
  hidden : String → Notice

module _ (j : JsonGlib) where
  -- The name of the contact, or the number.
  abbrev pub sender_of : Option String → Option String → String
  sender_of (some name) number = name
  sender_of none (some number) = number
  sender_of none none = "Unknown"

  abbrev pub handle_event : Settings → j.Node → Option String → World → List Notice × World
  handle_event settings packet none w = ([], w)
  handle_event settings packet (some event) w =
      if not (str_eq event "ringing" || str_eq event "talking")
      then ([], w)
      else let sender =
          sender_of (get_string_field j packet "contactName")
            (get_string_field j packet "phoneNumber") in
        if check_field j packet "isCancel"
        then (hidden sender ∷ [], media_state_restore w)
        else (shown sender event ∷ [], update_media_state settings event w)

  -- valent_telephony_plugin_handle_telephony()
  unfoldable pub handle_telephony : Settings → j.Node → World → List Notice × World
  handle_telephony settings packet w =
      handle_event settings packet (get_string_field j packet "event") w
