-- ===== src/Systemvolume.antt =====
-- The system volume plugin, src/plugins/systemvolume: the outputs of a device, as
-- valent-systemvolume-plugin.c reports them and valent-systemvolume-device.c keeps them at the other
-- end.
pub mod Mirror
pub mod Updates
pub mod Histories
pub mod Mixer
pub mod Doubles
pub mod Scale
pub mod Requests
pub mod Remote
use valent.Prelude.{
  ℕ, Bool, true, false, not, ◌&&◌, ◌||◌, Option, none, some, List, [], ◌∷◌, String, str_eq,
  if◌then◌else◌, ◌==◌,
}
use valent.Prelude.Int.{ℤ, pos, eqb_ℤ}

-- A ValentMixerStream; `id` is the object.
pub record Stream : Type 0 where
  pub id : ℕ
  pub name : String
  pub description : String
  pub level : ℕ
  pub muted : Bool
  pub is_output : Bool

-- StreamState
pub record StreamState : Type 0 where
  pub stream : ℕ
  pub name : String
  pub description : String
  pub volume : ℕ
  pub muted : Bool
  pub enabled : Bool

-- The members of an object that are read or set: a member that is missing, or has another type than
-- is asked for, is `none`.
pub record Members : Type 0 where
  pub name : Option String
  pub description : Option String
  pub muted : Option Bool
  pub volume : Option ℤ
  pub max_volume : Option ℤ
  pub enabled : Option Bool

-- The body of a `kdeconnect.systemvolume` packet: a list of sinks, or the members themselves.
pub data Packet : Type 0 where
  sink_list : List Members → Packet
  sink : Members → Packet

abbrev pub same_bool : Bool → Bool → Bool
same_bool true b = b
same_bool false b = not b

abbrev pub is_default : Option ℕ → ℕ → Bool
is_default none id = false
is_default (some x) id = x == id

unfoldable pub stream_state_find : String → List StreamState → Option StreamState
stream_state_find name [] = none
stream_state_find name (state ∷ rest) =
    let other = stream_state_find name rest in if str_eq state.name name then some state else other

-- The state that was found is changed.
unfoldable pub change_state : String → StreamState → List StreamState → List StreamState
change_state name changed [] = []
change_state name changed (state ∷ rest) =
    let other = change_state name changed rest in
    if str_eq state.name name then changed ∷ rest else state ∷ other

-- `default` is the default output of the mixer.
unfoldable pub stream_state_new : Option ℕ → Stream → StreamState
stream_state_new default s = record {
  stream = s.id;
  name = s.name;
  description = s.description;
  volume = s.level;
  muted = s.muted;
  enabled = is_default default s.id;
}

abbrev pub sink_of : StreamState → Members
sink_of state = record {
  name = some state.name;
  description = some state.description;
  muted = some state.muted;
  volume = some (pos state.volume);
  max_volume = some (pos 100);
  enabled = some state.enabled;
}

unfoldable pub sinks_of : List StreamState → List Members
sinks_of [] = []
sinks_of (state ∷ rest) = sink_of state ∷ sinks_of rest

-- valent_systemvolume_plugin_send_sinklist()
abbrev pub send_sinklist : List StreamState → List Packet
send_sinklist states = sink_list (sinks_of states) ∷ []

-- The members of a sink update.
abbrev pub changes_of : StreamState → Bool → Bool → ℕ → Members
changes_of state enabled muted volume = record {
  name = some state.name;
  description = none;
  muted = if same_bool state.muted muted then none else some muted;
  volume = if state.volume == volume then none else some (pos volume);
  max_volume = none;
  enabled = if same_bool state.enabled enabled then none else some enabled;
}

abbrev pub report : Bool → Stream → StreamState → List StreamState → List Packet × List StreamState
report enabled s state states =
    let described = record state { description = s.description } in
    let changed = record state { volume = s.level; muted = s.muted; enabled = enabled } in
    if not (str_eq state.description s.description)
    then (
      send_sinklist (change_state s.name described states),
      change_state s.name described states,
    )
    else if same_bool state.enabled enabled
        && (same_bool state.muted s.muted && state.volume == s.level)
    then ([], states)
    else (sink (changes_of state enabled s.muted s.level) ∷ [], change_state s.name changed states)

abbrev pub stream_changed :
    Option ℕ → Stream → Option StreamState → List StreamState → List Packet × List StreamState
stream_changed default s none states = (send_sinklist states, states)
stream_changed default s (some state) states = report (is_default default s.id) s state states

-- on_stream_changed()
unfoldable pub on_stream_changed :
    Option ℕ → Stream → List StreamState → List Packet × List StreamState
on_stream_changed default s states =
    stream_changed default s (stream_state_find s.name states) states

unfoldable pub enable_each : Option ℕ → List StreamState → List StreamState
enable_each default [] = []
enable_each default (state ∷ rest) =
    record state { enabled = is_default default state.stream } ∷ enable_each default rest

-- on_default_output_changed()
unfoldable pub on_default_output_changed :
    Option ℕ → List StreamState → List Packet × List StreamState
on_default_output_changed default states =
    (send_sinklist (enable_each default states), enable_each default states)

unfoldable pub states_of : Option ℕ → List Stream → List StreamState
states_of default [] = []
states_of default (s ∷ rest) =
    let states = states_of default rest in
    if s.is_output then stream_state_new default s ∷ states else states

-- on_items_changed(), with the streams of the mixer.
unfoldable pub on_items_changed : Option ℕ → List Stream → List Packet × List StreamState
on_items_changed default streams =
    (send_sinklist (states_of default streams), states_of default streams)

-- ValentSystemvolumeStream
pub record Output : Type 0 where
  pub description : Option String
  pub volume : ℤ
  pub muted : Bool
  pub max_volume : ℤ

-- ValentSystemvolumeDevice; `outputs` is the hash table.
pub record Device : Type 0 where
  pub outputs : String → Option Output
  pub default_output : Option String

abbrev pub or_keep {ℓ} : {A : Type ℓ} → A → Option A → A
or_keep old none = old
or_keep old (some new) = new

-- valent_systemvolume_stream_update()
abbrev pub stream_update : Members → Output → Output
stream_update m o = record o {
  max_volume = or_keep o.max_volume m.max_volume;
  muted = or_keep o.muted m.muted;
  volume = or_keep o.volume m.volume;
}

-- The stream for a name, which is made when there is none.
abbrev pub or_new : Option String → Option Output → Output
or_new description none = record {
  description = description;
  volume = pos 0;
  muted = false;
  max_volume = pos 0;
}
or_new description (some o) = o

abbrev pub take_default : String → Option Bool → Option String → Option String
take_default name none default = default
take_default name (some enabled) default = if enabled then some name else default

abbrev pub handle_named : Option String → Members → Device → Option String × Device
handle_named none m d = (none, d)
handle_named (some name) m d = (
  some name,
  record {
    outputs = λ other.
        if str_eq name other
        then some (stream_update m (or_new m.description (d.outputs name)))
        else d.outputs other;
    default_output = take_default name m.enabled d.default_output;
  },
)

-- valent_systemvolume_device_handle_stream()
unfoldable pub handle_stream : Members → Device → Option String × Device
handle_stream m d = handle_named m.name m d

abbrev pub add_name : Option String → List String → List String
add_name none names = names
add_name (some name) names = name ∷ names

-- The loop over the sinks, with the names that are added.
unfoldable pub handle_sinks : List Members → Device → List String × Device
handle_sinks [] d = ([], d)
handle_sinks (m ∷ rest) d =
    let handled = handle_stream m d in
    let (names, d') = handle_sinks rest handled.1 in (add_name handled.0 names, d')

unfoldable pub contains : List String → String → Bool
contains [] name = false
contains (x ∷ xs) name = str_eq x name || contains xs name

-- The outputs that are not named are removed.
abbrev pub retain : List String × Device → Device
retain (names, d) = record d {
  outputs = λ name. if contains names name then d.outputs name else none;
}

-- valent_systemvolume_device_handle_packet()
unfoldable pub handle_packet : Packet → Device → Device
handle_packet (sink_list sinks) d = retain (handle_sinks sinks d)
handle_packet (sink m) d = (handle_stream m d).1
