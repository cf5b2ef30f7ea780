-- ===== src/Telephony.antt =====
-- The telephony plugin, src/plugins/telephony/valent-telephony-plugin.c: while the phone rings or is
-- used, streams are turned down and players paused, and what was changed is restored when the call
-- is cancelled.
pub mod Plugin
pub mod Streams
pub mod Players
pub mod Calls
use valent.Prelude.{
  ℕ, zero, suc, Bool, true, false, not, ◌&&◌, ◌||◌, Option, none, some, List, [], ◌∷◌, ◌++◌,
  if◌then◌else◌, ◌==◌, ltb, length, get_elem?,
}
use valent.Prelude.Int.{ℤ, pos, negsuc}

-- What the plugin reads and sets of a ValentMixerStream.
pub record Stream : Type 0 where
  pub level : ℕ
  pub muted : Bool

-- The streams of the mixer, by the object.
abbrev pub Streams : Type 0
Streams = ℕ → Stream

abbrev pub set_stream : ℕ → Stream → Streams → Streams
set_stream id s streams x = if x == id then s else streams x

-- valent_mixer_stream_set_level() and valent_mixer_stream_set_muted()
abbrev pub set_level : ℕ → ℕ → Streams → Streams
set_level id level streams = set_stream id (record (streams id) { level = level }) streams

abbrev pub set_muted : ℕ → Bool → Streams → Streams
set_muted id muted streams = set_stream id (record (streams id) { muted = muted }) streams

-- StreamState
pub record StreamState : Type 0 where
  pub stream : Option ℕ
  pub current_level : ℕ
  pub current_muted : Bool
  pub original_level : ℕ
  pub original_muted : Bool

abbrev pub same_bool : Bool → Bool → Bool
same_bool true b = b
same_bool false b = not b

-- on_stream_changed(): the default stream of the direction is another one.
abbrev pub on_stream_changed : StreamState → StreamState
on_stream_changed state = record state { stream = none }

unfoldable pub stream_state_new : ℕ → Streams → StreamState
stream_state_new id streams = record {
  stream = some id;
  current_level = (streams id).level;
  current_muted = (streams id).muted;
  original_level = (streams id).level;
  original_muted = (streams id).muted;
}

abbrev pub restore_level : ℕ → StreamState → Streams → Streams
restore_level id state streams =
    if (streams id).level == state.current_level
    then set_level id state.original_level streams
    else streams

abbrev pub restore_muted : ℕ → StreamState → Streams → Streams
restore_muted id state streams =
    if same_bool (streams id).muted state.current_muted
    then set_muted id state.original_muted streams
    else streams

abbrev pub restore_at : Option ℕ → StreamState → Streams → Streams
restore_at none state streams = streams
restore_at (some id) state streams = restore_muted id state (restore_level id state streams)

unfoldable pub stream_state_restore : StreamState → Streams → Streams
stream_state_restore state streams = restore_at state.stream state streams

abbrev pub update_at : Option ℕ → ℤ → StreamState → Streams → StreamState × Streams
update_at none level state streams = (state, streams)
update_at (some id) (pos zero) state streams =
    (record state { current_muted = true }, set_muted id true streams)
update_at (some id) (pos (suc n)) state streams =
    (record state { current_level = suc n }, set_level id (suc n) streams)
update_at (some id) (negsuc n) state streams = (state, streams)

unfoldable pub stream_state_update : ℤ → StreamState → Streams → StreamState × Streams
stream_state_update level state streams = update_at state.stream level state streams

-- ValentMediaState
pub data PlayerState : Type 0 where
  stopped playing paused : PlayerState

abbrev pub is_paused : PlayerState → Bool
is_paused stopped = false
is_paused playing = false
is_paused paused = true

abbrev pub is_playing : PlayerState → Bool
is_playing stopped = false
is_playing playing = true
is_playing paused = false

-- The media players: the states of the players, the players whose changes of state are not made at
-- once, and the players that were told to play and to pause. `tracked` is the array of a MediaState.
pub record Media : Type 0 where
  pub states : ℕ → PlayerState
  pub deferred : ℕ → Bool
  pub tracked : List ℕ
  pub plays : List ℕ
  pub pauses : List ℕ

abbrev pub set_player : ℕ → PlayerState → (ℕ → PlayerState) → ℕ → PlayerState
set_player id s states x = if x == id then s else states x

-- g_ptr_array_remove()
abbrev pub remove_player : ℕ → List ℕ → List ℕ
remove_player id [] = []
remove_player id (x ∷ xs) = let rest = remove_player id xs in if x == id then xs else x ∷ rest

abbrev pub is_tracked : ℕ → List ℕ → Bool
is_tracked id [] = false
is_tracked id (x ∷ xs) = x == id || is_tracked id xs

-- on_player_changed(), which is called for the players that are tracked.
unfoldable pub on_player_changed : ℕ → Media → Media
on_player_changed id media =
    if is_paused (media.states id)
    then media
    else record media { tracked = remove_player id media.tracked }

-- valent_media_player_play(): a player that does not defer it is playing when the call returns, and
-- has announced so.
unfoldable pub player_play : ℕ → Media → Media
player_play id media =
    let told = record media { plays = media.plays ++ id ∷ [] } in
    if media.deferred id
    then told
    else on_player_changed id (record told { states = set_player id playing media.states })

-- g_ptr_array_foreach() over the players, which reads the length of the array again each time; the
-- first argument is fuel.
unfoldable pub play_each : ℕ → ℕ → Media → Media
play_each zero i media = media
play_each (suc n) i media = elim (get_elem? media.tracked i) [
  | none ↦ media
  | some id ↦ play_each n (suc i) (player_play id media)
]

-- The players of media_state_restore().
unfoldable pub restore_players : Media → Media
restore_players media = play_each (length media.tracked) 0 media

-- valent_media_player_pause() of a player that is not tracked yet.
abbrev pub pause_player : ℕ → Media → Media
pause_player id media = record media {
  states = if media.deferred id then media.states else set_player id paused media.states;
  tracked = media.tracked ++ id ∷ [];
  pauses = media.pauses ++ id ∷ [];
}

-- media_state_pause_players(), over the players of all adapters.
unfoldable pub pause_players : List ℕ → Media → Media
pause_players [] media = media
pause_players (id ∷ rest) media = pause_players rest (
    if is_tracked id media.tracked
    then media
    else if is_playing (media.states id)
    then pause_player id media
    else media)
