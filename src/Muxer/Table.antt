-- ===== src/Muxer/Table.antt =====
-- The table of channels of src/plugins/bluez/valent-bluez-muxer.c, and the multiplexer that holds
-- it. A UUID is the bytes of its text.
use valent.Prelude.{ℕ, Bool, Option, none, some, List, [], ◌∷◌, eqb_list, if◌then◌else◌}
use valent.Muxer.Channel.{ChannelState, channel_state_close}

-- `states` stands for the hash table, `sent` for the bytes written to the base stream, in order;
-- `closed` says that the base stream was closed.
pub record Muxer : Type 0 where
  pub buffer_size : ℕ
  pub protocol_version : ℕ
  pub states : List (List ℕ × ChannelState)
  pub sent : List ℕ
  pub closed : Bool

-- channel_state_lookup() without its error.
unfoldable pub lookup : List ℕ → List (List ℕ × ChannelState) → Option ChannelState
lookup uuid [] = none
lookup uuid ((k, s) ∷ rest) =
    let found = lookup uuid rest in if eqb_list k uuid then some s else found

-- What a change of the state of one channel does to the table.
unfoldable pub update :
    List ℕ → ChannelState → List (List ℕ × ChannelState) → List (List ℕ × ChannelState)
update uuid s [] = []
update uuid s ((k, t) ∷ rest) =
    let others = update uuid s rest in if eqb_list k uuid then (k, s) ∷ rest else (k, t) ∷ others

-- g_hash_table_replace() of a UUID that is not in the table.
abbrev pub insert : List ℕ → ChannelState → Muxer → Muxer
insert uuid s m = record m { states = (uuid, s) ∷ m.states }

abbrev pub set_state : List ℕ → ChannelState → Muxer → Muxer
set_state uuid s m = record m { states = update uuid s m.states }

unfoldable pub close_all : List (List ℕ × ChannelState) → List ChannelState
close_all [] = []
close_all ((k, s) ∷ rest) = channel_state_close s ∷ close_all rest
