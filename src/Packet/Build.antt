-- ===== src/Packet/Build.antt =====
-- valent_packet_new(), valent_packet_init() and valent_packet_end() of
-- src/libvalent/device/valent-packet.c.
use valent.Prelude.{Option, none, some, String, str_eq, if◌then◌else◌}
use valent.Prelude.Int.{pos}
use valent.Packet.Json.{JsonGlib}

-- A `JsonBuilder` left in the `body` object: the root as far as it is built, and the body.
pub record Builder (j : JsonGlib) : Type 0 where
  pub root : j.Node
  pub body : j.Node

module _ (j : JsonGlib) where
  open j use {Node, new_object, int_node, string_node, set_member}

  unfoldable pub packet_new : String → Node
  packet_new type =
      set_member
        (set_member (set_member new_object "id" (int_node (pos 0))) "type" (string_node type))
        "body" new_object

  unfoldable pub packet_init : String → Option (Builder j)
  packet_init type =
      if str_eq type ""
      then none
      else some (record {
        root = set_member (set_member new_object "id" (int_node (pos 0))) "type" (string_node type);
        body = new_object;
      })

  -- json_builder_set_member_name() with a value.
  unfoldable pub add_member : Builder j → String → Node → Builder j
  add_member b name value = record b { body = set_member b.body name value }

  unfoldable pub packet_end : Builder j → Node
  packet_end b = set_member b.root "body" b.body
