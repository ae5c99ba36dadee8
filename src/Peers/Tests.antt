-- ===== src/Peers/Tests.antt =====
-- The registry of src/adapters/peers-registry.ts after a few events.
use worlds_content_server.Prelude.{◌≡◌, refl, true}
use worlds_content_server.Prelude.Eq.{text_eq, nat_eq, text_beq}
use worlds_content_server.Prelude.Lists.{includes}
use worlds_content_server.Prelude.Text.{Text, codes, lower_case}
use worlds_content_server.Prelude.Map.{get, set, add_element}
use worlds_content_server.Peers.{
  RoomPrefixes, PeersRegistry, empty_registry, starts_with, index_of, extract_world_name, elements,
  is_in_world, on_peer_connected, leave_previous, join_room, add_to_index, on_peer_disconnected,
  get_peer_world, get_peers_in_world, get_peer_rooms,
}
use worlds_content_server.Peers.Reachable.{
  start, connected, disconnected, get_peers_in_world-lists, get_peer_rooms-world,
}

abbrev prefixes : RoomPrefixes
prefixes = record { comms = codes "w-"; scene = codes "w-s-" }

abbrev comms_room : Text
comms_room = codes "w-A.dcl.eth"

abbrev scene_room : Text
scene_room = codes "w-s-b.dcl.eth-bafy"

world_names :
    (extract_world_name prefixes comms_room ≡ codes "a.dcl.eth")
    × (extract_world_name prefixes scene_room ≡ codes "b.dcl.eth")
unfolding extract_world_name starts_with index_of lower_case
world_names = (refl, refl)

-- The peer goes from one world to the other, and the disconnection from the first comes late.
abbrev moved : PeersRegistry
moved = on_peer_disconnected prefixes (codes "0xA") comms_room (
    on_peer_connected prefixes (codes "0xA") scene_room
      (on_peer_connected prefixes (codes "0xa") comms_room empty_registry))

get_peers_in_world-lists_example :
    includes (lower_case (codes "0xA")) (get_peers_in_world (codes "B.dcl.eth") moved)
    ≡ is_in_world (get_peer_world (codes "0xA") moved) (lower_case (codes "B.dcl.eth"))
get_peers_in_world-lists_example =
    get_peers_in_world-lists prefixes moved (codes "0xA") (codes "B.dcl.eth") (
      disconnected (codes "0xA") comms_room
        (connected (codes "0xA") scene_room (connected (codes "0xa") comms_room start)))

abbrev joined : PeersRegistry
joined = on_peer_connected prefixes (codes "0xa") comms_room empty_registry

joined_room : includes comms_room (get_peer_rooms (codes "0xa") joined) ≡ true
unfolding includes get_peer_rooms on_peer_connected leave_previous join_room add_to_index
    extract_world_name starts_with index_of lower_case get set add_element elements text_beq
joined_room = refl

get_peer_rooms-world_example :
    is_in_world (get_peer_world (codes "0xa") joined) (extract_world_name prefixes comms_room)
    ≡ true
get_peer_rooms-world_example =
    get_peer_rooms-world prefixes joined (codes "0xa") comms_room
      (connected (codes "0xa") comms_room start) joined_room
