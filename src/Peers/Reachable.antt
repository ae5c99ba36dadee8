-- ===== src/Peers/Reachable.antt =====
-- What holds of the registry of src/adapters/peers-registry.ts after any sequence of its two events.
use worlds_content_server.Prelude.{◌≡◌, refl, true}
use worlds_content_server.Prelude.Eq.{text_eq}
use worlds_content_server.Prelude.Lists.{includes}
use worlds_content_server.Prelude.Text.{Text, lower_case}
use worlds_content_server.Prelude.Map.{get}
use worlds_content_server.Peers.{
  RoomPrefixes, PeersRegistry, empty_registry, extract_world_name, elements, is_in_world,
  on_peer_connected, on_peer_disconnected, get_peer_world, get_peers_in_world, get_peer_rooms,
}
use worlds_content_server.Peers.Consistency.{IsConsistent}
use worlds_content_server.Peers.Connect.{on_peer_connected-IsConsistent}
use worlds_content_server.Peers.Disconnect.{on_peer_disconnected-IsConsistent}

-- The registries that the events lead to.
pub data Reachable (prefixes : RoomPrefixes) : PeersRegistry → Type 0 where
  start : Reachable prefixes empty_registry
  connected :
      {reg : PeersRegistry} (id room : Text)
      → Reachable prefixes reg
      → Reachable prefixes (on_peer_connected prefixes id room reg)
  disconnected :
      {reg : PeersRegistry} (id room : Text)
      → Reachable prefixes reg
      → Reachable prefixes (on_peer_disconnected prefixes id room reg)

empty-IsConsistent : (prefixes : RoomPrefixes) → IsConsistent prefixes empty_registry
unfolding get elements includes is_in_world
empty-IsConsistent prefixes = record {
  listed = λ i w. refl;
  roomed = λ i r h. cc;
  occupied = λ i. refl;
}

Reachable-IsConsistent :
    (prefixes : RoomPrefixes) (reg : PeersRegistry)
    → Reachable prefixes reg
    → IsConsistent prefixes reg
Reachable-IsConsistent prefixes reg start = empty-IsConsistent prefixes
Reachable-IsConsistent prefixes reg (connected {reg = r} id room h) =
    on_peer_connected-IsConsistent prefixes id room r (Reachable-IsConsistent prefixes r h)
Reachable-IsConsistent prefixes reg (disconnected {reg = r} id room h) =
    on_peer_disconnected-IsConsistent prefixes id room r (Reachable-IsConsistent prefixes r h)

-- After any sequence of connections and disconnections, a world lists a peer exactly when it is
-- the peer's world: no peer is in two worlds.
pub get_peers_in_world-lists :
    (prefixes : RoomPrefixes) (reg : PeersRegistry) (id world : Text)
    → Reachable prefixes reg
    → includes (lower_case id) (get_peers_in_world world reg)
      ≡ is_in_world (get_peer_world id reg) (lower_case world)
unfolding get_peers_in_world get_peer_world
get_peers_in_world-lists prefixes reg id world h =
    (Reachable-IsConsistent prefixes reg h).listed (lower_case id) (lower_case world)

-- After any sequence of connections and disconnections, every room that is kept for a peer is a
-- room of the world that the peer is in.
pub get_peer_rooms-world :
    (prefixes : RoomPrefixes) (reg : PeersRegistry) (id room : Text)
    → Reachable prefixes reg
    → includes room (get_peer_rooms id reg) ≡ true
    → is_in_world (get_peer_world id reg) (extract_world_name prefixes room) ≡ true
unfolding get_peer_rooms get_peer_world
get_peer_rooms-world prefixes reg id room h k =
    (Reachable-IsConsistent prefixes reg h).roomed (lower_case id) room k
