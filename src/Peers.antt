-- ===== src/Peers.antt =====
-- The registry of connected peers: src/adapters/peers-registry.ts. The room prefixes are the
-- configuration's.
use worlds_content_server.Prelude.{
  ℕ, zero, suc, ◌+◌, ◌≡◌, refl, Bool, true, false, not, ◌&&◌, ◌||◌, Option, none, some, List, [],
  ◌∷◌, ◌++◌, if◌then◌else◌, ◌==◌,
}
use worlds_content_server.Prelude.Eq.{nat_eq, text_eq}
use worlds_content_server.Prelude.Lists.{length, take, drop}
use worlds_content_server.Prelude.Text.{Text, codes, lower_case}
use worlds_content_server.Prelude.Map.{Map, get, set, delete, add_element, delete_element}
pub mod Consistency
pub mod Connect
pub mod Disconnect
pub mod Reachable
pub mod Tests

abbrev pub dcl_eth_suffix : Text
dcl_eth_suffix = codes ".dcl.eth"

pub record RoomPrefixes : Type 0 where
  pub comms : Text
  pub scene : Text

pub record PeersRegistry : Type 0 where
  pub peer_to_world : Map Text
  pub world_to_peers : Map (List Text)
  pub peer_to_rooms : Map (List Text)

abbrev pub empty_registry : PeersRegistry
empty_registry = record { peer_to_world = []; world_to_peers = []; peer_to_rooms = [] }

-- `s.startsWith(prefix)`.
unfoldable pub starts_with : Text → Text → Bool
starts_with [] s = true
starts_with (p ∷ ps) [] = false
starts_with (p ∷ ps) (c ∷ s) = p == c && starts_with ps s

later : Option ℕ → Option ℕ
later none = none
later (some n) = some (suc n)

-- `s.indexOf(part)`, where -1 is `none`.
unfoldable pub index_of : Text → Text → Option ℕ
unfolding starts_with later
index_of part [] = if starts_with part [] then some 0 else none
index_of part (c ∷ s) =
    let rest = index_of part s in if starts_with part (c ∷ s) then some 0 else later rest

strip_prefix : RoomPrefixes → Text → Text
unfolding starts_with
strip_prefix prefixes room =
    if starts_with prefixes.scene room
    then drop (length prefixes.scene) room
    else if starts_with prefixes.comms room
    then drop (length prefixes.comms) room
    else room

unfoldable pub extract_world_name : RoomPrefixes → Text → Text
unfolding strip_prefix index_of
extract_world_name prefixes room = elim (index_of dcl_eth_suffix (strip_prefix prefixes room)) [
  | none ↦ lower_case (strip_prefix prefixes room)
  | some i ↦ lower_case (take (i + length dcl_eth_suffix) (strip_prefix prefixes room))
]

unfoldable pub elements : Option (List Text) → List Text
elements none = []
elements (some s) = s

unfoldable pub add_to_index : Text → Text → Map (List Text) → Map (List Text)
unfolding elements
add_to_index identity world index =
    set world (add_element identity (elements (get world index))) index

-- A set that becomes empty goes.
unfoldable pub store_set : Text → List Text → Map (List Text) → Map (List Text)
store_set key [] index = delete key index
store_set key (x ∷ xs) index = set key (x ∷ xs) index

unfoldable pub remove_from_index : Text → Text → Map (List Text) → Map (List Text)
unfolding store_set
remove_from_index identity world index = elim (get world index) [
  | none ↦ index
  | some s ↦ store_set world (delete_element identity s) index
]

-- A peer that was in another world leaves it, and its rooms.
unfoldable pub leave_previous : Text → Text → Option Text → PeersRegistry → PeersRegistry
unfolding remove_from_index
leave_previous identity world none reg = reg
leave_previous identity world (some previous) reg = if previous == world then reg else record reg {
  world_to_peers = remove_from_index identity previous reg.world_to_peers;
  peer_to_rooms = delete identity reg.peer_to_rooms;
}

unfoldable pub join_room : Text → Text → Text → PeersRegistry → PeersRegistry
unfolding add_to_index
join_room identity world room reg = record {
  peer_to_world = set identity world reg.peer_to_world;
  world_to_peers = add_to_index identity world reg.world_to_peers;
  peer_to_rooms = add_to_index room identity reg.peer_to_rooms;
}

unfoldable pub on_peer_connected : RoomPrefixes → Text → Text → PeersRegistry → PeersRegistry
unfolding leave_previous join_room
on_peer_connected prefixes id room reg =
    let identity = lower_case id in
    let world = extract_world_name prefixes room in
    join_room identity world room
      (leave_previous identity world (get identity reg.peer_to_world) reg)

unfoldable pub forget_peer : Text → Text → PeersRegistry → PeersRegistry
unfolding remove_from_index
forget_peer identity world reg = record {
  peer_to_world = delete identity reg.peer_to_world;
  world_to_peers = remove_from_index identity world reg.world_to_peers;
  peer_to_rooms = delete identity reg.peer_to_rooms;
}

-- What is left of the peer's rooms decides whether it stays.
unfoldable pub keep_rooms : Text → Text → List Text → PeersRegistry → PeersRegistry
unfolding forget_peer
keep_rooms identity world [] reg = forget_peer identity world reg
keep_rooms identity world (r ∷ rooms) reg = record reg {
  peer_to_rooms = set identity (r ∷ rooms) reg.peer_to_rooms;
}

unfoldable pub leave_room : Text → Text → Text → Option (List Text) → PeersRegistry → PeersRegistry
unfolding keep_rooms
leave_room identity world room none reg = record reg {
  peer_to_world = delete identity reg.peer_to_world;
  world_to_peers = remove_from_index identity world reg.world_to_peers;
}
leave_room identity world room (some rooms) reg =
    keep_rooms identity world (delete_element room rooms) reg

unfoldable pub is_in_world : Option Text → Text → Bool
is_in_world none world = false
is_in_world (some w) world = w == world

-- A disconnection from a world that the peer has left is ignored.
unfoldable pub on_peer_disconnected : RoomPrefixes → Text → Text → PeersRegistry → PeersRegistry
unfolding is_in_world leave_room
on_peer_disconnected prefixes id room reg =
    let identity = lower_case id in
    let world = extract_world_name prefixes room in
    if is_in_world (get identity reg.peer_to_world) world
    then leave_room identity world room (get identity reg.peer_to_rooms) reg
    else reg

unfoldable pub get_peer_world : Text → PeersRegistry → Option Text
get_peer_world id reg = get (lower_case id) reg.peer_to_world

unfoldable pub get_peers_in_world : Text → PeersRegistry → List Text
unfolding elements
get_peers_in_world world reg = elements (get (lower_case world) reg.world_to_peers)

unfoldable pub get_peer_rooms : Text → PeersRegistry → List Text
unfolding elements
get_peer_rooms id reg = elements (get (lower_case id) reg.peer_to_rooms)
