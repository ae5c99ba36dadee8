-- ===== src/Peers/Disconnect.antt =====
-- A disconnection keeps the maps of src/adapters/peers-registry.ts consistent.
use mathlib.Core.Path.{subst}
use worlds_content_server.Prelude.{
  ◌≡◌, refl, sym, ap, ◌∙◌, true, Option, none, some, List, [], ◌∷◌, arith, ◌==◌, Bool-cases, inl,
  inr,
}
use worlds_content_server.Prelude.Eq.{text_eq, text_beq_sound}
use worlds_content_server.Prelude.Lists.{includes}
use worlds_content_server.Prelude.Text.{Text, lower_case}
use worlds_content_server.Prelude.Map.{
  get, get-set, get-delete, delete_element, includes-delete_element,
}
use worlds_content_server.Peers.{
  RoomPrefixes, PeersRegistry, extract_world_name, elements, forget_peer, keep_rooms, leave_room,
  is_in_world, on_peer_disconnected,
}
use worlds_content_server.Peers.Consistency.{
  has, has-remove_from_index, is_none, is_empty, IsConsistent,
}

module _ (prefixes : RoomPrefixes) (i₀ w₀ : Text) (reg : PeersRegistry)
    (c : IsConsistent prefixes reg) where
  forget_peer-IsConsistent :
      get i₀ reg.peer_to_world ≡ some w₀ → IsConsistent prefixes (forget_peer i₀ w₀ reg)
  unfolding forget_peer is_in_world elements includes
  forget_peer-IsConsistent e = record {
    listed = λ i w. elim (Bool-cases (i₀ == i)) [
      | inl h ↦
          let before : has w i reg.world_to_peers ≡ w₀ == w =
            c.listed i w
            ∙ ap (λ (t : Option Text). is_in_world t w)
                (ap (λ (j : Text). get j reg.peer_to_world) (sym (text_beq_sound i₀ i h)) ∙ e) in
          ground (
            arith,
            h,
            before,
            get-delete i₀ i reg.peer_to_world,
            has-remove_from_index i₀ w₀ i w reg.world_to_peers,
          )
      | inr h ↦ ground (
        arith,
        h,
        get-delete i₀ i reg.peer_to_world,
        has-remove_from_index i₀ w₀ i w reg.world_to_peers,
        c.listed i w,
      )
    ];
    roomed = λ i r k. elim (Bool-cases (i₀ == i)) [
      | inl h ↦ cc (rw (get-delete, h) at k)
      | inr h ↦
          ground
            (arith, h, rw (get-delete, h) at k, get-delete i₀ i reg.peer_to_world, c.roomed i r)
    ];
    occupied = λ i.
        ground (
          arith,
          get-delete i₀ i reg.peer_to_world,
          get-delete i₀ i reg.peer_to_rooms,
          c.occupied i,
        );
  }

  keep_rooms-IsConsistent :
      (rooms : List Text)
      → get i₀ reg.peer_to_world ≡ some w₀
      → ((r : Text) → includes r rooms ≡ true → has i₀ r reg.peer_to_rooms ≡ true)
      → IsConsistent prefixes (keep_rooms i₀ w₀ rooms reg)
  unfolding keep_rooms is_in_world elements
  keep_rooms-IsConsistent [] e held = forget_peer-IsConsistent e
  keep_rooms-IsConsistent (x ∷ rooms) e held = record {
    listed = c.listed;
    roomed = λ i r k. elim (Bool-cases (i₀ == i)) [
      | inl h ↦
          subst
            (λ (j : Text).
              is_in_world (get j reg.peer_to_world) (extract_world_name prefixes r) ≡ true)
            (text_beq_sound i₀ i h) (c.roomed i₀ r (held r (rw (get-set, h) at k)))
      | inr h ↦ c.roomed i r (rw (get-set, h) at k)
    ];
    occupied = λ i. elim (Bool-cases (i₀ == i)) [
      | inl h ↦
          rw (get-set, h)
            (ap is_none
              (ap (λ (j : Text). get j reg.peer_to_world) (sym (text_beq_sound i₀ i h)) ∙ e))
      | inr h ↦ rw (get-set, h) (c.occupied i)
    ];
  }

  leave_room-IsConsistent :
      (room : Text) (o : Option (List Text))
      → get i₀ reg.peer_to_world ≡ some w₀
      → get i₀ reg.peer_to_rooms ≡ o
      → IsConsistent prefixes (leave_room i₀ w₀ room o reg)
  unfolding leave_room elements
  leave_room-IsConsistent room none e k = cc (
      sym (ap is_none e) ∙ c.occupied i₀ ∙ ap (λ (t : Option (List Text)). is_empty (elements t)) k)
  leave_room-IsConsistent room (some rooms) e k =
      keep_rooms-IsConsistent (delete_element room rooms) e (λ r m. ground (
        arith,
        ap (λ (t : Option (List Text)). includes r (elements t)) k,
        includes-delete_element room r rooms,
      ))

is_in_world-some : (o : Option Text) (w : Text) → is_in_world o w ≡ true → o ≡ some w
unfolding is_in_world
is_in_world-some none w h = cc
is_in_world-some (some v) w h = ap some (text_beq_sound v w h)

-- A disconnection keeps the maps consistent.
pub on_peer_disconnected-IsConsistent :
    (prefixes : RoomPrefixes) (id room : Text) (reg : PeersRegistry)
    → IsConsistent prefixes reg
    → IsConsistent prefixes (on_peer_disconnected prefixes id room reg)
unfolding on_peer_disconnected
on_peer_disconnected-IsConsistent prefixes id room reg c =
    let i₀ = lower_case id in
    let w₀ = extract_world_name prefixes room in
    elim (Bool-cases (is_in_world (get i₀ reg.peer_to_world) w₀)) [
      | inl h ↦ rw h (
          leave_room-IsConsistent prefixes i₀ w₀ reg c room (get i₀ reg.peer_to_rooms)
            (is_in_world-some (get i₀ reg.peer_to_world) w₀ h) refl)
      | inr h ↦ rw h c
    ]
