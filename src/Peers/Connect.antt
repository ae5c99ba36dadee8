-- ===== src/Peers/Connect.antt =====
-- A connection keeps the maps of src/adapters/peers-registry.ts consistent.
use mathlib.Core.Path.{subst}
use worlds_content_server.Prelude.{
  ◌≡◌, refl, sym, ap, ◌∙◌, true, false, ◌&&◌, Option, none, some, List, [], ◌∷◌, arith, ◌==◌,
  Bool-cases, or_true, and_true, inl, inr,
}
use worlds_content_server.Prelude.Eq.{
  text_eq, text_beq_iff, text_beq_refl, text_beq_sound, text_beq_complete,
}
use worlds_content_server.Prelude.Lists.{includes}
use worlds_content_server.Prelude.Text.{Text, lower_case}
use worlds_content_server.Prelude.Map.{get, delete, get-set, get-delete, add_element}
use worlds_content_server.Peers.{
  RoomPrefixes, PeersRegistry, extract_world_name, elements, add_to_index, leave_previous,
  join_room, on_peer_connected, is_in_world,
}
use worlds_content_server.Peers.Consistency.{
  has, has-add_to_index, has-remove_from_index, is_empty, IsConsistent,
}

module _ (prefixes : RoomPrefixes) (i₀ w₀ : Text) (reg : PeersRegistry)
    (c : IsConsistent prefixes reg) where
  -- A peer that leaves is listed under the new world at most.
  leave_previous-listed :
      (w : Text) (o : Option Text)
      → get i₀ reg.peer_to_world ≡ o
      → has w i₀ (leave_previous i₀ w₀ o reg).world_to_peers ≡ (is_in_world o w && w₀ == w)
  unfolding leave_previous is_in_world
  leave_previous-listed w none e = c.listed i₀ w ∙ ap (λ (t : Option Text). is_in_world t w) e
  leave_previous-listed w (some p) e =
      let before : has w i₀ reg.world_to_peers ≡ p == w =
        c.listed i₀ w ∙ ap (λ (t : Option Text). is_in_world t w) e in
      ground (
        arith,
        before,
        has-remove_from_index i₀ p i₀ w reg.world_to_peers,
        text_beq_refl i₀,
        text_beq_iff p w₀,
        text_beq_iff p w,
        text_beq_iff w₀ w,
      )

  leave_previous-roomed :
      (r : Text) (o : Option Text)
      → get i₀ reg.peer_to_world ≡ o
      → has i₀ r (leave_previous i₀ w₀ o reg).peer_to_rooms ≡ true
      → w₀ ≡ extract_world_name prefixes r
  unfolding leave_previous is_in_world elements includes
  leave_previous-roomed r none e h = cc (
      sym (ap (λ (t : Option Text). is_in_world t (extract_world_name prefixes r)) e)
      ∙ c.roomed i₀ r h)
  leave_previous-roomed r (some p) e h = elim (Bool-cases (p == w₀)) [
    | inl k ↦
        let at_world : p == extract_world_name prefixes r ≡ true =
          sym (ap (λ (t : Option Text). is_in_world t (extract_world_name prefixes r)) e)
          ∙ c.roomed i₀ r (rw k at h) in
        sym (text_beq_sound p w₀ k) ∙ text_beq_sound p (extract_world_name prefixes r) at_world
    | inr k ↦
        let gone : get i₀ (delete i₀ reg.peer_to_rooms) ≡ none =
          ground (arith, get-delete i₀ i₀ reg.peer_to_rooms, text_beq_refl i₀) in
        cc (rw (k, gone) at h)
  ]

  module _ (i : Text) (apart : (i₀ == i) ≡ false) where
    leave_previous-listed_other :
        (w : Text) (o : Option Text)
        → has w i (leave_previous i₀ w₀ o reg).world_to_peers ≡ has w i reg.world_to_peers
    unfolding leave_previous
    leave_previous-listed_other w none = refl
    leave_previous-listed_other w (some p) =
        ground (arith, has-remove_from_index i₀ p i w reg.world_to_peers)

    leave_previous-roomed_other :
        (o : Option Text)
        → get i (leave_previous i₀ w₀ o reg).peer_to_rooms ≡ get i reg.peer_to_rooms
    unfolding leave_previous
    leave_previous-roomed_other none = refl
    leave_previous-roomed_other (some p) = ground (arith, get-delete i₀ i reg.peer_to_rooms)

    leave_previous-world :
        (o : Option Text)
        → get i (leave_previous i₀ w₀ o reg).peer_to_world ≡ get i reg.peer_to_world
    unfolding leave_previous
    leave_previous-world none = refl
    leave_previous-world (some p) = ground arith

occupied-add : (x : Text) (s : List Text) → is_empty (add_element x s) ≡ false
unfolding add_element includes
occupied-add x [] = refl
occupied-add x (y ∷ s) = ground arith

-- A connection keeps the maps consistent.
pub on_peer_connected-IsConsistent :
    (prefixes : RoomPrefixes) (id room : Text) (reg : PeersRegistry)
    → IsConsistent prefixes reg
    → IsConsistent prefixes (on_peer_connected prefixes id room reg)
unfolding on_peer_connected join_room is_in_world add_to_index elements
on_peer_connected-IsConsistent prefixes id room reg c = record {
  listed = λ i w. elim (Bool-cases (i₀ == i)) [
    | inl h ↦
        subst
          (λ (j : Text). has w j after.world_to_peers ≡ is_in_world (get j after.peer_to_world) w)
          (text_beq_sound i₀ i h) (listed_self w)
    | inr h ↦ ground (
      arith,
      h,
      has-add_to_index i₀ w₀ i w left.world_to_peers,
      get-set i₀ i w₀ left.peer_to_world,
      leave_previous-listed_other prefixes i₀ w₀ reg c i h w prev,
      leave_previous-world prefixes i₀ w₀ reg c i h prev,
      c.listed i w,
    )
  ];
  roomed = λ i r k. elim (Bool-cases (i₀ == i)) [
    | inl h ↦
        subst
          (λ (j : Text).
            has j r after.peer_to_rooms ≡ true
            → is_in_world (get j after.peer_to_world) (extract_world_name prefixes r) ≡ true)
          (text_beq_sound i₀ i h) (roomed_self r) k
    | inr h ↦
        let kept = leave_previous-roomed_other prefixes i₀ w₀ reg c i h prev in
        ground (
          arith,
          h,
          k,
          has-add_to_index room i₀ r i left.peer_to_rooms,
          get-set i₀ i w₀ left.peer_to_world,
          ap (λ (t : Option (List Text)). includes r (elements t)) kept,
          leave_previous-world prefixes i₀ w₀ reg c i h prev,
          c.roomed i r,
        )
  ];
  occupied = λ i. elim (Bool-cases (i₀ == i)) [
    | inl h ↦ ground (
      arith,
      h,
      get-set i₀ i w₀ left.peer_to_world,
      get-set i₀ i rooms left.peer_to_rooms,
      occupied-add room (elements (get i₀ left.peer_to_rooms)),
    )
    | inr h ↦
        let kept = leave_previous-roomed_other prefixes i₀ w₀ reg c i h prev in
        ground (
          arith,
          h,
          get-set i₀ i w₀ left.peer_to_world,
          get-set i₀ i rooms left.peer_to_rooms,
          ap (λ (t : Option (List Text)). is_empty (elements t)) kept,
          leave_previous-world prefixes i₀ w₀ reg c i h prev,
          c.occupied i,
        )
  ];
}
  where
    i₀ : Text
    i₀ = lower_case id

    w₀ : Text
    w₀ = extract_world_name prefixes room

    prev : Option Text
    prev = get i₀ reg.peer_to_world

    left : PeersRegistry
    left = leave_previous i₀ w₀ prev reg

    rooms : List Text
    rooms = add_element room (elements (get i₀ left.peer_to_rooms))

    after : PeersRegistry
    after = on_peer_connected prefixes id room reg

    listed_self :
        (w : Text) → has w i₀ after.world_to_peers ≡ is_in_world (get i₀ after.peer_to_world) w
    listed_self w = ground (
      arith,
      has-add_to_index i₀ w₀ i₀ w left.world_to_peers,
      get-set i₀ i₀ w₀ left.peer_to_world,
      leave_previous-listed prefixes i₀ w₀ reg c w prev refl,
      text_beq_refl i₀,
    )

    roomed_self :
        (r : Text)
        → has i₀ r after.peer_to_rooms ≡ true
        → is_in_world (get i₀ after.peer_to_world) (extract_world_name prefixes r) ≡ true
    roomed_self r k =
        rw (get-set, text_beq_refl)
          (text_beq_complete w₀ (extract_world_name prefixes r)
            (elim (or_true _ _ (sym (has-add_to_index room i₀ r i₀ left.peer_to_rooms) ∙ k)) [
              | inl held ↦ leave_previous-roomed prefixes i₀ w₀ reg c r prev refl held
              | inr new ↦
                  ap (extract_world_name prefixes) (text_beq_sound room r (and_true _ _ new).1)
            ]))
