-- ===== src/Access/Kicks.antt =====
-- Who is put out when an access setting changes (src/logic/access-change-handler/component.ts and
-- src/logic/participant-kicker/component.ts).
use mathlib.Core.List.{append_assoc, append-nil, Memᴰ}
use worlds_content_server.Prelude.{
  ℕ, zero, suc, ◌≤◌, ◌<◌, ◌≡◌, refl, sym, ap, ◌∙◌, List, [], ◌∷◌, ◌++◌, map, arith,
}
use worlds_content_server.Prelude.Eq.{text_eq}
use worlds_content_server.Prelude.Lists.{All, length, take, drop}
use worlds_content_server.Prelude.Text.{Text}
use worlds_content_server.AccessSetting.{AccessSetting}
use worlds_content_server.Server.{Server, after}
use worlds_content_server.Peers.{PeersRegistry, get_peers_in_world, get_peer_rooms}
use worlds_content_server.Database.{permission_eq}
use worlds_content_server.Access.Checker.{Externals}
use worlds_content_server.Prelude.Filter.{All-filter_of_All}
use worlds_content_server.Access.Outsiders.{IsOutsider, filtered-IsOutsider, IsOutsider-filtered}
use worlds_content_server.Access.Changes.{
  AccessChangeAction, no_kick, kick_all_participants, kick_participants_without_access,
  resolve_action, filter_out_privileged_users, batches, kicks, kick_batches, kick_participants,
  without_access, react, concerned, handle_access_change,
}

kicks-append :
    (reg : PeersRegistry) (as' bs : List Text)
    → kicks reg (as' ++ bs) ≡ kicks reg as' ++ kicks reg bs
unfolding kicks
kicks-append reg [] bs = refl
kicks-append reg (a ∷ as') bs =
    ap (λ (t : List (Text × Text)). map (λ room. (room, a)) (get_peer_rooms a reg) ++ t)
      (kicks-append reg as' bs)
    ∙ sym (
        append_assoc (map (λ room. (room, a)) (get_peer_rooms a reg)) (kicks reg as')
          (kicks reg bs))

take-drop : (n : ℕ) (ids : List Text) → take n ids ++ drop n ids ≡ ids
take-drop zero ids = refl
take-drop (suc n) [] = refl
take-drop (suc n) (i ∷ ids) = ap (λ (t : List Text). i ∷ t) (take-drop n ids)

length-drop : (n : ℕ) (ids : List Text) → length (drop n ids) ≤ length ids
length-drop zero ids = omega arith
length-drop (suc n) [] = omega arith
length-drop (suc n) (i ∷ ids) = omega (arith, length-drop n ids)

none_left : (n : ℕ) → suc n ≤ 0 → ⊥
none_left n h = omega arith

kick_batches-batches :
    (reg : PeersRegistry) (size fuel : ℕ) (ids : List Text)
    → length ids ≤ fuel
    → kick_batches reg (batches fuel (suc size) ids) ≡ kicks reg ids
unfolding kick_batches batches kicks
kick_batches-batches reg size zero [] h = refl
kick_batches-batches reg size zero (i ∷ ids) h = absurd (none_left (length ids) h)
kick_batches-batches reg size (suc fuel) [] h = refl
kick_batches-batches reg size (suc fuel) (i ∷ ids) h =
    ap (λ (t : List (Text × Text)). kicks reg (i ∷ take size ids) ++ t)
      (kick_batches-batches reg size fuel (drop size ids) (omega (arith, length-drop size ids)))
    ∙ sym (kicks-append reg (i ∷ take size ids) (drop size ids))
    ∙ ap (λ (t : List Text). kicks reg (i ∷ t)) (take-drop size ids)

-- With batches of at least one identity, the removals that are tried are those of all rooms of all
-- identities in order, whatever the size of the batches.
pub kick_participants-kicks :
    (size : ℕ) (ids : List Text) (s : Server)
    → 0 < size
    → (after (kick_participants size ids) s).removed ≡ s.removed ++ kicks s.peers ids
kick_participants-kicks zero ids s h = absurd (none_left 0 h)
kick_participants-kicks (suc size) ids s h =
    unfold kick_participants in
    ap (λ (t : List (Text × Text)). s.removed ++ t)
      (kick_batches-batches s.peers size (length ids) ids (omega arith))

-- With batches of at least one identity, a change of access tries to remove some peers from all their
-- rooms, in order, and none of these peers is the world's owner or the address of one of the
-- world's deployment permissions, whatever the case of the letters; a change that is to put out
-- everyone tries it with all other peers of the world.
pub handle_access_change-spares :
    (ext : Externals) (size : ℕ) (world : Text) (prev new : AccessSetting) (s : Server)
    → 0 < size
    → (ids : List Text) × ((after (handle_access_change ext size world prev new) s).removed
        ≡ s.removed ++ kicks s.peers ids)
      × All (IsOutsider ext world s.db) ids
      × (resolve_action prev new ≡ kick_all_participants
          → (i : Text) → Memᴰ i (get_peers_in_world world s.peers)
          → IsOutsider ext world s.db i
          → Memᴰ i ids)
unfolding handle_access_change react concerned kicks
handle_access_change-spares ext size world prev new s h = go (resolve_action prev new)
  where
    go :
        (a : AccessChangeAction)
        → (ids : List Text) × ((after (react ext size a world (concerned ext a world s)) s).removed
            ≡ s.removed ++ kicks s.peers ids)
          × All (IsOutsider ext world s.db) ids
          × (a ≡ kick_all_participants
              → (i : Text) → Memᴰ i (get_peers_in_world world s.peers)
              → IsOutsider ext world s.db i
              → Memᴰ i ids)
    go no_kick = ([], sym (append-nil s.removed), tt, λ e. absurd (cc e))
    go kick_all_participants = (
      _,
      kick_participants-kicks size
          (filter_out_privileged_users ext world (get_peers_in_world world s.peers) s.db) s h,
      filtered-IsOutsider ext world s (get_peers_in_world world s.peers),
      λ _. IsOutsider-filtered ext world s (get_peers_in_world world s.peers),
    )
    go kick_participants_without_access = (
      _,
      kick_participants-kicks size
          (without_access ext world
            (filter_out_privileged_users ext world (get_peers_in_world world s.peers) s.db) s.db)
          s h,
      unfold without_access in
          All-filter_of_All (IsOutsider ext world s.db) _ _
            (filtered-IsOutsider ext world s (get_peers_in_world world s.peers)),
      λ e. absurd (cc e),
    )
