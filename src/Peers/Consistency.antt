-- ===== src/Peers/Consistency.antt =====
-- The three maps of src/adapters/peers-registry.ts agree with each other.
use worlds_content_server.Prelude.{
  ◌≡◌, refl, sym, ap, ◌∙◌, Bool, true, false, not, ◌&&◌, ◌||◌, Option, none, some, List, [], ◌∷◌,
  arith, if◌then◌else◌, ◌==◌, Bool-cases, inl, inr,
}
use worlds_content_server.Prelude.Eq.{text_eq, text_beq_iff}
use worlds_content_server.Prelude.Lists.{includes}
use worlds_content_server.Prelude.Text.{Text}
use worlds_content_server.Prelude.Map.{
  Map, get, get-set, get-delete, add_element, delete_element, includes-add_element,
  includes-delete_element,
}
use worlds_content_server.Peers.{
  RoomPrefixes, PeersRegistry, extract_world_name, elements, add_to_index, store_set,
  remove_from_index, is_in_world,
}

abbrev pub has : Text → Text → Map (List Text) → Bool
has key x index = includes x (elements (get key index))

pub has-add_to_index :
    (x key y k : Text) (index : Map (List Text))
    → has k y (add_to_index x key index) ≡ (has k y index || (key == k && x == y))
unfolding add_to_index elements
has-add_to_index x key y k index = ground (
  arith,
  get-set key k (add_element x (elements (get key index))) index,
  includes-add_element x y (elements (get key index)),
  text_beq_iff key k,
)

pub has-store_set :
    (key : Text) (s : List Text) (y k : Text) (index : Map (List Text))
    → has k y (store_set key s index) ≡ (if key == k then includes y s else has k y index)
unfolding store_set elements includes
has-store_set key [] y k index = ground (arith, get-delete key k index)
has-store_set key (x ∷ s) y k index = ground (arith, get-set key k (x ∷ s) index)

pub has-remove_from_index :
    (x key y k : Text) (index : Map (List Text))
    → has k y (remove_from_index x key index) ≡ (has k y index && not (key == k && x == y))
unfolding remove_from_index elements includes
has-remove_from_index x key y k index = go (get key index) refl
  where
    go :
        (o : Option (List Text))
        → get key index ≡ o
        → has k y (elim o [ none ↦ index | some s ↦ store_set key (delete_element x s) index ])
          ≡ (has k y index && not (key == k && x == y))
    go none e = elim (Bool-cases (key == k)) [
      | inl h ↦
          let here : get k index ≡ none =
            ap (λ t. get t index) (sym ((text_beq_iff key k).0 h)) ∙ e in
          rw here refl
      | inr h ↦ ground (arith, h)
    ]
    go (some s) e = elim (Bool-cases (key == k)) [
      | inl h ↦
          let here : get k index ≡ some s =
            ap (λ t. get t index) (sym ((text_beq_iff key k).0 h)) ∙ e in
          rw (has-store_set, h, here, includes-delete_element x y s) refl
      | inr h ↦ ground (arith, has-store_set key (delete_element x s) y k index)
    ]

abbrev pub is_none {ℓ} : {A : Type ℓ} → Option A → Bool
is_none none = true
is_none (some a) = false

abbrev pub is_empty : List Text → Bool
is_empty [] = true
is_empty (x ∷ xs) = false

-- What the maps say of each other: a peer is listed under its own world and no other, it has a
-- room exactly when it has a world, and all its rooms are rooms of that world.
pub record IsConsistent (prefixes : RoomPrefixes) (reg : PeersRegistry) : Type 0 where
  pub listed : (i w : Text) → has w i reg.world_to_peers ≡ is_in_world (get i reg.peer_to_world) w
  pub roomed :
      (i r : Text)
      → has i r reg.peer_to_rooms ≡ true
      → is_in_world (get i reg.peer_to_world) (extract_world_name prefixes r) ≡ true
  pub occupied :
      (i : Text) → is_none (get i reg.peer_to_world) ≡ is_empty (elements (get i reg.peer_to_rooms))
