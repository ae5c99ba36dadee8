-- ===== src/Prelude/Map.antt =====
-- Maps and sets of texts: JavaScript's `Map` and `Set`, as lists in the order of insertion.
use mathlib.Core.Path.{◌≡◌, refl, ap, ◌∙◌}
use mathlib.Core.Bool.{not, ◌&&◌, ◌||◌}
use mathlib.Core.Option.{Option, none, some}
use mathlib.Core.List.{List, [], ◌∷◌, ◌++◌}
use mathlib.Core.Logic.{inl, inr}
use native.Mathlib.Omega.{arith}
use worlds_content_server.Prelude.Tests.{if◌then◌else◌, Bool-cases}
use worlds_content_server.Prelude.Eq.{◌==◌, text_eq, text_beq_iff, text_beq_sym}
use worlds_content_server.Prelude.Lists.{filter, includes, includes-append, includes-filter}
use worlds_content_server.Prelude.Text.{Text}

abbrev pub Map {ℓ} : Type ℓ → Type ℓ
Map A = List (Text × A)

module _ {ℓ} {A : Type ℓ} where
  -- `map.get(key)`.
  unfoldable pub get : Text → Map A → Option A
  get k [] = none
  get k (e ∷ m) = if e.0 == k then some e.1 else get k m

  -- `map.set(key, value)`: a key that is there keeps its place.
  unfoldable pub set : Text → A → Map A → Map A
  set k v [] = (k, v) ∷ []
  set k v (e ∷ m) = if e.0 == k then (k, v) ∷ m else e ∷ set k v m

  -- `map.delete(key)`.
  unfoldable pub delete : Text → Map A → Map A
  unfolding filter
  delete k m = filter (λ e. not (e.0 == k)) m

  pub get-set :
      (k j : Text) (v : A) (m : Map A) → get j (set k v m) ≡ (if k == j then some v else get j m)
  unfolding get set
  get-set k j v [] = refl
  get-set k j v (e ∷ m) =
      ground (arith, get-set k j v m, text_beq_iff e.0 k, text_beq_iff e.0 j, text_beq_iff k j)

  pub get-delete :
      (k j : Text) (m : Map A) → get j (delete k m) ≡ (if k == j then none else get j m)
  unfolding get delete
  get-delete k j [] = ground arith
  get-delete k j (e ∷ m) =
      ground (arith, get-delete k j m, text_beq_iff e.0 k, text_beq_iff e.0 j, text_beq_iff k j)

-- `set.add(x)` and `set.delete(x)`.
unfoldable pub add_element : Text → List Text → List Text
add_element x s = if includes x s then s else s ++ x ∷ []

unfoldable pub delete_element : Text → List Text → List Text
delete_element x s = filter (λ y. not (y == x)) s

pub includes-add_element :
    (x y : Text) (s : List Text) → includes y (add_element x s) ≡ (includes y s || x == y)
unfolding add_element includes
includes-add_element x y s = elim (Bool-cases (x == y)) [
  | inl e ↦ ground (arith, includes-append y s (x ∷ []), text_beq_iff x y)
  | inr e ↦ ground (arith, includes-append y s (x ∷ []))
]

pub includes-delete_element :
    (x y : Text) (s : List Text) → includes y (delete_element x s) ≡ (includes y s && not (x == y))
unfolding delete_element
includes-delete_element x y s =
    includes-filter y (λ z. not (z == x)) s ∙ ap (λ b. includes y s && not b) (text_beq_sym y x)
