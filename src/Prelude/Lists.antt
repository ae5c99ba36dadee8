-- ===== src/Prelude/Lists.antt =====
-- Lists measured by native numbers, and the Boolean searches of JavaScript arrays.
use Prim.Native.Nat.{ℕ, zero, suc, ◌+◌, ◌≤◌}
use mathlib.Core.Path.{◌≡◌, refl, sym, ap}
use mathlib.Core.Logic.{◌⊎◌, inl, inr}
use mathlib.Core.Bool.{Bool, true, false, ◌&&◌, ◌||◌}
use mathlib.Core.Option.{Option, none, some}
use mathlib.Core.List.{List, [], ◌∷◌, ◌++◌, map, Memᴰ}
use native.Mathlib.Omega.{arith}
use worlds_content_server.Prelude.Tests.{if◌then◌else◌, Bool-cases}
use worlds_content_server.Prelude.Eq.{Eq, ◌==◌}

module _ {ℓ} {A : Type ℓ} where
  abbrev pub length : List A → ℕ
  length [] = 0
  length (x ∷ xs) = suc (length xs)

  abbrev pub take : ℕ → List A → List A
  take zero xs = []
  take (suc n) [] = []
  take (suc n) (x ∷ xs) = x ∷ take n xs

  abbrev pub drop : ℕ → List A → List A
  drop zero xs = xs
  drop (suc n) [] = []
  drop (suc n) (x ∷ xs) = drop n xs

  pub List-cases : (xs : List A) → (xs ≡ []) ⊎ ((x : A) × (r : List A) × (xs ≡ x ∷ r))
  List-cases [] = inl refl
  List-cases (x ∷ xs) = inr (x, xs, refl)

  pub length-append : (xs ys : List A) → length (xs ++ ys) ≡ length xs + length ys
  length-append [] ys = omega arith
  length-append (x ∷ xs) ys = omega (arith, length-append xs ys)

  -- `filter`, `find`, `some` and `every` of an array.
  unfoldable pub filter : (A → Bool) → List A → List A
  filter p [] = []
  filter p (x ∷ xs) = if p x then x ∷ filter p xs else filter p xs

  unfoldable pub find : (A → Bool) → List A → Option A
  find p [] = none
  find p (x ∷ xs) = if p x then some x else find p xs

  unfoldable pub any : (A → Bool) → List A → Bool
  any p [] = false
  any p (x ∷ xs) = p x || any p xs

  unfoldable pub all : (A → Bool) → List A → Bool
  all p [] = true
  all p (x ∷ xs) = p x && all p xs

  abbrev pub head? : List A → Option A
  head? [] = none
  head? (x ∷ xs) = some x

  pub length-filter_le : (p : A → Bool) (xs : List A) → length (filter p xs) ≤ length xs
  unfolding filter
  length-filter_le p [] = omega arith
  length-filter_le p (x ∷ xs) = ground (arith, length-filter_le p xs)

  pub filter-append :
      (p : A → Bool) (xs ys : List A) → filter p (xs ++ ys) ≡ filter p xs ++ filter p ys
  unfolding filter
  filter-append p [] ys = refl
  filter-append p (x ∷ xs) ys = ground (arith, filter-append p xs ys)

  pub any-append : (p : A → Bool) (xs ys : List A) → any p (xs ++ ys) ≡ (any p xs || any p ys)
  unfolding any
  any-append p [] ys = refl
  any-append p (x ∷ xs) ys = ground (arith, any-append p xs ys)

  -- The filter is constant on what the test accepts.
  pub any-filter :
      (p q : A → Bool) (b : Bool) (xs : List A)
      → ((x : A) → q x ≡ true → p x ≡ b)
      → any q (filter p xs) ≡ (any q xs && b)
  unfolding any filter
  any-filter p q b [] h = refl
  any-filter p q b (x ∷ xs) h = ground (arith, any-filter p q b xs h, h x)

  -- A test that a member passes is passed by some member, and the other way round.
  pub any_of_mem : (p : A → Bool) (xs : List A) {x : A} → Memᴰ x xs → p x ≡ true → any p xs ≡ true
  unfolding any
  any_of_mem p [] m h = elim m [ ]
  any_of_mem p (y ∷ xs) (Memᴰ.head e) h = ground (arith, ap p e)
  any_of_mem p (y ∷ xs) (Memᴰ.tail m) h = ground (arith, any_of_mem p xs m h)

  pub mem_of_any :
      (p : A → Bool) (xs : List A) → any p xs ≡ true → (x : A) × Memᴰ x xs × (p x ≡ true)
  unfolding any
  mem_of_any p [] h = cc
  mem_of_any p (y ∷ xs) h = elim (Bool-cases (p y)) [
    | inl e ↦ (y, Memᴰ.head refl, e)
    | inr e ↦ let (x, m, q) = mem_of_any p xs (ground arith) in (x, Memᴰ.tail m, q)
  ]

module _ {ℓ} {A : Type ℓ} where
  abbrev pub All {κ} : (A → Type κ) → List A → Type κ
  All P [] = Unit
  All P (x ∷ xs) = P x × All P xs

module _ {ℓ} {A : Type ℓ} ⦃e : Eq A⦄ where
  -- `xs.includes(a)`.
  unfoldable pub includes : A → List A → Bool
  includes a [] = false
  includes a (x ∷ xs) = x == a || includes a xs

  pub includes-append :
      (a : A) (xs ys : List A) → includes a (xs ++ ys) ≡ (includes a xs || includes a ys)
  unfolding includes
  includes-append a [] ys = refl
  includes-append a (x ∷ xs) ys = ground (arith, includes-append a xs ys)

  pub includes-filter :
      (a : A) (p : A → Bool) (xs : List A) → includes a (filter p xs) ≡ (includes a xs && p a)
  unfolding includes filter
  includes-filter a p [] = refl
  includes-filter a p (x ∷ xs) = elim (Bool-cases (x == a)) [
    | inl h ↦ let q = ap p ((e.agrees x a).0 h) in ground (arith, q, includes-filter a p xs)
    | inr h ↦ ground (arith, includes-filter a p xs)
  ]

  pub includes_of_mem : (a : A) (xs : List A) → Memᴰ a xs → includes a xs ≡ true
  unfolding includes
  includes_of_mem a [] m = elim m [ ]
  includes_of_mem a (x ∷ xs) (Memᴰ.head h) = ground (arith, (e.agrees x a).1 (sym h))
  includes_of_mem a (x ∷ xs) (Memᴰ.tail m) = ground (arith, includes_of_mem a xs m)

  pub mem_of_includes : (a : A) (xs : List A) → includes a xs ≡ true → Memᴰ a xs
  unfolding includes
  mem_of_includes a [] h = cc
  mem_of_includes a (x ∷ xs) h = elim (Bool-cases (x == a)) [
    | inl q ↦ Memᴰ.head (sym ((e.agrees x a).0 q))
    | inr q ↦ Memᴰ.tail (mem_of_includes a xs (ground arith))
  ]

module _ {ℓ κ} {A : Type ℓ} {B : Type κ} (f : A → B) where
  pub mem_map : (xs : List A) {x : A} → Memᴰ x xs → Memᴰ (f x) (map f xs)
  mem_map [] m = elim m [ ]
  mem_map (y ∷ xs) (Memᴰ.head e) = Memᴰ.head (ap f e)
  mem_map (y ∷ xs) (Memᴰ.tail m) = Memᴰ.tail (mem_map xs m)

  pub mem_of_mem_map : (xs : List A) {b : B} → Memᴰ b (map f xs) → (x : A) × Memᴰ x xs × (f x ≡ b)
  mem_of_mem_map [] m = elim m [ ]
  mem_of_mem_map (y ∷ xs) (Memᴰ.head e) = (y, Memᴰ.head refl, sym e)
  mem_of_mem_map (y ∷ xs) (Memᴰ.tail m) = let (x, k, e) = mem_of_mem_map xs m in (x, Memᴰ.tail k, e)
