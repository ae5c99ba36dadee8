-- ===== src/Prelude/Positions.antt =====
-- Lists read and written by position, and sums over a list.
use Prim.Native.Nat.{ℕ, zero, suc, ◌+◌, ◌≤◌}
use mathlib.Core.Path.{◌≡◌, refl, ap, subst}
use mathlib.Core.Logic.{◌⊎◌, inl, inr}
use mathlib.Core.Option.{Option, none, some}
use mathlib.Core.List.{List, [], ◌∷◌, ◌++◌}
use native.Mathlib.Omega.{arith}
use worlds_content_server.Prelude.Tests.{some_inj}
use worlds_content_server.Prelude.Lists.{All, length}

module _ {ℓ} {A : Type ℓ} where
  unfoldable pub get_elem? : List A → ℕ → Option A
  get_elem? [] n = none
  get_elem? (x ∷ xs) zero = some x
  get_elem? (x ∷ xs) (suc n) = get_elem? xs n

  unfoldable pub update_at : ℕ → A → List A → List A
  update_at n y [] = []
  update_at zero y (x ∷ xs) = y ∷ xs
  update_at (suc n) y (x ∷ xs) = x ∷ update_at n y xs

  pub length-update_at : (xs : List A) (n : ℕ) (y : A) → length (update_at n y xs) ≡ length xs
  unfolding update_at
  length-update_at [] n y = refl
  length-update_at (x ∷ xs) zero y = refl
  length-update_at (x ∷ xs) (suc n) y = ap suc (length-update_at xs n y)

  -- What an additive measure gains by an update.
  unfoldable pub total : (A → ℕ) → List A → ℕ
  total f [] = 0
  total f (x ∷ xs) = f x + total f xs

  pub total-append : (f : A → ℕ) (xs ys : List A) → total f (xs ++ ys) ≡ total f xs + total f ys
  unfolding total
  total-append f [] ys = omega arith
  total-append f (x ∷ xs) ys = omega (arith, total-append f xs ys)

  pub total-update_at :
      (f : A → ℕ) (xs : List A) (n : ℕ) {x : A} (y : A)
      → get_elem? xs n ≡ some x
      → total f (update_at n y xs) + f x ≡ total f xs + f y
  unfolding total update_at get_elem?
  total-update_at f [] n y e = cc
  total-update_at f (x ∷ xs) zero y e = ground arith
  total-update_at f (x ∷ xs) (suc n) y e = omega (arith, total-update_at f xs n y e)

  pub total_member :
      (f : A → ℕ) (xs : List A) (n : ℕ) {x : A} → get_elem? xs n ≡ some x → f x ≤ total f xs
  unfolding total get_elem?
  total_member f [] n e = cc
  total_member f (x ∷ xs) zero e = ground arith
  total_member f (x ∷ xs) (suc n) e = omega (arith, total_member f xs n e)

  pub total_zero :
      (f : A → ℕ) (P : A → Type 0)
      → ((x : A) → P x → f x ≡ 0)
      → (xs : List A) → All P xs
      → total f xs ≡ 0
  unfolding total
  total_zero f P h [] k = refl
  total_zero f P h (x ∷ xs) k = omega (arith, h x k.0, total_zero f P h xs k.1)

  pub get_elem?-append :
      (xs : List A) (x : A) (ys : List A) → get_elem? (xs ++ x ∷ ys) (length xs) ≡ some x
  unfolding get_elem?
  get_elem?-append [] x ys = refl
  get_elem?-append (z ∷ xs) x ys = get_elem?-append xs x ys

  pub update_at-append :
      (xs : List A) (x y : A) (ys : List A) → update_at (length xs) y (xs ++ x ∷ ys) ≡ xs ++ y ∷ ys
  unfolding update_at
  update_at-append [] x y ys = refl
  update_at-append (z ∷ xs) x y ys = ap (λ l. z ∷ l) (update_at-append xs x y ys)

  pub all_update_at :
      (P : A → Type 0) (xs : List A) (n : ℕ) (y : A) → All P xs → P y → All P (update_at n y xs)
  unfolding update_at
  all_update_at P [] n y h p = h
  all_update_at P (x ∷ xs) zero y h p = (p, h.1)
  all_update_at P (x ∷ xs) (suc n) y h p = (h.0, all_update_at P xs n y h.1 p)

  pub all_append_one :
      (P : A → Type 0) (xs : List A) (y : A) → All P xs → P y → All P (xs ++ y ∷ [])
  all_append_one P [] y h p = (p, tt)
  all_append_one P (x ∷ xs) y h p = (h.0, all_append_one P xs y h.1 p)

  pub all_member :
      (P : A → Type 0) (xs : List A) (n : ℕ) {x : A} → get_elem? xs n ≡ some x → All P xs → P x
  unfolding get_elem?
  all_member P [] n e h = cc
  all_member P (x ∷ xs) zero e h = subst P (some_inj e) h.0
  all_member P (x ∷ xs) (suc n) e h = all_member P xs n e h.1

  pub update_at_here :
      (xs : List A) (n : ℕ) {x : A} (y : A)
      → get_elem? xs n ≡ some x
      → get_elem? (update_at n y xs) n ≡ some y
  unfolding get_elem? update_at
  update_at_here [] n y e = cc
  update_at_here (x ∷ xs) zero y e = refl
  update_at_here (x ∷ xs) (suc n) y e = update_at_here xs n y e

  pub update_at_elsewhere :
      (xs : List A) (n m : ℕ) (y : A) {z : A}
      → get_elem? xs m ≡ some z
      → (get_elem? (update_at n y xs) m ≡ some z) ⊎ (n ≡ m)
  unfolding get_elem? update_at
  update_at_elsewhere [] n m y e = cc
  update_at_elsewhere (x ∷ xs) zero zero y e = inr refl
  update_at_elsewhere (x ∷ xs) zero (suc m) y e = inl e
  update_at_elsewhere (x ∷ xs) (suc n) zero y e = inl e
  update_at_elsewhere (x ∷ xs) (suc n) (suc m) y e = elim (update_at_elsewhere xs n m y e) [
    | inl h ↦ inl h
    | inr h ↦ inr (ap suc h)
  ]

  pub update_at_inverts :
      (xs : List A) (n m : ℕ) (y : A) {z : A}
      → get_elem? (update_at n y xs) m ≡ some z
      → (get_elem? xs m ≡ some z) ⊎ (y ≡ z)
  unfolding get_elem? update_at
  update_at_inverts [] n m y e = cc
  update_at_inverts (x ∷ xs) zero zero y e = inr (some_inj e)
  update_at_inverts (x ∷ xs) zero (suc m) y e = inl e
  update_at_inverts (x ∷ xs) (suc n) zero y e = inl e
  update_at_inverts (x ∷ xs) (suc n) (suc m) y e = update_at_inverts xs n m y e

  pub position_exists :
      (xs : List A) (n : ℕ) → suc n ≤ length xs → (x : A) × (get_elem? xs n ≡ some x)
  unfolding get_elem?
  position_exists [] n h = absurd (ground arith)
  position_exists (x ∷ xs) zero h = (x, refl)
  position_exists (x ∷ xs) (suc n) h = position_exists xs n (omega arith)

  pub position_within : (xs : List A) (n : ℕ) {x : A} → get_elem? xs n ≡ some x → suc n ≤ length xs
  unfolding get_elem?
  position_within [] n e = cc
  position_within (x ∷ xs) zero e = omega arith
  position_within (x ∷ xs) (suc n) e = omega (arith, position_within xs n e)

  pub position_beyond : (xs : List A) (n : ℕ) → get_elem? xs n ≡ none → length xs ≤ n
  unfolding get_elem?
  position_beyond [] n e = omega arith
  position_beyond (x ∷ xs) zero e = cc
  position_beyond (x ∷ xs) (suc n) e = omega (arith, position_beyond xs n e)
