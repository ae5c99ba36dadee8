-- ===== src/Prelude/Result.antt =====
-- Fallible code: a value, or the error that the source throws.
use mathlib.Core.Path.{◌≡◌, refl, sym, ap, ◌∙◌, subst}
use mathlib.Core.Bool.{Bool, true, false}
use mathlib.Core.List.{List, [], ◌∷◌, Memᴰ}

pub data Result {ℓ κ} (E : Type ℓ) (A : Type κ) : Type (ℓ ⊔ κ) where
  ok : A → Result E A
  err : E → Result E A

module _ {ℓ κ μ} {E : Type ℓ} {A : Type κ} {B : Type μ} where
  infixl 5 ◌>>=◌
  abbrev pub ◌>>=◌ : Result E A → (A → Result E B) → Result E B
  ok a >>= f = f a
  err e >>= f = err e

  -- A sequence that succeeds did so in both of its steps.
  pub >>=-eq-ok :
      (first : Result E A) (next : A → Result E B) {y : B}
      → (first >>= next) ≡ ok y
      → (x : A) × (first ≡ ok x) × (next x ≡ ok y)
  >>=-eq-ok (err e) next succeeds = cc
  >>=-eq-ok (ok x) next succeeds = (x, refl, succeeds)

module _ {ℓ κ} {E : Type ℓ} {B : Type κ} where
  infixl 5 ◌>>◌
  abbrev pub ◌>>◌ : Result E (Unit {0}) → Result E B → Result E B
  ok u >> k = k
  err e >> k = err e

abbrev pub guard {ℓ} : {E : Type ℓ} → Bool → E → Result E (Unit {0})
guard true e = ok tt
guard false e = err e

-- `xs.map(f)` where `f` may throw: the first error leaves the loop.
module _ {ℓ κ μ} {E : Type ℓ} {A : Type κ} {B : Type μ} where
  unfoldable pub map_result : (A → Result E B) → List A → Result E (List B)
  map_result f [] = ok []
  map_result f (x ∷ xs) = let rest = map_result f xs in f x >>= λ y. rest >>= λ ys. ok (y ∷ ys)

module _ {ℓ κ} {E : Type ℓ} {A : Type κ} where
  pub ok_inj : {a b : A} → ◌≡◌ {A = Result E A} (ok a) (ok b) → a ≡ b
  ok_inj h = cc

module _ {ℓ κ μ} {E : Type ℓ} {A : Type κ} {B : Type μ} (f : A → Result E B) where
  -- Each element of a mapped list comes from one of the list, and the other way round.
  pub map_result_to :
      (xs : List A) (ys : List B) {x : A}
      → map_result f xs ≡ ok ys
      → Memᴰ x xs
      → (y : B) × Memᴰ y ys × (f x ≡ ok y)
  unfolding map_result
  map_result_to [] ys h m = elim m [ ]
  map_result_to (z ∷ xs) ys h m =
      let (y, found, h') = >>=-eq-ok (f z) _ h in
      let (rest, mapped, h'') = >>=-eq-ok (map_result f xs) _ h' in
      go y rest found (ok_inj h'') m (map_result_to xs rest mapped)
    where
      go :
          (y : B) (rest : List B)
          → f z ≡ ok y
          → y ∷ rest ≡ ys
          → {x : A} → Memᴰ x (z ∷ xs)
          → (Memᴰ x xs → (w : B) × Memᴰ w rest × (f x ≡ ok w))
          → (w : B) × Memᴰ w ys × (f x ≡ ok w)
      go y rest found e (Memᴰ.head same) later =
          (y, subst (Memᴰ y) e (Memᴰ.head refl), ap f same ∙ found)
      go y rest found e (Memᴰ.tail k) later =
          let (w, n, g) = later k in (w, subst (Memᴰ w) e (Memᴰ.tail n), g)

  pub map_result_from :
      (xs : List A) (ys : List B) {y : B}
      → map_result f xs ≡ ok ys
      → Memᴰ y ys
      → (x : A) × Memᴰ x xs × (f x ≡ ok y)
  unfolding map_result
  map_result_from [] ys {y} h m = elim (subst (Memᴰ y) (sym (ok_inj h)) m) [ ]
  map_result_from (z ∷ xs) ys {y} h m =
      let (w, found, h') = >>=-eq-ok (f z) _ h in
      let (rest, mapped, h'') = >>=-eq-ok (map_result f xs) _ h' in
      go w rest found (subst (Memᴰ y) (sym (ok_inj h'')) m) (map_result_from xs rest mapped)
    where
      go :
          (w : B) (rest : List B)
          → f z ≡ ok w
          → {v : B} → Memᴰ v (w ∷ rest)
          → (Memᴰ v rest → (x : A) × Memᴰ x xs × (f x ≡ ok v))
          → (x : A) × Memᴰ x (z ∷ xs) × (f x ≡ ok v)
      go w rest found (Memᴰ.head same) later = (z, Memᴰ.head refl, found ∙ ap ok (sym same))
      go w rest found (Memᴰ.tail k) later = let (x, n, g) = later k in (x, Memᴰ.tail n, g)
