-- ===== src/Prelude/Filter.antt =====
-- Members of lists that are filtered or searched.
use mathlib.Core.List.{List, [], ◌∷◌, Memᴰ}
use mathlib.Core.Path.{◌≡◌, sym, ap, ◌∙◌}
use mathlib.Core.Bool.{Bool, true}
use mathlib.Core.Logic.{inl, inr}
use mathlib.Core.Option.{some}
use native.Mathlib.Omega.{arith}
use worlds_content_server.Prelude.Tests.{Bool-cases, some_inj}
use worlds_content_server.Prelude.Lists.{All, filter, find}

pub mem_of_find {ℓ} :
    {A : Type ℓ} (p : A → Bool) (xs : List A) {x : A}
    → find p xs ≡ some x
    → Memᴰ x xs × (p x ≡ true)
unfolding find
mem_of_find p [] h = cc
mem_of_find p (y ∷ xs) h = elim (Bool-cases (p y)) [
  | inl e ↦ let same = some_inj (rw e at h) in (Memᴰ.head (sym same), ap p (sym same) ∙ e)
  | inr e ↦ let (m, q) = mem_of_find p xs (ground (arith, e, h)) in (Memᴰ.tail m, q)
]

kept {ℓ} :
    {A : Type ℓ} (p : A → Bool) (y : A) (xs : List A)
    → p y ≡ true
    → {x : A} → (Memᴰ x (filter p xs) → Memᴰ x xs × (p x ≡ true))
    → Memᴰ x (y ∷ filter p xs)
    → Memᴰ x (y ∷ xs) × (p x ≡ true)
kept p y xs e later (Memᴰ.head same) = (Memᴰ.head same, ap p same ∙ e)
kept p y xs e later (Memᴰ.tail k) = let (m, q) = later k in (Memᴰ.tail m, q)

pub mem_of_filter {ℓ} :
    {A : Type ℓ} (p : A → Bool) (xs : List A) {x : A}
    → Memᴰ x (filter p xs)
    → Memᴰ x xs × (p x ≡ true)
unfolding filter
mem_of_filter p [] m = elim m [ ]
mem_of_filter p (y ∷ xs) m = elim (Bool-cases (p y)) [
  | inl e ↦ kept p y xs e (mem_of_filter p xs) (rw e at m)
  | inr e ↦ let (k, q) = mem_of_filter p xs (rw e at m) in (Memᴰ.tail k, q)
]

pub mem_filter {ℓ} :
    {A : Type ℓ} (p : A → Bool) (xs : List A) {x : A}
    → Memᴰ x xs
    → p x ≡ true
    → Memᴰ x (filter p xs)
unfolding filter
mem_filter p [] m h = elim m [ ]
mem_filter p (y ∷ xs) (Memᴰ.head e) h = rw (sym (ap p e) ∙ h) (Memᴰ.head e)
mem_filter p (y ∷ xs) (Memᴰ.tail m) h = elim (Bool-cases (p y)) [
  | inl e ↦ rw e (Memᴰ.tail (mem_filter p xs m h))
  | inr e ↦ rw e (mem_filter p xs m h)
]

pub All-filter {ℓ κ} :
    {A : Type ℓ} (P : A → Type κ) (p : A → Bool) (ids : List A)
    → ((i : A) → p i ≡ true → P i)
    → All P (filter p ids)
unfolding filter
All-filter P p [] h = tt
All-filter P p (i ∷ ids) h = elim (Bool-cases (p i)) [
  | inl e ↦ rw e (h i e, All-filter P p ids h)
  | inr e ↦ rw e (All-filter P p ids h)
]

pub All-filter_of_All {ℓ κ} :
    {A : Type ℓ} (P : A → Type κ) (p : A → Bool) (ids : List A) → All P ids → All P (filter p ids)
unfolding filter
All-filter_of_All P p [] h = tt
All-filter_of_All P p (i ∷ ids) (k, h) = elim (Bool-cases (p i)) [
  | inl e ↦ rw e (k, All-filter_of_All P p ids h)
  | inr e ↦ rw e (All-filter_of_All P p ids h)
]
