-- ===== src/Permissions/Counting.antt =====
-- Counting the members of a list of distinct texts that another list holds: the comparison that
-- `checkParcelsAllowed` of src/adapters/permissions-manager.ts makes.
use worlds_content_server.Prelude.{
  ℕ, ◌+◌, ◌≤◌, ◌≡◌, refl, Bool, true, false, not, ◌&&◌, List, [], ◌∷◌, arith, if◌then◌else◌,
  Bool-cases, inl, inr, ◌↔◌,
}
use worlds_content_server.Prelude.Eq.{text_eq, text_beq_iff, text_beq_sym}
use worlds_content_server.Prelude.Lists.{length, filter, includes, all}
use worlds_content_server.Prelude.Text.{Text}

-- No text stands twice in the list.
unfoldable pub distinct : List Text → Bool
distinct [] = true
distinct (x ∷ xs) = not (includes x xs) && distinct xs

-- How many of the texts `xs` stand in `ps`.
unfoldable pub count_in : List Text → List Text → ℕ
count_in ps xs = length (filter (λ x. includes x ps) xs)

-- Every text of `ps` stands in `xs`.
unfoldable pub included : List Text → List Text → Bool
unfolding all
included ps xs = all (λ p. includes p xs) ps

count_in-repeated :
    (p : Text) (ps xs : List Text) → includes p ps ≡ true → count_in (p ∷ ps) xs ≡ count_in ps xs
unfolding count_in filter includes
count_in-repeated p ps [] h = refl
count_in-repeated p ps (x ∷ xs) h = ground (arith, count_in-repeated p ps xs h, text_beq_iff p x)

count_in-new :
    (p : Text) (ps xs : List Text)
    → includes p ps ≡ false
    → distinct xs ≡ true
    → count_in (p ∷ ps) xs ≡ (if includes p xs then count_in ps xs + 1 else count_in ps xs)
unfolding count_in filter includes distinct
count_in-new p ps [] h d = refl
count_in-new p ps (x ∷ xs) h d =
    ground (arith, count_in-new p ps xs h, text_beq_iff p x, text_beq_sym p x)

count_in-nil : (xs : List Text) → count_in [] xs ≡ 0
unfolding count_in filter includes
count_in-nil [] = refl
count_in-nil (x ∷ xs) = count_in-nil xs

module _ (xs : List Text) (d : distinct xs ≡ true) where
  pub count_in_le : (ps : List Text) → count_in ps xs ≤ length ps
  count_in_le [] = omega (arith, count_in-nil xs)
  count_in_le (p ∷ ps) = elim (Bool-cases (includes p ps)) [
    | inl h ↦ omega (arith, count_in-repeated p ps xs h, count_in_le ps)
    | inr h ↦ ground (arith, count_in-new p ps xs h d, count_in_le ps)
  ]

  count_in_full :
      (ps : List Text) → count_in ps xs ≡ length ps → (distinct ps ≡ true) × (included ps xs ≡ true)
  unfolding distinct included
  count_in_full [] e = (refl, refl)
  count_in_full (p ∷ ps) e = elim (Bool-cases (includes p ps)) [
    | inl h ↦ absurd (omega (arith, count_in-repeated p ps xs h, count_in_le ps))
    | inr h ↦ ground (arith, count_in-new p ps xs h d, count_in_le ps, count_in_full ps)
  ]

  count_in-included :
      (ps : List Text) → distinct ps ≡ true → included ps xs ≡ true → count_in ps xs ≡ length ps
  unfolding distinct included
  count_in-included [] h k = count_in-nil xs
  count_in-included (p ∷ ps) h k = ground (arith, count_in-new p ps xs, count_in-included ps)

  -- The count reaches the length exactly when the texts looked for are distinct and all there.
  pub count_in-eq-length_iff :
      (ps : List Text)
      → (count_in ps xs ≡ length ps) ↔ ((distinct ps ≡ true) × (included ps xs ≡ true))
  count_in-eq-length_iff ps = (count_in_full ps, λ h. count_in-included ps h.0 h.1)
