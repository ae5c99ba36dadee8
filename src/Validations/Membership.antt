-- ===== src/Validations/Membership.antt =====
-- The comparison of sets in `createValidateScenePointers` of src/logic/validations/scene.ts is one of
-- members.
use worlds_content_server.Prelude.{
  ◌≡◌, refl, sym, ap, ◌∙◌, Bool, true, false, ◌||◌, List, [], ◌∷◌, ◌++◌, ◌==◌, arith, Bool-cases,
  inl, inr,
}
use worlds_content_server.Prelude.Eq.{text_eq, nat_eq, text_beq_iff, text_beq_sym}
use worlds_content_server.Prelude.Lists.{
  length, filter, all, includes, length-filter_le, includes-append,
}
use worlds_content_server.Prelude.Map.{add_element, includes-add_element}
use worlds_content_server.Prelude.Text.{Text}
use worlds_content_server.Permissions.Counting.{
  distinct, included, count_in, count_in-eq-length_iff,
}
use worlds_content_server.Validations.Sets.{add_all, unique, same_set}

distinct-append :
    (x : Text) (s : List Text)
    → distinct s ≡ true
    → includes x s ≡ false
    → distinct (s ++ x ∷ []) ≡ true
unfolding distinct includes
distinct-append x [] d h = refl
distinct-append x (y ∷ s) d h =
    ground (arith, distinct-append x s, includes-append y s (x ∷ []), text_beq_sym x y)

distinct-add_element :
    (x : Text) (s : List Text) → distinct s ≡ true → distinct (add_element x s) ≡ true
unfolding add_element
distinct-add_element x s d = ground (arith, distinct-append x s d)

distinct-add_all : (s xs : List Text) → distinct s ≡ true → distinct (add_all s xs) ≡ true
unfolding add_all
distinct-add_all s [] d = d
distinct-add_all s (x ∷ xs) d = distinct-add_all (add_element x s) xs (distinct-add_element x s d)

includes-add_all :
    (y : Text) (s xs : List Text) → includes y (add_all s xs) ≡ (includes y s || includes y xs)
unfolding add_all includes
includes-add_all y s [] = ground arith
includes-add_all y s (x ∷ xs) =
    ground (arith, includes-add_all y (add_element x s) xs, includes-add_element x y s)

all_of_full :
    (p : Text → Bool) (xs : List Text) → length (filter p xs) ≡ length xs → all p xs ≡ true
unfolding filter all
all_of_full p [] h = refl
all_of_full p (x ∷ xs) h = ground (arith, length-filter_le p xs, all_of_full p xs)

includes_of_all :
    (q : Text) (xs ys : List Text)
    → all (λ x. includes x ys) xs ≡ true
    → includes q xs ≡ true
    → includes q ys ≡ true
unfolding all includes
includes_of_all q [] ys h m = cc
includes_of_all q (x ∷ xs) ys h m = elim (Bool-cases (x == q)) [
  | inl e ↦ ap (λ z. includes z ys) (sym ((text_beq_iff x q).0 e)) ∙ ground arith
  | inr e ↦ includes_of_all q xs ys (ground arith) (ground arith)
]

-- As many distinct texts, all of them among the others: then the others are among them.
included_back :
    (us vs : List Text)
    → distinct us ≡ true
    → distinct vs ≡ true
    → length us ≡ length vs
    → included us vs ≡ true
    → all (λ x. includes x us) vs ≡ true
unfolding count_in
included_back us vs du dv same inc =
    all_of_full (λ x. includes x us) vs ((count_in-eq-length_iff vs dv us).1 (du, inc) ∙ same)

same_set_sides :
    (us vs : List Text) → same_set us vs ≡ true → (length us ≡ length vs) × (included us vs ≡ true)
unfolding same_set included
same_set_sides us vs h = ground (arith, h)

agree : (a b : Bool) → (a ≡ true → b ≡ true) → (b ≡ true → a ≡ true) → a ≡ b
agree a b to from = ground arith

-- Two lists of which the sets are the same have the same members.
pub same_set-unique :
    (xs ys : List Text)
    → same_set (unique xs) (unique ys) ≡ true
    → (q : Text) → includes q xs ≡ includes q ys
unfolding includes included distinct
same_set-unique xs ys h q =
    let (same, inc) = same_set_sides (unique xs) (unique ys) h in
    let back =
      included_back (unique xs) (unique ys) (distinct-add_all [] xs refl)
        (distinct-add_all [] ys refl) same inc in
    sym (includes-add_all q [] xs)
    ∙ agree (includes q (unique xs)) (includes q (unique ys))
        (includes_of_all q (unique xs) (unique ys) inc)
        (includes_of_all q (unique ys) (unique xs) back)
    ∙ includes-add_all q [] ys
