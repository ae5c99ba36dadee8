-- ===== src/Coordinates/Canonical.antt =====
-- The canonical form of a parcel: `canonicalizeParcel` of src/logic/coordinates/component.ts.
use mathlib.Core.Path.{ap₂}
use worlds_content_server.Prelude.{
  ◌≡◌, sym, ap, ◌∙◌, Option, none, some, Option-cases, inl, inr, ◌↔◌,
}
use worlds_content_server.Prelude.Double.{IsExact}
use worlds_content_server.Prelude.Int.{ℤ}
use worlds_content_server.Prelude.Text.{Text}
use worlds_content_server.Prelude.Number.{exact_int}
use worlds_content_server.Prelude.Number.Reading.{exact_int-number_text_self, parse_int-IsExact}
use worlds_content_server.Coordinates.{parcel_match, canonicalize_parcel}
use worlds_content_server.Coordinates.Matching.{coordinate_text, parcel_match-coordinate_text}

-- The two integers that a parcel writes, if it is written as a coordinate, however large.
abbrev pub parcel_value : Text → Option (Option ℤ × Option ℤ)
parcel_value p = elim (parcel_match p) [
  | none ↦ none
  | some (a, b) ↦ some (exact_int a, exact_int b)
]

parcel_value_of_match :
    (p a b : Text) → parcel_match p ≡ some (a, b) → parcel_value p ≡ some (exact_int a, exact_int b)
parcel_value_of_match p a b h = rw (parcel_value, h)

parcel_value-coordinate_text :
    (x y : ℤ) → IsExact x → IsExact y → parcel_value (coordinate_text x y) ≡ some (some x, some y)
parcel_value-coordinate_text x y h k =
    rw (parcel_value, parcel_match-coordinate_text x y h k)
      (rw (exact_int-number_text_self x h, exact_int-number_text_self y k))

-- A parcel that writes two integers up to 2 ^ 53 has the form that they print to.
pub canonicalize-value :
    (p : Text) (x y : ℤ)
    → parcel_value p ≡ some (some x, some y)
    → IsExact x
    → IsExact y
    → canonicalize_parcel p ≡ coordinate_text x y
unfolding canonicalize_parcel
canonicalize-value p x y v h k = elim (Option-cases (parcel_match p)) [
  | inl e ↦ cc (rw (parcel_value, e) at v)
  | inr ((a, b), e) ↦
      let same = sym (parcel_value_of_match p a b e) ∙ v in
      rw (canonicalize_parcel, e)
        (rw (parse_int-IsExact a x (cc same) h, parse_int-IsExact b y (cc same) k))
]

-- Two parcels that write integers of at most 2 ^ 53, which a double holds exactly, have the same
-- canonical form exactly when they write the same integers: comparing canonical texts is then
-- comparing parcels by value.
pub canonicalize-eq_iff :
    (p q : Text) (x y x' y' : ℤ)
    → parcel_value p ≡ some (some x, some y)
    → parcel_value q ≡ some (some x', some y')
    → IsExact x × IsExact y
    → IsExact x' × IsExact y'
    → (canonicalize_parcel p ≡ canonicalize_parcel q) ↔ ((x ≡ x') × (y ≡ y'))
canonicalize-eq_iff p q x y x' y' hp hq (h, k) (h', k') =
    let form = canonicalize-value p x y hp h k in
    let form' = canonicalize-value q x' y' hq h' k' in
    let values = λ (e : canonicalize_parcel p ≡ canonicalize_parcel q).
      sym (parcel_value-coordinate_text x y h k)
      ∙ ap parcel_value (sym form ∙ e ∙ form')
      ∙ parcel_value-coordinate_text x' y' h' k' in
    (
      λ e. let same = values e in (cc same, cc same),
      λ (e, f). form ∙ ap₂ coordinate_text e f ∙ sym form',
    )
