-- ===== src/Prelude/Eq.antt =====
-- Boolean equality as an interface: `===` of the source, at each type that it compares.
use Prim.Native.Nat.{ℕ}
use mathlib.Core.Path.{◌≡◌, refl, sym}
use mathlib.Core.Logic.{◌↔◌}
use mathlib.Core.Bool.{Bool, true, false, ◌&&◌}
use mathlib.Core.List.{List, [], ◌∷◌}
use native.Mathlib.Omega.{arith}
use worlds_content_server.Prelude.Tests.{nat_beq, nat_beq_iff, Bool-ext}

-- A test, and that it is true of equal values only.
pub record Eq {ℓ} (A : Type ℓ) : Type ℓ where
  pub same : A → A → Bool
  pub agrees : (x y : A) → (same x y ≡ true) ↔ (x ≡ y)

-- Texts are lists of UTF-16 code units.
unfoldable pub text_beq : List ℕ → List ℕ → Bool
text_beq [] [] = true
text_beq [] (b ∷ bs) = false
text_beq (a ∷ as') [] = false
text_beq (a ∷ as') (b ∷ bs) = nat_beq a b && text_beq as' bs

pub text_beq_refl : (a : List ℕ) → text_beq a a ≡ true
unfolding text_beq
text_beq_refl [] = refl
text_beq_refl (a ∷ as') = ground (arith, text_beq_refl as')

pub text_beq_sound : (a b : List ℕ) → text_beq a b ≡ true → a ≡ b
unfolding text_beq
text_beq_sound [] [] h = refl
text_beq_sound [] (b ∷ bs) h = cc
text_beq_sound (a ∷ as') [] h = cc
text_beq_sound (a ∷ as') (b ∷ bs) h = ground (arith, text_beq_sound as' bs)

pub text_beq_complete : (a b : List ℕ) → a ≡ b → text_beq a b ≡ true
text_beq_complete a b h = rw h (text_beq_refl b)

pub text_beq_iff : (a b : List ℕ) → (text_beq a b ≡ true) ↔ (a ≡ b)
text_beq_iff a b = (text_beq_sound a b, text_beq_complete a b)

pub text_beq_sym : (a b : List ℕ) → text_beq a b ≡ text_beq b a
text_beq_sym a b =
    Bool-ext (text_beq a b) (text_beq b a) (λ h. text_beq_complete b a (sym (text_beq_sound a b h)))
      (λ h. text_beq_complete a b (sym (text_beq_sound b a h)))

instance abbrev pub text_eq : Eq (List ℕ)
text_eq = record { same = text_beq; agrees = text_beq_iff }

instance abbrev pub nat_eq : Eq ℕ
nat_eq = record { same = nat_beq; agrees = nat_beq_iff }

module _ {κ} {C : Type κ} ⦃class : Eq C⦄ where
  infix 50 ◌==◌
  abbrev pub ◌==◌ : C → C → Bool
  x == y = class.same x y
