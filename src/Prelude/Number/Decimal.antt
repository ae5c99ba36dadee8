-- ===== src/Prelude/Number/Decimal.antt =====
-- The digits that `${n}` prints are those that `parseInt` reads.
use Prim.Native.Nat.{ℕ, zero, suc, ◌+◌, ◌-◌, ◌*◌, ◌/◌, ◌%◌, ◌<◌}
use mathlib.Core.Path.{◌≡◌, refl, ap}
use mathlib.Core.Logic.{inl, inr}
use mathlib.Core.Bool.{true, false}
use mathlib.Core.List.{[], ◌∷◌, ◌++◌}
use native.Mathlib.Omega.{arith}
use worlds_content_server.Prelude.Tests.{ltb, nat_beq, Bool-cases, ltb→lt}
use worlds_content_server.Prelude.Lists.{All}
use worlds_content_server.Prelude.Text.{Text}
use worlds_content_server.Prelude.Number.{
  is_space, is_digit, digits_value, decimal_loop, decimal, take_digits, drop_digits,
}

abbrev pub IsDigits : Text → Type 0
IsDigits = All (λ c. is_digit c ≡ true)

digits_value-append :
    (acc : ℕ) (s : Text) (c : ℕ)
    → digits_value acc (s ++ c ∷ []) ≡ digits_value acc s * 10 + (c - b'0')
unfolding digits_value
digits_value-append acc [] c = refl
digits_value-append acc (d ∷ s) c = digits_value-append (acc * 10 + (d - b'0')) s c

decimal_loop_value : (fuel n : ℕ) → n < fuel → digits_value 0 (decimal_loop fuel n) ≡ n
unfolding decimal_loop digits_value
decimal_loop_value zero n h = elim h [ ]
decimal_loop_value (suc fuel) n h = ground (
  arith,
  decimal_loop_value fuel (n / 10),
  digits_value-append 0 (decimal_loop fuel (n / 10)) (b'0' + n % 10),
)

pub digits_value-decimal : (n : ℕ) → digits_value 0 (decimal n) ≡ n
unfolding decimal
digits_value-decimal n = decimal_loop_value (suc n) n (omega arith)

IsDigits-append : (s : Text) (c : ℕ) → IsDigits s → is_digit c ≡ true → IsDigits (s ++ c ∷ [])
IsDigits-append [] c h k = (k, tt)
IsDigits-append (d ∷ s) c (p, h) k = (p, IsDigits-append s c h k)

digit_code : (n : ℕ) → n < 10 → is_digit (b'0' + n) ≡ true
unfolding is_digit
digit_code n h = ground arith

decimal_loop-IsDigits : (fuel n : ℕ) → IsDigits (decimal_loop fuel n)
unfolding decimal_loop
decimal_loop-IsDigits zero n = tt
decimal_loop-IsDigits (suc fuel) n = elim (Bool-cases (ltb n 10)) [
  | inl h ↦ rw h (digit_code n (ltb→lt n 10 h), tt)
  | inr h ↦ rw h (
      IsDigits-append (decimal_loop fuel (n / 10)) (b'0' + n % 10)
        (decimal_loop-IsDigits fuel (n / 10)) (digit_code (n % 10) (omega arith)))
]

pub decimal-IsDigits : (n : ℕ) → IsDigits (decimal n)
unfolding decimal
decimal-IsDigits n = decimal_loop-IsDigits (suc n) n

cons_of_append : (s : Text) (c : ℕ) → (d : ℕ) × (t : Text) × (s ++ c ∷ [] ≡ d ∷ t)
cons_of_append [] c = (c, [], refl)
cons_of_append (d ∷ s) c = (d, s ++ c ∷ [], refl)

-- A printed number has a first digit.
pub decimal-cons : (n : ℕ) → (c : ℕ) × (s : Text) × (decimal n ≡ c ∷ s)
unfolding decimal decimal_loop
decimal-cons n = elim (Bool-cases (ltb n 10)) [
  | inl h ↦ (b'0' + n, [], rw h)
  | inr h ↦ rw h (cons_of_append (decimal_loop n (n / 10)) (b'0' + n % 10))
]

pub digit_not_space : (c : ℕ) → is_digit c ≡ true → is_space c ≡ false
unfolding is_digit is_space
digit_not_space c h = ground arith

pub digit_not_sign :
    (c : ℕ) → is_digit c ≡ true → (nat_beq c b'-' ≡ false) × (nat_beq c b'+' ≡ false)
unfolding is_digit
digit_not_sign c h = ground arith

pub take_digits-append : (s r : Text) → IsDigits s → take_digits r ≡ [] → take_digits (s ++ r) ≡ s
unfolding take_digits
take_digits-append [] r h k = k
take_digits-append (c ∷ s) r (p, h) k = rw p (ap (λ t. c ∷ t) (take_digits-append s r h k))

drop_digits_self : (r : Text) → take_digits r ≡ [] → drop_digits r ≡ r
unfolding take_digits drop_digits
drop_digits_self [] k = refl
drop_digits_self (c ∷ r) k = ground arith

pub drop_digits-append : (s r : Text) → IsDigits s → take_digits r ≡ [] → drop_digits (s ++ r) ≡ r
unfolding drop_digits
drop_digits-append [] r h k = drop_digits_self r k
drop_digits-append (c ∷ s) r (p, h) k = rw p (drop_digits-append s r h k)

pub take_digits-IsDigits : (s : Text) → IsDigits (take_digits s)
unfolding take_digits
take_digits-IsDigits [] = tt
take_digits-IsDigits (c ∷ s) = elim (Bool-cases (is_digit c)) [
  | inl h ↦ rw h (h, take_digits-IsDigits s)
  | inr h ↦ rw h tt
]
