-- ===== src/Prelude/Double.antt =====
-- JavaScript numbers that hold integers: a whole number is rounded to the nearest double, ties to
-- even. The integers up to 2 ^ 53 are doubles themselves; 2 ^ 1024, which no double reaches, stands
-- for Infinity.
use Prim.Native.Nat.{ℕ, zero, suc, ◌+◌, ◌*◌, ◌/◌, ◌%◌, ◌-◌, ◌^◌, ◌≤◌}
use mathlib.Core.Path.{◌≡◌, refl, ap}
use mathlib.Core.Bool.{true, false, ◌&&◌, ◌||◌}
use native.Mathlib.Omega.{arith}
use worlds_content_server.Prelude.Tests.{ltb, leb, nat_beq, if◌then◌else◌}
use worlds_content_server.Prelude.Int.{ℤ, pos, negsuc}

abbrev pub max_exact : ℕ
max_exact = 9007199254740992

unfoldable pub infinity : ℕ
infinity = 2 ^ 1024

-- The distance of the doubles next to `n`: a power of two that leaves `n` below 2 ^ 53 units. Below
-- 2 ^ 1024 it is at most 2 ^ 971.
unfoldable pub spacing : (fuel unit n : ℕ) → ℕ
spacing zero unit n = unit
spacing (suc fuel) unit n = elim (ltb n (max_exact * unit)) [
  | true ↦ unit
  | false ↦ spacing fuel (2 * unit) n
]

unfoldable pub nearest : (unit n : ℕ) → ℕ
nearest unit n =
    if ltb unit (2 * (n % unit)) || nat_beq unit (2 * (n % unit)) && nat_beq (n / unit % 2) 1
    then (n / unit + 1) * unit
    else n / unit * unit

-- From half a unit below 2 ^ 1024 on, the nearest double is Infinity.
unfoldable pub round_ℕ : ℕ → ℕ
unfolding infinity spacing nearest
round_ℕ n = elim (leb n max_exact) [
  | true ↦ n
  | false ↦ elim (leb (2 ^ 1024 - 2 ^ 970) n) [
    | true ↦ infinity
    | false ↦ nearest (spacing 972 1 n) n
  ]
]

unfoldable pub round_ℤ : ℤ → ℤ
unfolding round_ℕ
round_ℤ (pos n) = pos (round_ℕ n)
round_ℤ (negsuc n) = negsuc (round_ℕ (suc n) - 1)

-- The integers that are read and printed exactly.
abbrev pub IsExact : ℤ → Type 0
IsExact (pos n) = n ≤ max_exact
IsExact (negsuc n) = suc n ≤ max_exact

round_ℕ-exact : (n : ℕ) → n ≤ max_exact → round_ℕ n ≡ n
unfolding round_ℕ
round_ℕ-exact n h = ground arith

pub round_ℤ-IsExact : (z : ℤ) → IsExact z → round_ℤ z ≡ z
unfolding round_ℤ
round_ℤ-IsExact (pos n) h = rw (round_ℕ-exact n h) refl
round_ℤ-IsExact (negsuc n) h = rw (round_ℕ-exact (suc n) h) (ap negsuc (omega arith))
