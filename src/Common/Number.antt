-- ===== src/Common/Number.antt =====
-- Numbers of the runtime: a JavaScript number is an IEEE 754 double, so a sum or difference of
-- integers is rounded to 53 significant bits; a `bigint` column holds 64-bit signed integers.
use distributed_ledger_and_t.Prelude.{
  ℕ, zero, suc, ℤ, pos, negsuc, sub_ℕ, ◌+ℤ◌, ◌-ℤ◌, ◌≤ℤ◌, leb_ℤ, ◌+◌, ◌*◌, ◌/◌, ◌%◌, ◌^◌, ◌≡◌, refl,
  Bool, true, false, ◌&&◌, ◌||◌, ltb, eqb, if◌then◌else◌, arith,
}

-- 2^53
abbrev pub significand : ℕ
significand = 9007199254740992

-- Number.MAX_SAFE_INTEGER
abbrev pub max_safe_integer : ℤ
max_safe_integer = pos 9007199254740991

-- How many low bits a double drops from `n`; the first argument is fuel, and `n` is enough.
dropped_bits : ℕ → ℕ → ℕ
dropped_bits zero n = 0
dropped_bits (suc fuel) n = elim (ltb n significand) [
  | true ↦ 0
  | false ↦ suc (dropped_bits fuel (n / 2))
]

-- `n` rounded to a multiple of `unit`, ties to an even quotient.
round_to : ℕ → ℕ → ℕ
round_to unit n =
    let q = n / unit in
    let r = n % unit in
    if ltb unit (2 * r) || (eqb unit (2 * r) && eqb (q % 2) 1) then (q + 1) * unit else q * unit

round_ℕ : ℕ → ℕ
unfolding dropped_bits round_to
round_ℕ n = elim (ltb n significand) [ true ↦ n | false ↦ round_to (2 ^ dropped_bits n n) n ]

-- The double nearest to an integer.
unfoldable pub round : ℤ → ℤ
unfolding round_ℕ
round (pos n) = pos (round_ℕ n)
round (negsuc n) = sub_ℕ 0 (round_ℕ (suc n))

-- `a + b` and `a - b` on numbers.
unfoldable pub add_number : ℤ → ℤ → ℤ
unfolding round ◌+ℤ◌
add_number a b = round (a +ℤ b)

unfoldable pub sub_number : ℤ → ℤ → ℤ
unfolding round ◌-ℤ◌
sub_number a b = round (a -ℤ b)

-- Whether a value is in range for a `bigint` column.
abbrev pub fits_bigint : ℤ → Bool
fits_bigint a = leb_ℤ (negsuc 9223372036854775807) a && leb_ℤ a (pos 9223372036854775807)

round-safe : (a : ℤ) → pos 0 ≤ℤ a → a ≤ℤ max_safe_integer → round a ≡ a
unfolding round
round-safe (pos n) lo hi = ground arith
round-safe (negsuc n) lo hi = absurd (omega arith)

round_nonneg : (a : ℤ) → pos 0 ≤ℤ a → pos 0 ≤ℤ round a
unfolding round
round_nonneg (pos n) lo = omega arith
round_nonneg (negsuc n) lo = absurd (omega arith)

-- A sum that is a safe integer is exact.
pub add_number-safe :
    (a b : ℤ) → pos 0 ≤ℤ a +ℤ b → a +ℤ b ≤ℤ max_safe_integer → add_number a b ≡ a +ℤ b
unfolding add_number
add_number-safe a b lo hi = round-safe (a +ℤ b) lo hi

pub sub_number-safe :
    (a b : ℤ) → pos 0 ≤ℤ a -ℤ b → a -ℤ b ≤ℤ max_safe_integer → sub_number a b ≡ a -ℤ b
unfolding sub_number
sub_number-safe a b lo hi = round-safe (a -ℤ b) lo hi

-- Rounding does not cross zero.
pub add_number_nonneg : (a b : ℤ) → pos 0 ≤ℤ a +ℤ b → pos 0 ≤ℤ add_number a b
unfolding add_number
add_number_nonneg a b lo = round_nonneg (a +ℤ b) lo

pub sub_number_nonneg : (a b : ℤ) → pos 0 ≤ℤ a -ℤ b → pos 0 ≤ℤ sub_number a b
unfolding sub_number
sub_number_nonneg a b lo = round_nonneg (a -ℤ b) lo

-- 2^53 + 1 is no double: the tie goes to the even neighbour below.
add_number_rounds : add_number (pos 9007199254740992) (pos 1) ≡ pos 9007199254740992
unfolding add_number
add_number_rounds = refl

add_number_rounds_up : add_number (pos 9007199254740992) (pos 3) ≡ pos 9007199254740996
unfolding add_number
add_number_rounds_up = refl
