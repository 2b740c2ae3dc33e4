-- ===== src/DataSource/Bits.antt =====
-- The bitwise operators of C on an unsigned int, which the options of a data source are kept in.
use oly.Prelude.{ℕ, zero, suc, ◌+◌, ◌-◌, ◌*◌, ◌/◌, ◌%◌, ◌≡◌, refl, arith}

abbrev pub int_width : ℕ
int_width = 32

-- `x & y` on the lowest `w` bits.
unfoldable pub bit_and : ℕ → ℕ → ℕ → ℕ
bit_and zero x y = 0
bit_and (suc w) x y = (x % 2) * (y % 2) + 2 * bit_and w (x / 2) (y / 2)

-- `x | y`
unfoldable pub bit_or : ℕ → ℕ → ℕ → ℕ
bit_or zero x y = 0
bit_or (suc w) x y = (x % 2 + y % 2 - (x % 2) * (y % 2)) + 2 * bit_or w (x / 2) (y / 2)

pub bit_and_zero : (w x : ℕ) → bit_and w x 0 ≡ 0
unfolding bit_and
bit_and_zero zero x = refl
bit_and_zero (suc w) x = omega (arith, bit_and_zero w (x / 2))

pub bit_and_one : (w x : ℕ) → bit_and (suc w) x 1 ≡ x % 2
unfolding bit_and
bit_and_one w x = omega (arith, bit_and_zero w (x / 2))

pub bit_and_two : (w x : ℕ) → bit_and (suc (suc w)) x 2 ≡ 2 * ((x / 2) % 2)
unfolding bit_and
bit_and_two w x = omega (arith, bit_and_zero w (x / 2 / 2))

-- An option with the number 1 sets the lowest bit.
pub bit_or_one : (w x : ℕ) → bit_or (suc w) x 1 % 2 ≡ 1
unfolding bit_or
bit_or_one w x = omega arith
