-- ===== src/BasicFunctions/Copies.antt =====
-- What the two conversions leave in a buffer.
use oly.Prelude.{ℕ, ◌+◌, ◌-◌, ◌≤◌, ◌<◌, ◌≡◌, ◌⊎◌, some, Option, List, length, get_or, Memory}
use oly.StringBuffer.Layout.{StringAt}
use oly.BasicFunctions.{Copy}

-- The documented behaviour of the copies of ICU, for the strings that the converter of the default
-- codepage converts, which may give more or fewer units than there were: the converted string, as far as
-- there is room; a terminator if there is room for one behind it; and no other cell.
pub record IsCopy (convert : List ℕ → Option (List ℕ)) (copy : Copy) : Type 0 where
  pub characters :
      (m : Memory) (p : ℕ) (s t : List ℕ) (n j : ℕ)
      → convert s ≡ some t
      → j < length t
      → j < n
      → copy m p s n (p + j) ≡ get_or t j 0
  pub terminator :
      (m : Memory) (p : ℕ) (s t : List ℕ) (n : ℕ)
      → convert s ≡ some t
      → length t < n
      → copy m p s n (p + length t) ≡ 0
  pub others :
      (m : Memory) (p : ℕ) (s t : List ℕ) (n q : ℕ)
      → convert s ≡ some t
      → (q < p) ⊎ ((p + n ≤ q) ⊎ (p + length t < q))
      → copy m p s n q ≡ m q

-- A buffer of `n` cells at `p`, after the converted string `s` came into it: the whole string is there; or
-- it is too long, and all but the last cell have its beginning. The last cell is as it was, and the
-- terminator stands behind the buffer.
pub data Converted (m r : Memory) (p n : ℕ) (s : List ℕ) : Type 0 where
  whole : length s + 1 < n → StringAt r p s → Converted m r p n s
  cut :
      n ≤ length s + 1
      → ((j : ℕ) → j + 1 < n → r (p + j) ≡ get_or s j 0)
      → r (p + (n - 1)) ≡ m (p + (n - 1))
      → Converted m r p n s

-- What a conversion leaves of the converted string `s`: the buffer by the two cases, a terminator behind
-- it, and all further cells as they were.
abbrev pub Leaves : Memory → ℕ → ℕ → List ℕ → Memory → Type 0
Leaves m p n s r =
    Converted m r p n s × (r (p + n) ≡ 0) × ((q : ℕ) → (q < p) ⊎ (p + n < q) → r q ≡ m q)
