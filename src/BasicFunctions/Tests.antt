-- ===== src/BasicFunctions/Tests.antt =====
-- The conversions at a buffer of three cells and strings that are too long for it; in one direction the
-- converted string is longer than the string.
use oly.Prelude.{
  ℕ, ◌+◌, ◌-◌, Option, some, List, [], ◌∷◌, length, get_or, ltb, leb, ◌&&◌, if◌then◌else◌,
}
use oly.BasicFunctions.{Copy}

abbrev same : List ℕ → List ℕ
same s = s

abbrev marked : List ℕ → List ℕ
marked s = 239 ∷ s

abbrev converts : (List ℕ → List ℕ) → List ℕ → Option (List ℕ)
converts f s = some (f s)

abbrev copy_by : (List ℕ → List ℕ) → Copy
copy_by f m p s n q =
    if leb p q && (ltb q (p + n) && leb q (p + length (f s))) then get_or (f s) (q - p) 0 else m q

abbrev abcd : List ℕ
abcd = b'a' ∷ b'b' ∷ b'c' ∷ b'd' ∷ []
