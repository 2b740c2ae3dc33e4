-- ===== src/StartUp/Environment/Entries.antt =====
-- The strings of the environment that cleanenv builds, and the sizes that it counts for them.
use oly.Prelude.{
  ℕ, zero, suc, ◌+◌, ◌<◌, ◌≡◌, List, [], ◌∷◌, ◌++◌, arith, length, refl, Option, Option-cases, inl,
  inr, some, none, get_or, length-append,
}
use oly.StringBuffer.Layout.{IsText}
use oly.Boundary.Rows.{total}
use oly.StartUp.Environment.{Sizes, count_restricted, count_preserved}

-- The variables that are kept: those of the names that the old environment has.
unfoldable pub preserved : (List ℕ → Option (List ℕ)) → List (List ℕ) → List (List ℕ)
preserved getenv [] = []
preserved getenv (var ∷ vars) = elim (getenv var) [
  | none ↦ preserved getenv vars
  | some value ↦ (var ++ (b'=' ∷ value)) ∷ preserved getenv vars
]

-- The table points to the strings `ss`, which lie from `p` on, from the index `i` on.
abbrev pub Points : (ℕ → Option ℕ) → ℕ → ℕ → List (List ℕ) → Type 0
Points table i p [] = Unit {0}
Points table i p (s ∷ ss) = (table i ≡ some p) × Points table (i + 1) (p + length s + 1) ss

-- Values of variables are C strings.
abbrev pub IsEnvironment : (List ℕ → Option (List ℕ)) → Type 0
IsEnvironment getenv = (var value : List ℕ) → getenv var ≡ some value → IsText value

pub count_restricted-total :
    (vars : List (List ℕ)) (z : Sizes)
    → ((count_restricted vars z).new_size ≡ z.new_size + total vars)
      × ((count_restricted vars z).arr_size ≡ z.arr_size + length vars)
unfolding count_restricted
count_restricted-total [] z = omega arith
count_restricted-total (var ∷ vars) z = omega (
  arith,
  count_restricted-total vars
      (record { new_size = z.new_size + (length var + 1); arr_size = z.arr_size + 1 }),
)

pub count_preserved-total :
    (getenv : List ℕ → Option (List ℕ)) (vars : List (List ℕ)) (z : Sizes)
    → ((count_preserved getenv vars z).new_size ≡ z.new_size + total (preserved getenv vars))
      × ((count_preserved getenv vars z).arr_size ≡ z.arr_size + length (preserved getenv vars))
unfolding count_preserved preserved
count_preserved-total getenv [] z = omega arith
count_preserved-total getenv (var ∷ vars) z = elim (Option-cases (getenv var)) [
  | inl unset ↦ ground (arith, unset, count_preserved-total getenv vars z)
  | inr (value, e) ↦ ground (
    arith,
    e,
    length-append var (b'=' ∷ value),
    count_preserved-total getenv vars (record {
      new_size = z.new_size + (length var + length value + 2);
      arr_size = z.arr_size + 1;
    }),
  )
]

-- The characters of `name=value`.
pub name_at :
    (var rest : List ℕ) (j : ℕ) → j < length var → get_or (var ++ rest) j 0 ≡ get_or var j 0
name_at [] rest j h = absurd (omega (arith, h))
name_at (c ∷ var) rest zero h = refl
name_at (c ∷ var) rest (suc j) h = name_at var rest j (omega (arith, h))

pub equals_at :
    (var value : List ℕ) (j : ℕ) → j ≡ length var → get_or (var ++ (b'=' ∷ value)) j 0 ≡ b'='
equals_at [] value j h = ground (arith, h)
equals_at (c ∷ var) value zero h = absurd (omega (arith, h))
equals_at (c ∷ var) value (suc j) h = equals_at var value j (omega (arith, h))

pub value_at :
    (var value : List ℕ) (j k : ℕ)
    → j ≡ length var + suc k
    → get_or (var ++ (b'=' ∷ value)) j 0 ≡ get_or value k 0
value_at [] value j k h = ground (arith, h)
value_at (c ∷ var) value zero k h = absurd (omega (arith, h))
value_at (c ∷ var) value (suc j) k h = value_at var value j k (omega (arith, h))

pub IsText-append : (xs ys : List ℕ) → IsText xs → IsText ys → IsText (xs ++ ys)
IsText-append [] ys h k = k
IsText-append (x ∷ xs) ys h k = (h.0, IsText-append xs ys h.1 k)

pub total-append : (xs ys : List (List ℕ)) → total (xs ++ ys) ≡ total xs + total ys
total-append [] ys = omega arith
total-append (x ∷ xs) ys = omega (arith, total-append xs ys)
