-- ===== src/Boundary/Sample.antt =====
-- A converter that keeps each byte, and a boundary of eight characters over it.
use oly.Prelude.{
  ℕ, zero, suc, ◌+◌, ◌≤◌, ◌≡◌, List, [], ◌∷◌, map, arith, length, refl, ltb, take, Memory,
}
use oly.Boundary.{Boundary, ToUnicode, opened}
use oly.Boundary.Transfer.{IsBytewise}

abbrev pub garbage : Memory
garbage j = j + 7

abbrev pub boundary : Boundary ℕ
boundary = opened 5 1 30 garbage garbage

abbrev pub latin_1 : ToUnicode ℕ
latin_1 c s room = record { converter = c; output = take room s; failed = ltb room (length s) }

take-all : (room : ℕ) (s : List ℕ) → length s ≤ room → take room s ≡ map (λ c. c) s
take-all zero [] h = refl
take-all zero (c ∷ s) h = absurd (omega arith)
take-all (suc room) [] h = refl
take-all (suc room) (c ∷ s) h = cc (take-all room s (omega arith))

pub length-take-le : (room : ℕ) (s : List ℕ) → length (take room s) ≤ room
length-take-le zero s = omega arith
length-take-le (suc room) [] = omega arith
length-take-le (suc room) (c ∷ s) = omega (arith, length-take-le room s)

pub latin_1-IsBytewise : IsBytewise (λ c. c) latin_1
latin_1-IsBytewise = record {
  conversion = record { stop = refl; no_stop = λ c h. h };
  converts = λ c s room h. ground (arith, take-all room s h, h);
}
