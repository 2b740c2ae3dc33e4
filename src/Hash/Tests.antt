-- ===== src/Hash/Tests.antt =====
-- Runs of src/hash on small arrays, and the theorems at them.
use oly.Prelude.{
  ℕ, ◌+◌, ◌*◌, ◌-◌, ◌/◌, ◌%◌, ◌≤◌, ◌<◌, ◌≡◌, arith, refl, Memory, List, [], ◌∷◌, Option, some, none,
  ltb, if◌then◌else◌,
}
use oly.Status.{okay}
use oly.Hash.{write_hex_from_hash, read_hash_from_hex, hash_bytes}
use oly.Hash.Words.{IsBytes}
use oly.Hash.Hex.{IsHexadecimal, read_hash_from_hex-write_hex_from_hash}

abbrev digit : ℕ → ℕ
digit d = if ltb d 10 then 48 + d else 87 + d

abbrev undigit : ℕ → ℕ
undigit x = if ltb x 87 then x - 48 else x - 87

abbrev print : ℕ → Option (List ℕ)
print b = some (digit (b / 16) ∷ digit (b % 16) ∷ [])

abbrev scan : List ℕ → Option ℕ
scan [] = none
scan (x ∷ []) = none
scan (x ∷ y ∷ rest) = some (undigit x * 16 + undigit y)

undigit-digit : (d : ℕ) → d < 16 → undigit (digit d) ≡ d
undigit-digit d h = ground arith

scan_print :
    (b : ℕ) (rest : List ℕ) → b < 256 → scan (digit (b / 16) ∷ digit (b % 16) ∷ rest) ≡ some b
scan_print b rest h = ground (arith, undigit-digit (b / 16), undigit-digit (b % 16))

abbrev hexadecimal : IsHexadecimal print scan
hexadecimal = record {
  high = λ b. digit (b / 16);
  low = λ b. digit (b % 16);
  prints = λ b h. refl;
  scans = scan_print;
}

-- 0, 1, 2, ...
abbrev counting : Memory
counting j = j % 256

counting-IsBytes : IsBytes counting
counting-IsBytes j = omega arith

abbrev nothing : Memory
nothing j = 0

read_hash_from_hex-write_hex_from_hash_example :
    (s : List ℕ) × (write_hex_from_hash print [] counting ≡ (okay, s))
    × (e : Memory) × (read_hash_from_hex scan s nothing ≡ (okay, e))
    × ((j : ℕ) → j < hash_bytes → e j ≡ counting j)
    × ((j : ℕ) → hash_bytes ≤ j → e j ≡ nothing j)
read_hash_from_hex-write_hex_from_hash_example =
    read_hash_from_hex-write_hex_from_hash print scan hexadecimal counting nothing counting-IsBytes
