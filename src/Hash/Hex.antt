-- ===== src/Hash/Hex.antt =====
-- A hash that is written in hexadecimal is read back.
use oly.Prelude.{
  ℕ, zero, suc, ◌+◌, ◌*◌, ◌≤◌, ◌<◌, ◌≡◌, arith, refl, Memory, write, sym, List, [], ◌∷◌, ◌++◌,
  length, Option, some, ap,
}
use mathlib.Core.List.{append_assoc, append-nil}
use native.Mathlib.Decide.{ℕ_discrete}
use oly.Status.{okay}
use oly.Hash.{write_hex, write_hex_from_hash, read_hex, read_hash_from_hex, hash_bytes}

-- What `printf` and `scanf` do with "%02x" and a byte: two characters are written, and where they
-- stand first in a text, the byte is read back.
pub record IsHexadecimal (print : ℕ → Option (List ℕ)) (scan : List ℕ → Option ℕ) : Type 0 where
  pub high : ℕ → ℕ
  pub low : ℕ → ℕ
  pub prints : (b : ℕ) → b < 256 → print b ≡ some (high b ∷ low b ∷ [])
  pub scans : (b : ℕ) (rest : List ℕ) → b < 256 → scan (high b ∷ low b ∷ rest) ≡ some b

module _ (print : ℕ → Option (List ℕ)) (scan : List ℕ → Option ℕ)
    (hex : IsHexadecimal print scan) where
  open hex use {high, low, prints, scans}

  -- The text of `n` bytes from `i` on.
  unfoldable pub text : Memory → ℕ → ℕ → List ℕ
  text c i zero = []
  text c i (suc n) = high (c i) ∷ low (c i) ∷ text c (i + 1) n

  length-text : (c : Memory) (i n : ℕ) → length (text c i n) ≡ 2 * n
  unfolding text
  length-text c i zero = refl
  length-text c i (suc n) = omega (arith, length-text c (i + 1) n)

  write_hex-text :
      (c : Memory) (i n : ℕ) (out : List ℕ)
      → ((j : ℕ) → c j < 256)
      → write_hex print c i n out ≡ (okay, out ++ text c i n)
  unfolding write_hex text
  write_hex-text c i zero out bytes = ap (λ xs. (okay, xs)) (sym (append-nil out))
  write_hex-text c i (suc n) out bytes = ground (
    arith,
    prints (c i) (bytes i),
    write_hex-text c (i + 1) n (out ++ (high (c i) ∷ low (c i) ∷ [])) bytes,
    append_assoc out (high (c i) ∷ low (c i) ∷ []) (text c (i + 1) n),
  )

  -- What reading the text of `n` bytes leaves at each index.
  read_hex-text :
      (c d : Memory) (i n : ℕ)
      → ((j : ℕ) → c j < 256)
      → (e : Memory) × (read_hex scan (text c i n) i n d ≡ (okay, e))
        × ((j : ℕ) → i ≤ j → j < i + n → e j ≡ c j)
        × ((j : ℕ) → j < i → e j ≡ d j)
        × ((j : ℕ) → i + n ≤ j → e j ≡ d j)
  unfolding read_hex text write
  read_hex-text c d i zero bytes =
      (d, refl, λ j lo hi. absurd (omega arith), λ j h. refl, λ j h. refl)
  read_hex-text c d i (suc n) bytes =
      let (e, runs, inside, below, above) = read_hex-text c (write d i (c i)) (i + 1) n bytes in
      (
        e,
        ground (arith, scans (c i) (text c (i + 1) n) (bytes i), runs),
        λ j lo hi. elim (ℕ_discrete j i) [
          | yes same ↦ ground (arith, below j, same)
          | no other ↦ inside j (omega (arith, other)) (omega (arith, hi))
        ],
        λ j h. ground (arith, below j),
        λ j h. ground (arith, above j),
      )

  -- Where `fprintf` and `sscanf` agree on each byte, writing a hash of bytes succeeds, and reading what
  -- was written succeeds and gives the same 28 bytes; no other byte of the target changes.
  pub read_hash_from_hex-write_hex_from_hash :
      (c d : Memory)
      → ((j : ℕ) → c j < 256)
      → (s : List ℕ) × (write_hex_from_hash print [] c ≡ (okay, s))
        × (e : Memory) × (read_hash_from_hex scan s d ≡ (okay, e))
        × ((j : ℕ) → j < hash_bytes → e j ≡ c j)
        × ((j : ℕ) → hash_bytes ≤ j → e j ≡ d j)
  unfolding write_hex_from_hash read_hash_from_hex
  read_hash_from_hex-write_hex_from_hash c d bytes =
      let (e, runs, inside, below, above) = read_hex-text c d 0 hash_bytes bytes in
      (
        text c 0 hash_bytes,
        write_hex-text c 0 hash_bytes [] bytes,
        e,
        ground (arith, length-text c 0 hash_bytes, runs),
        λ j h. inside j (omega arith) h,
        above,
      )
