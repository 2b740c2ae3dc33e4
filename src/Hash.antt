-- ===== src/Hash.antt =====
-- The hashes of src/hash: 28 bytes, that get_hashbits takes from Keccak, as machine words
-- (char_to_size.c, char_to_uint32.c) and as hexadecimal text (write_hex_from_hash.c,
-- read_hash_from_hex.c). An array of characters is a function of the index. `Hash` of Keccak,
-- `fprintf` with "%02x" and `sscanf` with "%02hhx" are parameters.
pub mod Words
pub mod Hex
mod Tests
use oly.Prelude.{
  ℕ, zero, suc, ◌+◌, ◌-◌, ◌*◌, ◌%◌, ◌^◌, Bool, true, false, Option, none, some, List, [], ◌∷◌, ◌++◌,
  Memory, write, ltb, if◌then◌else◌, length, drop,
}
use oly.Status.{Status, okay, err_hash, err_fileio, err_readhex}
use oly.DataSource.Bits.{bit_or}

-- OLY_HASH_BITS / CHAR_BIT
abbrev pub hash_bytes : ℕ
hash_bytes = 28

-- SIZE_HASH: the whole words of eight bytes in a hash.
abbrev pub size_hash : ℕ
size_hash = 3

-- `res |= ((size_t)c[i] << (CHAR_BIT * (j - i)))`, where `n` rounds are left and `w` are the bits of a
-- word: in the last round the shift is 0.
unfoldable pub or_bytes : ℕ → Memory → ℕ → ℕ → ℕ → ℕ
or_bytes w c i zero res = res
or_bytes w c i (suc n) res = or_bytes w c (i + 1) n (bit_or w res (c i * 2 ^ (8 * n) % 2 ^ w))

unfoldable pub char_to_size : Memory → Status × ℕ
char_to_size c = (okay, or_bytes 64 c 0 8 0)

unfoldable pub char_to_uint32 : Memory → ℕ
char_to_uint32 c = or_bytes 32 c 0 4 0

-- `&c[i]`
abbrev pub from_index : Memory → ℕ → Memory
from_index c i j = c (i + j)

-- The loop, with `n` rounds left.
unfoldable pub hash_sizes : Memory → ℕ → ℕ → ℕ → Memory → Memory
hash_sizes c i j zero result = result
hash_sizes c i j (suc n) result =
    hash_sizes c (i + 8) (j + 1) n (write result j (char_to_size (from_index c i)).1)

unfoldable pub hash_char_to_hash_size : Memory → Memory → Status × Memory
unfolding hash_sizes
hash_char_to_hash_size c result = (okay, hash_sizes c 0 0 size_hash result)

-- `*result[i]` is written for `i` from 0 to 28 in steps of 4.
unfoldable pub hash_uint32s : Memory → ℕ → ℕ → Memory → Memory
hash_uint32s c i zero result = result
hash_uint32s c i (suc n) result =
    hash_uint32s c (i + 4) n (write result i (char_to_uint32 (from_index c i)))

unfoldable pub hash_char_to_hash_uint32 : Memory → Memory → Status × Memory
unfolding hash_uint32s
hash_char_to_hash_uint32 c result = (okay, hash_uint32s c 0 8 result)

-- `Hash` of Keccak with the length in bits: whether it succeeds, and the hash.
unfoldable pub get_hashbits : (ℕ → List ℕ → ℕ → Bool × List ℕ) → List ℕ → ℕ → Status × List ℕ
get_hashbits keccak data_in len =
    let (ok, h) = keccak 224 data_in len in (if ok then okay else err_hash, h)

unfoldable pub get_str_hashlen : List ℕ → Status × ℕ
get_str_hashlen c = (okay, length c * 8)

-- The loop of write_hex_from_hash, with `n` rounds left, on the text written so far. `print` is what
-- `fprintf` writes, or `none` where it reports no characters.
unfoldable pub write_hex : (ℕ → Option (List ℕ)) → Memory → ℕ → ℕ → List ℕ → Status × List ℕ
write_hex print c i zero out = (okay, out)
write_hex print c i (suc n) out = elim (print (c i)) [
  | none ↦ (err_fileio, out)
  | some s ↦ write_hex print c (i + 1) n (out ++ s)
]

unfoldable pub write_hex_from_hash : (ℕ → Option (List ℕ)) → List ℕ → Memory → Status × List ℕ
unfolding write_hex
write_hex_from_hash print out c = write_hex print c 0 hash_bytes out

-- `memset` of the hash.
abbrev pub zeroed : Memory → Memory
zeroed c j = if ltb j hash_bytes then 0 else c j

-- The loop of read_hash_from_hex. `scan` is the byte that `sscanf` reads.
unfoldable pub read_hex : (List ℕ → Option ℕ) → List ℕ → ℕ → ℕ → Memory → Status × Memory
read_hex scan s i zero c = (okay, c)
read_hex scan s i (suc n) c = elim (scan s) [
  | none ↦ (err_readhex, zeroed c)
  | some b ↦ read_hex scan (drop 2 s) (i + 1) n (write c i b)
]

unfoldable pub read_hash_from_hex : (List ℕ → Option ℕ) → List ℕ → Memory → Status × Memory
unfolding read_hex
read_hash_from_hex scan s c =
    if ltb (length s) (2 * hash_bytes) then (err_readhex, c) else read_hex scan s 0 hash_bytes c
