-- ===== src/Hash/Words.antt =====
-- The words of a hash are its bytes, the first one highest.
use oly.Prelude.{
  ℕ, zero, suc, ◌+◌, ◌*◌, ◌/◌, ◌%◌, ◌^◌, ◌<◌, ◌≡◌, ◌↔◌, arith, refl, Memory, write, sym, ◌∙◌, ap,
}
use native.Mathlib.Nat.{pow-succ', mod-eq_of_lt, le_trans, pow-le-pow_right}
use native.Mathlib.Numerals.{towards_suc}
use mathlib.Core.Path.{subst}
use oly.Status.{okay}
use oly.DataSource.Bits.{bit_or}
use oly.Hash.{or_bytes, char_to_size, char_to_uint32, hash_char_to_hash_size, from_index, size_hash}

-- The number that `n` bytes from `i` on stand for, the first one highest, behind `acc`.
unfoldable pub big_endian : Memory → ℕ → ℕ → ℕ → ℕ
big_endian c i zero acc = acc
big_endian c i (suc n) acc = big_endian c (i + 1) n (acc * 256 + c i)

abbrev pub IsBytes : Memory → Type 0
IsBytes c = (j : ℕ) → c j < 256

two_pow_suc : (s : ℕ) → 2 ^ suc s ≡ 2 * 2 ^ s
two_pow_suc s = pow-succ' 2 s

pow_eight : (s : ℕ) → 2 ^ (s + 8) ≡ 256 * 2 ^ s
pow_eight s = simp towards_suc (omega arith)

bit_or_none : (w a : ℕ) → a < 2 ^ w → bit_or w a 0 ≡ a
unfolding bit_or
bit_or_none zero a h = omega arith
bit_or_none (suc w) a h =
    omega (arith, bit_or_none w (a / 2) (omega (arith, two_pow_suc w)), two_pow_suc w)

bit_or_none_at : (w a b : ℕ) → b ≡ 0 → a / 2 < 2 ^ w → bit_or w (a * 1 / 2) (b / 2) ≡ a / 2
bit_or_none_at w a b e h =
    let one : a * 1 / 2 ≡ a / 2 = omega arith in
    let zero_b : b / 2 ≡ 0 = omega arith in rw (one, zero_b) (bit_or_none w (a / 2) h)

bit_or-shift :
    (w s r a b : ℕ) → w ≡ s + r → a < 2 ^ r → b < 2 ^ s → bit_or w (a * 2 ^ s) b ≡ a * 2 ^ s + b
unfolding bit_or
bit_or-shift zero s r a b e ha hb =
    let none_a : a ≡ 0 = omega (arith, rw (r_zero e) at ha) in
    let none_b : b ≡ 0 = omega (arith, rw (s_zero e) at hb) in
    omega (arith, ap (λ (t : ℕ). t * 2 ^ s) none_a)
  where
    r_zero : 0 ≡ s + r → r ≡ 0
    r_zero h = omega arith

    s_zero : 0 ≡ s + r → s ≡ 0
    s_zero h = omega arith
bit_or-shift (suc w) zero r a b e ha hb =
    let all : r ≡ suc w = omega arith in
    let none_b : b ≡ 0 = omega arith in
    rw none_b
      (omega (arith, bit_or_none_at w a 0 refl (omega (arith, two_pow_suc w, rw all at ha))))
bit_or-shift (suc w) (suc s) r a b e ha hb =
    let twice : a * 2 ^ suc s ≡ 2 * (a * 2 ^ s) =
      omega (arith, ap (λ (t : ℕ). a * t) (two_pow_suc s)) in
    let half : a * 2 ^ suc s / 2 ≡ a * 2 ^ s = omega arith in
    let low : a * 2 ^ suc s % 2 ≡ 0 = omega arith in
    rw (half, low)
      (omega (
        arith,
        bit_or-shift w s r a (b / 2) (omega arith) ha (omega (arith, two_pow_suc s)),
        twice,
      ))

two_pow_pos : (k : ℕ) → 0 < 2 ^ k
two_pow_pos zero = omega arith
two_pow_pos (suc k) = omega (arith, two_pow_suc k, two_pow_pos k)

mul_below : (a b p : ℕ) → a < b → 0 < p → a * p < b * p
mul_below a b p h k = grind arith

next_byte : (n : ℕ) → 2 ^ (8 * suc n) ≡ 256 * 2 ^ (8 * n)
next_byte n = let e : 8 * suc n ≡ 8 * n + 8 = omega arith in rw e (pow_eight (8 * n))

below_next : (n b : ℕ) → b < 256 → b * 2 ^ (8 * n) < 2 ^ (8 * suc n)
below_next n b h = rw (next_byte n) (mul_below b 256 (2 ^ (8 * n)) h (two_pow_pos (8 * n)))

-- A byte that is put in below what is there.
put_byte :
    (w n r acc b : ℕ)
    → w ≡ 8 * n + (r + 8)
    → acc < 2 ^ r
    → b < 256
    → bit_or w (acc * 2 ^ (8 * suc n)) (b * 2 ^ (8 * n) % 2 ^ w) ≡ (acc * 256 + b) * 2 ^ (8 * n)
put_byte w n r acc b e h hb =
    let below : b * 2 ^ (8 * n) < 2 ^ (8 * suc n) = below_next n b hb in
    let whole : b * 2 ^ (8 * n) % 2 ^ w ≡ b * 2 ^ (8 * n) =
      mod-eq_of_lt (le_trans below (pow-le-pow_right {n = 2} (omega arith) (omega arith))) in
    rw whole (
      bit_or-shift w (8 * suc n) r acc (b * 2 ^ (8 * n)) (omega arith) h below
      ∙ omega (arith, ap (λ (t : ℕ). acc * t) (next_byte n)))

or_bytes-big_endian :
    (w : ℕ) (c : Memory) (i n r acc : ℕ)
    → IsBytes c
    → w ≡ 8 * n + r
    → acc < 2 ^ r
    → or_bytes w c i n (acc * 2 ^ (8 * n)) ≡ big_endian c i n acc
unfolding or_bytes big_endian
or_bytes-big_endian w c i zero r acc bytes e h = omega arith
or_bytes-big_endian w c i (suc n) r acc bytes e h =
    rw (put_byte w n r acc (c i) (omega arith) h (bytes i)) (
      or_bytes-big_endian w c (i + 1) n (r + 8) (acc * 256 + c i) bytes (omega arith)
        (omega (arith, pow_eight r, bytes i)))

-- With bytes below 256, the word that char_to_size makes is the number that the eight bytes stand
-- for, the first one highest.
char_to_size-big_endian : (c : Memory) → IsBytes c → char_to_size c ≡ (okay, big_endian c 0 8 0)
unfolding char_to_size
char_to_size-big_endian c bytes =
    ap (λ (n : ℕ). (okay, n)) (or_bytes-big_endian 64 c 0 8 0 0 bytes refl (omega arith))

pub char_to_uint32-big_endian : (c : Memory) → IsBytes c → char_to_uint32 c ≡ big_endian c 0 4 0
unfolding char_to_uint32
char_to_uint32-big_endian c bytes = or_bytes-big_endian 32 c 0 4 0 0 bytes refl (omega arith)

same_at :
    (c d : Memory) (i n : ℕ)
    → c i ≡ d i
    → ((j : ℕ) → j < n → c (i + 1 + j) ≡ d (i + 1 + j))
    → (j : ℕ) → j < suc n
    → c (i + j) ≡ d (i + j)
same_at c d i n first rest zero h = ground (arith, first)
same_at c d i n first rest (suc j) h = ground (arith, rest j)

big_endian-injective :
    (c d : Memory) (i n acc acc' : ℕ)
    → IsBytes c
    → IsBytes d
    → big_endian c i n acc ≡ big_endian d i n acc'
    → (acc ≡ acc') × ((j : ℕ) → j < n → c (i + j) ≡ d (i + j))
unfolding big_endian
big_endian-injective c d i zero acc acc' bc bd e = (e, λ j h. absurd (omega arith))
big_endian-injective c d i (suc n) acc acc' bc bd e =
    let (same, rest) =
      big_endian-injective c d (i + 1) n (acc * 256 + c i) (acc' * 256 + d i) bc bd e in
    (omega (arith, bc i, bd i), same_at c d i n (omega (arith, same, bc i, bd i)) rest)

big_endian-cong :
    (c d : Memory) (i n acc : ℕ)
    → ((j : ℕ) → j < n → c (i + j) ≡ d (i + j))
    → big_endian c i n acc ≡ big_endian d i n acc
unfolding big_endian
big_endian-cong c d i zero acc same = refl
big_endian-cong c d i (suc n) acc same =
    ap (λ x. big_endian c (i + 1) n (acc * 256 + x)) (ground (arith, same 0))
    ∙ big_endian-cong c d (i + 1) n (acc * 256 + d i) (λ j h. ground (arith, same (suc j)))

word_of :
    (c : Memory) (i : ℕ)
    → IsBytes c
    → (char_to_size (from_index c i)).1 ≡ big_endian (from_index c i) 0 8 0
word_of c i bytes = ap (λ w. w.1) (char_to_size-big_endian (from_index c i) (λ j. bytes (i + j)))

-- The word `k` is that of the eight bytes from `8 * k` on.
words :
    (c r : Memory) (k : ℕ)
    → IsBytes c
    → k < size_hash
    → (hash_char_to_hash_size c r).1 k ≡ big_endian (from_index c (8 * k)) 0 8 0
unfolding hash_char_to_hash_size write
words c r zero bytes h = word_of c 0 bytes
words c r (suc zero) bytes h = word_of c 8 bytes
words c r (suc (suc zero)) bytes h = word_of c 16 bytes
words c r (suc (suc (suc k))) bytes h = absurd (omega arith)

-- Two hashes have the same words exactly where their first 24 bytes agree: the last four of the 28
-- are in none of the words.
hash_char_to_hash_size-prefix :
    (c d r : Memory)
    → IsBytes c
    → IsBytes d
    → ((k : ℕ)
        → k < size_hash
        → (hash_char_to_hash_size c r).1 k ≡ (hash_char_to_hash_size d r).1 k)
      ↔ ((j : ℕ) → j < 24 → c j ≡ d j)
hash_char_to_hash_size-prefix c d r bc bd = (
  λ same j h.
      let k = j / 8 in
      subst (λ q. c q ≡ d q) (omega arith)
        ((big_endian-injective (from_index c (8 * k)) (from_index d (8 * k)) 0 8 0 0
            (λ q. bc (8 * k + q)) (λ q. bd (8 * k + q))
            (sym (words c r k bc (omega arith))
              ∙ (same k (omega arith) ∙ words d r k bd (omega arith)))).1
          (j % 8) (omega arith)),
  λ same k h.
      words c r k bc h
      ∙ (big_endian-cong (from_index c (8 * k)) (from_index d (8 * k)) 0 8 0
            (λ j hj. same (8 * k + (0 + j)) (omega arith))
          ∙ sym (words d r k bd h)),
)
