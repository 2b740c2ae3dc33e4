-- ===== src/Boundary/Layout.antt =====
-- The layout that open_oly_boundary chooses.
use oly.Prelude.{
  ℕ, ◌+◌, ◌-◌, ◌*◌, ◌/◌, ◌%◌, ◌≤◌, ◌<◌, ◌≡◌, ◌≢◌, ◌⊎◌, inl, inr, none, some, arith, Memory, true,
  sym, refl,
}
use native.Mathlib.Decide.{dec_le, ℕ_discrete}
use native.Mathlib.Nat.{
  div-add-mod', le-div_iff_mul-le, div-lt_iff_lt-mul, mul-div_cancel, mul-mod_left,
}
use oly.Boundary.{
  Boundary, opened, open_oly_boundary, max_characters, allocated, c_end_at, o_start_at, o_end_at,
  sizes_agree,
}

-- The two areas of the allocation: the characters with a cell behind them end before the OChars
-- begin, the OChars with one behind them end within the allocation, which has the size that was
-- asked for, and both have room for the same number of characters.
pub record Fits (k size : ℕ) : Type 0 where
  pub apart : c_end_at k size < o_start_at k size
  pub within : o_start_at k size + 2 * (o_end_at k size + 1) ≤ allocated k size
  pub whole : allocated k size ≡ size
  pub same_count : o_end_at k size * k ≡ c_end_at k size

-- A boundary as it is opened: both areas unused, and a terminator behind the OChars.
pub record IsFresh {C : Type 0} (c : C) (k size : ℕ) (b : Boundary C) : Type 0 where
  pub c_unused : b.c_now ≡ 0
  pub o_unused : b.o_now ≡ 0
  pub c_ends : b.c_end ≡ c_end_at k size
  pub o_ends : b.o_end ≡ o_end_at k size
  pub o_terminated : b.ochars b.o_end ≡ 0
  pub opened_by : b.converter ≡ c

two_le_mul : (m k : ℕ) → 2 ≤ m → k * 2 ≤ m * k
two_le_mul m k h = grind arith

c_end-eq : (k m : ℕ) → 2 ≤ m → m * k - k * 2 ≡ (m - 2) * k
c_end-eq k m h = let e : m ≡ (m - 2) + 2 = omega arith in omega (arith, ap_mul e, two_le_mul m k h)
  where
    ap_mul : m ≡ (m - 2) + 2 → m * k ≡ ((m - 2) + 2) * k
    ap_mul e = λ i. e i * k

allocated-eq : (k m : ℕ) → 2 ≤ m → (m * 2 - 2) + (m * k - k) + k + 2 ≡ m * (k + 2)
allocated-eq k m h = omega (arith, two_le_mul m k h)

-- The number of characters, and what the division leaves.
parts : (k size : ℕ) → max_characters k size * (k + 2) + size % (k + 2) ≡ size
parts k size = div-add-mod' size (k + 2)

c_end-div : (k m : ℕ) → 0 < k → 2 ≤ m → (m * k - k * 2) / k ≡ m - 2
c_end-div k m pos h = rw (c_end-eq k m h) (mul-div_cancel (m - 2) pos)

c_end-mod : (k m : ℕ) → 2 ≤ m → (m * k - k * 2) % k ≡ 0
c_end-mod k m h = rw (c_end-eq k m h) (mul-mod_left (m - 2) k)

sizes_agree_of : (k size : ℕ) → 0 < k → 2 ≤ max_characters k size → sizes_agree k size ≡ true
sizes_agree_of k size pos h = ground (
  arith,
  c_end-div k (max_characters k size) pos h,
  c_end-mod k (max_characters k size) h,
  c_end-eq k (max_characters k size) h,
  parts k size,
)

two_characters : (k size : ℕ) → 2 * (k + 2) ≤ size → 2 ≤ max_characters k size
two_characters k size h = (le-div_iff_mul-le (omega arith)).1 h

few_characters : (k size : ℕ) → size < 2 * (k + 2) → max_characters k size < 2
few_characters k size h = (div-lt_iff_lt-mul (omega arith)).1 h

Fits-of : (k size : ℕ) → size % (k + 2) ≡ 0 → 2 ≤ max_characters k size → Fits k size
Fits-of k size e h =
    let same : c_end_at k size ≡ (max_characters k size - 2) * k =
      c_end-eq k (max_characters k size) h in
    record {
      apart = omega arith;
      within = omega (arith, two_le_mul (max_characters k size) k h);
      whole = omega (arith, allocated-eq k (max_characters k size) h, parts k size);
      same_count = sym same;
    }

module _ {C : Type 0} (c : C) (k size : ℕ) (fresh ofresh : Memory) where
  few_refused : max_characters k size < 2 → open_oly_boundary c k size fresh ofresh ≡ none
  unfolding open_oly_boundary
  few_refused h = ground (arith, h)

  ragged_refused :
      2 ≤ max_characters k size
      → size % (k + 2) ≢ 0
      → open_oly_boundary c k size fresh ofresh ≡ none
  unfolding open_oly_boundary
  ragged_refused h odd =
      ground (arith, h, odd, allocated-eq k (max_characters k size) h, parts k size)

  opens :
      0 < k
      → size % (k + 2) ≡ 0
      → 2 ≤ max_characters k size
      → open_oly_boundary c k size fresh ofresh ≡ some (opened c k size fresh ofresh)
  unfolding open_oly_boundary
  opens pos e h = ground (
    arith,
    h,
    sizes_agree_of k size pos h,
    allocated-eq k (max_characters k size) h,
    parts k size,
    e,
  )

  opened-IsFresh : Fits k size → IsFresh c k size (opened c k size fresh ofresh)
  opened-IsFresh fits = record {
    c_unused = refl;
    o_unused = refl;
    c_ends = refl;
    o_ends = refl;
    o_terminated = ground (arith, fits.within, fits.whole);
    opened_by = refl;
  }

  -- With a smallest size of a character of at least one byte: where the size is a multiple of the
  -- room of a character in both buffers, and room for two at least, the boundary opens, unused and
  -- with a terminator behind its OChars, and its two areas lie apart within the allocation. For
  -- every other size the code writes outside of what it allocated.
  pub open_oly_boundary-Fits :
      0 < k
      → ((size % (k + 2) ≡ 0)
          × (2 * (k + 2) ≤ size)
          × Fits k size
          × ((b : Boundary C) × (open_oly_boundary c k size fresh ofresh ≡ some b)
              × IsFresh c k size b))
        ⊎ (((size % (k + 2) ≢ 0) ⊎ (size < 2 * (k + 2)))
            × (open_oly_boundary c k size fresh ofresh ≡ none))
  open_oly_boundary-Fits pos = elim (dec_le (2 * (k + 2)) size) [
    | no small ↦ inr (inr (omega arith), few_refused (few_characters k size (omega arith)))
    | yes big ↦ elim (ℕ_discrete (size % (k + 2)) 0) [
      | yes even ↦
          let two = two_characters k size big in
          inl (
            even,
            big,
            Fits-of k size even two,
            (
              opened c k size fresh ofresh,
              opens pos even two,
              opened-IsFresh (Fits-of k size even two),
            ),
          )
      | no odd ↦ inr (inl odd, ragged_refused (two_characters k size big) odd)
    ]
  ]
