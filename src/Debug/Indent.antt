-- ===== src/Debug/Indent.antt =====
-- level_indent of src/debug/level_indent.c.
use oly.Prelude.{
  ℕ, zero, suc, ◌+◌, ◌*◌, ◌≤◌, ◌<◌, ◌≡◌, ◌⊎◌, inl, inr, refl, arith, replicate, length, get_or, ltb,
  leb, ◌-◌, ◌/◌, ◌&&◌, if◌then◌else◌, Memory, write,
}
use native.Mathlib.Decide.{dec_lt}
use oly.StringBuffer.Layout.{StringAt}
use oly.Boundary.Rows.{StringAt-of}

-- The indentation that is being written, and `indent_ptr` as an offset into it.
pub record Indent : Type 0 where
  pub cells : Memory
  pub indent_ptr : ℕ

abbrev pub tabsize : ℕ
tabsize = 2

abbrev pub put_space : ℕ → Indent → Indent
put_space c d = record { cells = write d.cells d.indent_ptr c; indent_ptr = d.indent_ptr + 1 }

-- The inner loop: `n` spaces.
unfoldable pub tab_loop : ℕ → Indent → Indent
tab_loop zero d = d
tab_loop (suc n) d = tab_loop n (put_space b' ' d)

-- The outer loop from `i` on, with the number of levels that are left.
unfoldable pub indent_loop : ℕ → ℕ → ℕ → Indent → Indent
unfolding tab_loop
indent_loop size zero i d = d
indent_loop size (suc n) i d =
    let rest = indent_loop size n (i + 1) (tab_loop tabsize d) in
    if ltb (i * tabsize) size then rest else d

-- `level_indent`, with where the terminator is put; `level` is not negative.
unfoldable pub level_indent : Memory → ℕ → ℕ → Indent
unfolding indent_loop
level_indent indent size level =
    let d = indent_loop size level 0 (record { cells = indent; indent_ptr = 0 }) in
    record d { cells = write d.cells d.indent_ptr 0 }

-- The turns of the loop from `i` on, of `n` levels: all, or as many as it takes to fill the size.
abbrev turns : ℕ → ℕ → ℕ → ℕ
turns size n i = if ltb (i + n) ((size + 1) / 2) then n else (size + 1) / 2 - i

abbrev spaced : Memory → ℕ → ℕ → ℕ → ℕ
spaced m p n j = if leb p j && ltb j (p + n) then b' ' else m j

indent_loop_lem :
    (size n i : ℕ) (d : Indent)
    → ((indent_loop size n i d).indent_ptr ≡ d.indent_ptr + 2 * turns size n i)
      × ((j : ℕ)
          → (indent_loop size n i d).cells j ≡ spaced d.cells d.indent_ptr (2 * turns size n i) j)
unfolding indent_loop tab_loop write
indent_loop_lem size zero i d = (ground arith, λ j. ground arith)
indent_loop_lem size (suc n) i d =
    let (at, is) = indent_loop_lem size n (i + 1) (tab_loop tabsize d) in
    elim (dec_lt (i * tabsize) size) [
      | yes lt ↦ (ground (arith, at), λ j. ground (arith, is j))
      | no ge ↦ (ground arith, λ j. ground arith)
    ]

-- The spaces that are written: two for each level, or as many as it takes to fill the size.
abbrev pub spaces : ℕ → ℕ → ℕ
spaces size level = 2 * (if ltb level ((size + 1) / 2) then level else (size + 1) / 2)

get_or-replicate : (n j c : ℕ) → j < n → get_or (replicate n c) j 0 ≡ c
get_or-replicate zero j c h = absurd (omega arith)
get_or-replicate (suc n) zero c h = refl
get_or-replicate (suc n) (suc j) c h = get_or-replicate n j c (omega arith)

length-replicate : (n c : ℕ) → length (replicate n c) ≡ n
length-replicate zero c = refl
length-replicate (suc n) c = omega (arith, length-replicate n c)

-- level_indent leaves a string of spaces, two for each level, and changes nothing behind its
-- terminator. The string stops at the size: it is shorter than the size if two cells for each level
-- are; else the terminator is written at the size or one cell further, behind what the caller has.
level_indent-StringAt :
    (m : Memory) (size level : ℕ)
    → ((level_indent m size level).indent_ptr ≡ spaces size level)
      × StringAt (level_indent m size level).cells 0 (replicate (spaces size level) b' ')
      × ((j : ℕ) → spaces size level < j → (level_indent m size level).cells j ≡ m j)
      × (((2 * level < size) × (spaces size level ≡ 2 * level) × (spaces size level < size))
          ⊎ ((size ≤ 2 * level) × (size ≤ spaces size level) × (spaces size level ≤ size + 1)))
unfolding level_indent write
level_indent-StringAt m size level =
    let (at, is) = indent_loop_lem size level 0 (record { cells = m; indent_ptr = 0 }) in
    let n = spaces size level in
    (
      ground (arith, at),
      StringAt-of (level_indent m size level).cells 0 (replicate n b' ')
          (λ j h. ground (
            arith,
            at,
            is j,
            length-replicate n b' ',
            get_or-replicate n j b' ' (omega (arith, length-replicate n b' ')),
          ))
          (ground (arith, at, length-replicate n b' ')),
      λ j h. ground (arith, at, is j),
      elim (dec_lt (2 * level) size) [
        | yes lt ↦ inl (lt, ground arith, ground arith)
        | no ge ↦ inr (omega arith, ground arith, ground arith)
      ],
    )
