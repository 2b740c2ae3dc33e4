-- ===== src/Boundary/Transfer.antt =====
-- Strings on their way through a boundary: put_char_in, flush_inbound and get_ochar_out.
use oly.Prelude.{
  ℕ, zero, suc, ◌+◌, ◌-◌, ◌^◌, ◌≤◌, ◌<◌, ◌≡◌, List, [], ◌∷◌, ◌++◌, map, arith, length, All, refl,
  Option, none, some, false, ◌==◌, if◌then◌else◌,
}
use native.Mathlib.Nat.{add_assoc}
use mathlib.Core.List.{append-nil, append_assoc}
use mathlib.Core.Path.{subst}
use oly.Status.{okay, is_okay, warn_boundary_reset}
use oly.StringBuffer.Layout.{IsText, StringAt}
use oly.Boundary.{
  Boundary, ToUnicode, put_char_in, flush_inbound, get_ochar_out, cells, write_list, strncpy_at,
}
use oly.Boundary.Rows.{
  Rows, total, total-append_one, Rows-total, Rows-frame, Rows-snoc, StringAt-of, get_or-length,
  IsConversion, Rows-map, string_length-StringAt, cells-StringAt, length-cells, length-map,
  get_or-cells,
}

-- A boundary whose characters up to `c_now` are the strings `ss`.
pub record Carries {C : Type 0} (ss : List (List ℕ)) (b : Boundary C) : Type 0 where
  pub rows : Rows b.chars 0 b.c_now ss
  pub bounded : b.c_now ≤ b.c_end
  pub small : b.c_end < 2 ^ 64

module _ {C : Type 0} where
  abbrev pub after_put : Boundary C → List ℕ → ℕ → Boundary C
  after_put b s n = record b {
    chars = (λ j. if j == b.c_now + n then 0 else strncpy_at b.chars b.c_now s n j);
    c_now = b.c_now + n + 1;
  }

  pub put_fits :
      (b : Boundary C) (s : List ℕ) (n : ℕ)
      → b.c_now + n < b.c_end
      → b.c_end < 2 ^ 64
      → put_char_in b s n ≡ (okay, after_put b s n)
  unfolding put_char_in
  put_fits b s n h small = ground (arith, h, small)

  pub after_put-Carries :
      (b : Boundary C) (ss : List (List ℕ)) (s : List ℕ)
      → Carries ss b
      → IsText s
      → b.c_now + length s < b.c_end
      → Carries (ss ++ (s ∷ [])) (after_put b s (length s))
  unfolding strncpy_at
  after_put-Carries b ss s held text h = record {
    rows =
        Rows-snoc (after_put b s (length s)).chars 0 b.c_now ss s
          (Rows-frame b.chars (after_put b s (length s)).chars 0 b.c_now ss
            (λ r lo hi. ground arith) held.rows)
          (StringAt-of (after_put b s (length s)).chars b.c_now s (λ j hj. ground arith)
            (ground arith))
          text;
    bounded = omega arith;
    small = held.small;
  }

  -- A string that is put with its own terminator has an empty one behind it.
  pub after_put-Carries_long :
      (b : Boundary C) (ss : List (List ℕ)) (s : List ℕ)
      → Carries ss b
      → IsText s
      → b.c_now + (length s + 1) < b.c_end
      → Carries ((ss ++ (s ∷ [])) ++ ([] ∷ [])) (after_put b s (length s + 1))
  unfolding strncpy_at
  after_put-Carries_long b ss s held text h =
      let m = (after_put b s (length s + 1)).chars in
      record {
        rows =
            subst (λ q. Rows m 0 q ((ss ++ (s ∷ [])) ++ ([] ∷ []))) (omega arith)
              (Rows-snoc m 0 (b.c_now + length s + 1) (ss ++ (s ∷ [])) []
                (Rows-snoc m 0 b.c_now ss s
                  (Rows-frame b.chars m 0 b.c_now ss (λ r lo hi. ground arith) held.rows)
                  (StringAt-of m b.c_now s (λ j hj. ground arith)
                    (ground (arith, get_or-length s (length s))))
                  text)
                (ground arith) tt);
        bounded = omega arith;
        small = held.small;
      }

  -- The calls that put strings in one after another, as long as each is accepted.
  unfoldable pub put_all : Boundary C → List (List ℕ) → Option (Boundary C)
  put_all b [] = some b
  put_all b (s ∷ ss) =
      let (t, b') = put_char_in b s (length s) in if is_okay t then put_all b' ss else none

  -- What `n` reads give out, up to the first that gives nothing.
  unfoldable pub take_out : ℕ → Boundary C → List (List ℕ)
  take_out zero b = []
  take_out (suc n) b = elim (get_ochar_out b) [
    | none ↦ []
    | some r ↦ elim r.next [
      | none ↦ []
      | some p ↦ cells r.boundary.ochars p (r.next_len - 1) ∷ take_out n r.boundary
    ]
  ]

  pub put_all_lem :
      (b : Boundary C) (done ss : List (List ℕ))
      → Carries done b
      → All IsText ss
      → b.c_now + total ss ≤ b.c_end
      → (b' : Boundary C) × (put_all b ss ≡ some b')
        × Carries (done ++ ss) b'
        × (b' ≡ record b { chars = b'.chars; c_now = b.c_now + total ss })
  unfolding put_all is_okay
  put_all_lem b done [] held texts h = (b, refl, rw append-nil held, ground arith)
  put_all_lem b done (s ∷ ss) held texts h =
      let fits : b.c_now + length s < b.c_end = omega arith in
      let (b', runs, carried, kept) =
        put_all_lem (after_put b s (length s)) (done ++ (s ∷ [])) ss
          (after_put-Carries b done s held texts.0 fits) texts.1 (omega arith) in
      (
        b',
        rw (put_fits b s (length s) fits held.small) runs,
        rw (append_assoc done (s ∷ []) ss) at carried,
        ground (arith, kept),
      )

-- A converter that turns each character into one OChar, by `f`, as those of the single-byte encodings
-- do, and does not fail where the target has the room.
pub record IsBytewise {C : Type 0} (f : ℕ → ℕ) (to_unicode : ToUnicode C) : Type 0 where
  pub conversion : IsConversion f
  pub converts :
      (c : C) (s : List ℕ) (room : ℕ)
      → length s ≤ room
      → to_unicode c s room ≡ record { converter = c; output = map f s; failed = false }

module _ {C : Type 0} (f : ℕ → ℕ) (to_unicode : ToUnicode C)
    (bytewise : IsBytewise f to_unicode) where
  abbrev pub flushed : Boundary C → Boundary C
  flushed b = record b {
    ochars = write_list b.ochars (map f (cells b.chars 0 b.c_now));
    c_now = 0;
    o_now = 0;
  }

  pub flush_runs :
      (b : Boundary C)
      → 0 < b.c_now
      → b.c_now ≤ b.o_end
      → flush_inbound to_unicode b ≡ (okay, flushed b)
  unfolding flush_inbound
  flush_runs b some_in room = ground (
    arith,
    some_in,
    bytewise.converts b.converter (cells b.chars 0 b.c_now) b.o_end
        (rw (length-cells b.chars 0 b.c_now) room),
  )

  pub flushed-Rows :
      (b : Boundary C) (ss : List (List ℕ))
      → Rows b.chars 0 b.c_now ss
      → Rows (flushed b).ochars 0 b.c_now (map (map f) ss)
  unfolding write_list
  flushed-Rows b ss rows =
      Rows-map f bytewise.conversion b.chars (flushed b).ochars 0 b.c_now ss
        (λ r lo hi. ground (
          arith,
          get_or-cells f b.chars 0 b.c_now r,
          length-map f (cells b.chars 0 b.c_now),
          length-cells b.chars 0 b.c_now,
        ))
        rows

module _ {C : Type 0} where
  abbrev pub after_out : Boundary C → ℕ → Boundary C
  after_out b l = record b { o_now = b.o_now + (l + 1) }

  pub get_ochar_out_runs :
      (b : Boundary C) (s : List ℕ)
      → StringAt b.ochars b.o_now s
      → IsText s
      → 0 < length s
      → b.o_now + (length s + 1) < b.o_end
      → get_ochar_out b
        ≡ some (record {
          status = okay;
          next = some b.o_now;
          next_len = length s + 1;
          boundary = after_out b (length s);
        })
  unfolding get_ochar_out
  get_ochar_out_runs b s at text some_in room = ground (
    arith,
    string_length-StringAt b.ochars b.o_now (b.o_end + 1 - b.o_now) s at text (omega arith),
    some_in,
    room,
  )

  pub get_ochar_out_resets :
      (b : Boundary C) (s : List ℕ)
      → StringAt b.ochars b.o_now s
      → IsText s
      → 0 < length s
      → b.o_now + (length s + 1) ≡ b.o_end
      → get_ochar_out b
        ≡ some (record { status = warn_boundary_reset; next = none; next_len = 0; boundary = b })
  unfolding get_ochar_out
  get_ochar_out_resets b s at text some_in room = ground (
    arith,
    string_length-StringAt b.ochars b.o_now (b.o_end + 1 - b.o_now) s at text (omega arith),
    some_in,
    room,
  )

  pub take_out-Rows :
      (b : Boundary C) (q : ℕ) (ss : List (List ℕ))
      → Rows b.ochars b.o_now q ss
      → All (λ s. 0 < length s) ss
      → q < b.o_end
      → take_out (length ss) b ≡ ss
  unfolding take_out
  take_out-Rows b q [] rows used room = refl
  take_out-Rows b q (s ∷ ss) rows used room =
      let far : b.o_now + length s + 1 + total ss ≡ q =
        Rows-total b.ochars (b.o_now + length s + 1) q ss rows.2 in
      ground (
        arith,
        get_ochar_out_runs b s rows.0 rows.1 used.0 (omega arith),
        cells-StringAt b.ochars b.o_now s rows.0,
        take_out-Rows (after_out b (length s)) q ss (rw (← add_assoc b.o_now (length s) 1) rows.2)
            used.1 room,
      )

  -- Where the strings end at `o_end` itself, the last one is not given out.
  pub take_out-Rows_full :
      (b : Boundary C) (ss : List (List ℕ)) (s : List ℕ)
      → Rows b.ochars b.o_now b.o_end (ss ++ (s ∷ []))
      → All (λ s. 0 < length s) (ss ++ (s ∷ []))
      → take_out (length (ss ++ (s ∷ []))) b ≡ ss
  unfolding take_out
  take_out-Rows_full b [] s rows used =
      ground (arith, get_ochar_out_resets b s rows.0 rows.1 used.0 (omega (arith, rows.2)))
  take_out-Rows_full b (t ∷ ss) s rows used =
      let far : b.o_now + length t + 1 + total (ss ++ (s ∷ [])) ≡ b.o_end =
        Rows-total b.ochars (b.o_now + length t + 1) b.o_end (ss ++ (s ∷ [])) rows.2 in
      ground (
        arith,
        get_ochar_out_runs b t rows.0 rows.1 used.0 (omega (arith, total-append_one ss s)),
        cells-StringAt b.ochars b.o_now t rows.0,
        take_out-Rows_full (after_out b (length t)) ss s
            (rw (← add_assoc b.o_now (length t) 1) rows.2) used.1,
      )
