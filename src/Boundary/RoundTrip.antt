-- ===== src/Boundary/RoundTrip.antt =====
-- A boundary from put_char_in to get_ochar_out, over a converter of single characters.
use oly.Prelude.{
  ℕ, ◌^◌, ◌≤◌, ◌<◌, ◌≡◌, List, [], ◌∷◌, ◌++◌, map, arith, length, All, some, sym, ap, ◌∙◌,
}
use mathlib.Core.Path.{subst, subst₂}
use oly.Status.{okay}
use oly.StringBuffer.Layout.{IsText}
use oly.Boundary.{Boundary, ToUnicode, flush_inbound}
use oly.Boundary.Rows.{Rows, total, total-append_one, length-map, map-append_one, IsUsed-map}
use oly.Boundary.Transfer.{
  IsBytewise, put_all, put_all_lem, take_out, take_out-Rows, take_out-Rows_full, flushed,
  flush_runs, flushed-Rows,
}

length-pos : (ss : List (List ℕ)) → 0 < length ss → 0 < total ss
length-pos [] h = h
length-pos (s ∷ ss) h = omega arith

module _ {C : Type 0} (f : ℕ → ℕ) (to_unicode : ToUnicode C)
    (bytewise : IsBytewise f to_unicode) where
  -- What is known of a boundary that took all of the strings and was flushed.
  abbrev pub Transferred : Boundary C → List (List ℕ) → List (List ℕ) → Type 0
  Transferred b ss out =
      (b' : Boundary C) × (d : Boundary C) × (put_all b ss ≡ some b')
      × (flush_inbound to_unicode b' ≡ (okay, d))
      × (take_out (length ss) d ≡ out)

  record Filled (b : Boundary C) (ss : List (List ℕ)) : Type 0 where
    filled : Boundary C
    runs : put_all b ss ≡ some filled
    flushes : flush_inbound to_unicode filled ≡ (okay, flushed f to_unicode bytewise filled)
    converted : Rows (flushed f to_unicode bytewise filled).ochars 0 (total ss) (map (map f) ss)
    same_end : filled.o_end ≡ b.o_end

  fills :
      (b : Boundary C) (ss : List (List ℕ))
      → b.c_now ≡ 0
      → b.c_end < 2 ^ 64
      → All IsText ss
      → 0 < total ss
      → total ss ≤ b.c_end
      → total ss ≤ b.o_end
      → Filled b ss
  fills b ss unused small texts some_in room oroom =
      let (b', runs, held, kept) =
        put_all_lem b [] ss (record { rows = sym unused; bounded = omega arith; small = small })
          texts (omega arith) in
      let now : b'.c_now ≡ total ss = ap (λ (c : Boundary C). c.c_now) kept ∙ (omega arith) in
      let end : b'.o_end ≡ b.o_end = ap (λ (c : Boundary C). c.o_end) kept in
      record {
        filled = b';
        runs = runs;
        flushes = flush_runs f to_unicode bytewise b' (omega arith) (omega arith);
        converted =
            subst (λ q. Rows (flushed f to_unicode bytewise b').ochars 0 q (map (map f) ss)) now
              (flushed-Rows f to_unicode bytewise b' ss held.rows);
        same_end = end;
      }

  -- With a converter of single characters, into a cleared boundary of less than 2^64 bytes: one
  -- string or more, none empty, that take with their terminators no more than the room for
  -- characters and less than that for OChars, are all accepted, the flush reports OLY_OKAY, and as
  -- many reads then give out the converted strings in order.
  pub transfer_roundtrip :
      (b : Boundary C) (ss : List (List ℕ))
      → b.c_now ≡ 0
      → b.c_end < 2 ^ 64
      → All IsText ss
      → All (λ s. 0 < length s) ss
      → 0 < length ss
      → total ss ≤ b.c_end
      → total ss < b.o_end
      → Transferred b ss (map (map f) ss)
  transfer_roundtrip b ss unused small texts used some_in room oroom =
      let w = fills b ss unused small texts (length-pos ss some_in) room (omega arith) in
      (
        w.filled,
        flushed f to_unicode bytewise w.filled,
        w.runs,
        w.flushes,
        rw (← length-map (map f) ss) (
            take_out-Rows (flushed f to_unicode bytewise w.filled) (total ss) (map (map f) ss)
              w.converted (IsUsed-map f ss used) (rw w.same_end oroom)),
      )

  -- With a converter of single characters, where non-empty strings with their terminators fit the
  -- room for characters of a cleared boundary of less than 2^64 bytes and just fill that for OChars,
  -- they are accepted and flushed with OLY_OKAY all the same, but as many reads give out all but the
  -- last one.
  pub transfer_loses_last :
      (b : Boundary C) (ss : List (List ℕ)) (s : List ℕ)
      → b.c_now ≡ 0
      → b.c_end < 2 ^ 64
      → All IsText (ss ++ (s ∷ []))
      → All (λ s. 0 < length s) (ss ++ (s ∷ []))
      → total (ss ++ (s ∷ [])) ≤ b.c_end
      → total (ss ++ (s ∷ [])) ≡ b.o_end
      → Transferred b (ss ++ (s ∷ [])) (map (map f) ss)
  transfer_loses_last b ss s unused small texts used room full =
      let w =
        fills b (ss ++ (s ∷ [])) unused small texts (total-append_one ss s) room (omega arith) in
      let d = flushed f to_unicode bytewise w.filled in
      (
        w.filled,
        d,
        w.runs,
        w.flushes,
        rw (← length-map (map f) (ss ++ (s ∷ []))) (
            rw (map-append_one (map f) ss s) (
              take_out-Rows_full d (map (map f) ss) (map f s)
                (subst₂ (λ q ts. Rows d.ochars 0 q ts) (full ∙ sym w.same_end)
                  (map-append_one (map f) ss s) w.converted)
                (subst (λ ts. All (λ s. 0 < length s) ts) (map-append_one (map f) ss s)
                  (IsUsed-map f (ss ++ (s ∷ [])) used)))),
      )
