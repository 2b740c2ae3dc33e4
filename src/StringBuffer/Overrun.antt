-- ===== src/StringBuffer/Overrun.antt =====
-- What enqueue_to_string_buffer does with a string that fills its reservation or is longer than it.
use oly.Prelude.{
  ℕ, ◌+◌, ◌-◌, ◌≤◌, ◌<◌, ◌≡◌, ◌≢◌, refl, none, some, List, [], ◌∷◌, write, arith, true, false, ◌∙◌,
  sym, length, Memory, write_self, ap,
}
use oly.Status.{okay, warn_long_string, warn_buffer_write_lock}
use oly.StringBuffer.{
  StringBuffer, Enqueued, copy_in, enqueue_at, enqueue_to_string_buffer, finish_enqueue,
  reserve_string_buffer, write_pointer,
}
use oly.StringBuffer.Layout.{IsText}
use oly.StringBuffer.Copy.{copy_in-copier}
use oly.StringBuffer.Inv.{IsValid, room, front_read, is_single}
use oly.StringBuffer.Inv.Reserve.{Reserved}
use oly.StringBuffer.Fifo.Put.Grown.{put, memory-put}
use oly.StringBuffer.Fifo.Put.{finish_enqueue_okay}

-- The copy of a string that does not fit stops at the end of the reservation.
copy_in_full :
    (m : Memory) (p e : ℕ) (s : List ℕ)
    → IsText s
    → p < e
    → e ≤ p + length s + 1
    → (copy_in m p e s).1 ≡ e
unfolding copy_in
copy_in_full m p e [] t lt h = omega arith
copy_in_full m p e (c ∷ cs) t lt h = ground (arith, copy_in_full (write m p c) (p + 1) e cs)

-- A string that is at least as long as its reservation.
abbrev Filling : ℕ → List ℕ → Type 0
Filling n s = IsText s × (s ≢ []) × (n ≤ length s)

abbrev filled : StringBuffer → ℕ → List ℕ → Enqueued
filled c n s = record {
  status = okay;
  result = some (write_pointer c);
  length_out = some (n + 1);
  buffer =
      put c
        (write (copy_in c.memory (write_pointer c) (write_pointer c + (n + 1)) s).0
          (write_pointer c + (n + 1)) 0)
        (write_pointer c + (n + 1) + 1);
}

enqueue_at_filled :
    (c : StringBuffer) (w n x : ℕ) (xs : List ℕ)
    → c.reserve_start ≡ some w
    → c.reserve_end ≡ some (w + (n + 1))
    → IsText (x ∷ xs)
    → n ≤ length (x ∷ xs)
    → enqueue_at c w (w + (n + 1)) (x ∷ xs)
      ≡ some (record {
        status = okay;
        result = some w;
        length_out = some (n + 1);
        buffer =
            put c
              (write (copy_in c.memory w (w + (n + 1)) (x ∷ xs)).0 (w + (n + 1)) 0)
              (w + (n + 1) + 1);
      })
enqueue_at_filled c w n x xs f g t h =
    let r = copy_in c.memory w (w + (n + 1)) (x ∷ xs) in
    let at : r.1 ≡ w + (n + 1) =
      copy_in_full c.memory w (w + (n + 1)) (x ∷ xs) t (omega arith) (omega arith) in
    let one : w + (n + 1) - w ≡ n + 1 = omega arith in
    ground (
      arith,
      at,
      one,
      finish_enqueue_okay (record c { memory = r.0 }) w (w + (n + 1)) (w + (n + 1) - w - 1) r.1 f g,
    )

enqueue_filled :
    (c : StringBuffer) (n : ℕ) (s : List ℕ)
    → Reserved n c
    → Filling n s
    → enqueue_to_string_buffer c s ≡ some (filled c n s)
unfolding enqueue_to_string_buffer
enqueue_filled c n [] res f = absurd (f.1 refl)
enqueue_filled c n (x ∷ xs) res f = ground (
  arith,
  res.start,
  res.stop,
  enqueue_at_filled c (write_pointer c) n x xs res.start res.stop f.0 f.2,
)

-- A non-empty C string as long as its reservation or longer is taken over up to the reservation's
-- length and one OChar more, with the status OLY_OKAY: no warning tells the caller that the rest is
-- lost.
enqueue_truncates :
    (c : StringBuffer) (n : ℕ) (s : List ℕ)
    → Reserved n c
    → Filling n s
    → (e : Enqueued) × (enqueue_to_string_buffer c s ≡ some e)
      × (e.status ≡ okay)
      × (e.length_out ≡ some (n + 1))
      × (e.buffer.reserve_start ≡ none)
enqueue_truncates c n s res f = (filled c n s, enqueue_filled c n s res f, refl, refl, refl)

-- Where the reservation of such a string takes all the room that a turned buffer has before its
-- unread front part, the terminator lands on
-- the first OChar that is still to be read.
enqueue_overwrites_unread :
    (c : StringBuffer) (n : ℕ) (s : List ℕ)
    → Reserved n c
    → Filling n s
    → is_single c.state ≡ false
    → room c ≡ n + 1
    → (e : Enqueued) × (enqueue_to_string_buffer c s ≡ some e)
      × (e.status ≡ okay)
      × (e.buffer.memory (front_read c) ≡ 0)
enqueue_overwrites_unread c n s res f two tight =
    let m = (copy_in c.memory (write_pointer c) (write_pointer c + (n + 1)) s).0 in
    let at : write_pointer c + (n + 1) ≡ front_read c = ground arith in
    (
      filled c n s,
      enqueue_filled c n s res f,
      refl,
      ap (λ (g : Memory). g (front_read c))
            (memory-put c (write m (write_pointer c + (n + 1)) 0) (write_pointer c + (n + 1) + 1))
          ∙ ap (write m (write_pointer c + (n + 1)) 0) (sym at)
          ∙ write_self m (write_pointer c + (n + 1)) 0,
    )

-- Where the reservation of such a string takes all the room before the end of a valid buffer with
-- one part, the write pointer comes to `buffer_end`, and every later reservation fails its
-- assertion.
enqueue_blocks_reserve :
    (c : StringBuffer) (n k : ℕ) (s : List ℕ)
    → IsValid c
    → Reserved n c
    → Filling n s
    → is_single c.state ≡ true
    → room c ≡ n + 1
    → (e : Enqueued) × (enqueue_to_string_buffer c s ≡ some e)
      × (e.status ≡ okay)
      × (reserve_string_buffer e.buffer k ≡ none)
unfolding reserve_string_buffer
enqueue_blocks_reserve c n k s v res f one tight =
    (filled c n s, enqueue_filled c n s res f, refl, ground arith)

finish_enqueue_long :
    (b : StringBuffer) (start available copier : ℕ)
    → b.keep_long_strings ≡ false
    → available ≡ copier - start
    → finish_enqueue b start available copier
      ≡ some (record {
        status = warn_long_string;
        result = some start;
        length_out = some (copier - start);
        buffer = record b { memory = write b.memory copier 0 };
      })
unfolding finish_enqueue
finish_enqueue_long b start available copier k e = ground arith

enqueue_at_long :
    (c : StringBuffer) (w n x : ℕ) (xs : List ℕ)
    → c.keep_long_strings ≡ false
    → IsText (x ∷ xs)
    → length (x ∷ xs) + 1 ≡ n
    → enqueue_at c w (w + (n + 1)) (x ∷ xs)
      ≡ some (record {
        status = warn_long_string;
        result = some w;
        length_out = some n;
        buffer = record c {
          memory = write (copy_in c.memory w (w + (n + 1)) (x ∷ xs)).0 (w + n) 0;
        };
      })
enqueue_at_long c w n x xs keep t e =
    let r = copy_in c.memory w (w + (n + 1)) (x ∷ xs) in
    let at : r.1 ≡ w + n =
      copy_in-copier c.memory w (w + (n + 1)) (x ∷ xs) t (omega arith) ∙ omega arith in
    let one : w + n - w ≡ n = omega arith in
    ground (
      arith,
      at,
      one,
      finish_enqueue_long (record c { memory = r.0 }) w (w + (n + 1) - w - 1) r.1 keep,
    )

-- On a valid buffer that is not set to keep long strings, the warning OLY_WARN_LONG_STRING is given
-- for the non-empty strings that are one OChar shorter than their
-- reservation, though these fit: no pointer moves, and the reservation stays, so that the next one
-- is refused as locked.
enqueue_warns :
    (c : StringBuffer) (n k : ℕ) (s : List ℕ)
    → IsValid c
    → Reserved n c
    → c.keep_long_strings ≡ false
    → IsText s
    → s ≢ []
    → length s + 1 ≡ n
    → (e : Enqueued) × (enqueue_to_string_buffer c s ≡ some e)
      × (e.status ≡ warn_long_string)
      × (e.buffer ≡ record c { memory = e.buffer.memory })
      × (reserve_string_buffer e.buffer k ≡ some (warn_buffer_write_lock, e.buffer))
unfolding enqueue_to_string_buffer reserve_string_buffer
enqueue_warns c n k [] v res keep t ne e = absurd (ne refl)
enqueue_warns c n k (x ∷ xs) v res keep t ne e = (
  record {
    status = warn_long_string;
    result = some (write_pointer c);
    length_out = some n;
    buffer = record c {
      memory =
          write (copy_in c.memory (write_pointer c) (write_pointer c + (n + 1)) (x ∷ xs)).0
            (write_pointer c + n) 0;
    };
  },
  ground (arith, res.start, res.stop, enqueue_at_long c (write_pointer c) n x xs keep t e),
  refl,
  refl,
  ground (arith, res.start),
)
