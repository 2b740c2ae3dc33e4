-- ===== src/StringBuffer/Fifo/Put.antt =====
-- enqueue_to_string_buffer on a reserved, valid buffer.
pub mod Grown
use oly.Prelude.{
  ℕ, ◌+◌, ◌-◌, ◌≤◌, ◌<◌, ◌≡◌, ◌≢◌, ◌⊎◌, inl, inr, refl, none, some, List, [], ◌∷◌, ◌++◌, arith,
  true, false, Bool-cases, ◌∙◌, sym, ap, length, Memory, write, write_ne,
}
use mathlib.Core.Path.{subst}
use mathlib.Core.List.{append-nil, append_assoc}
use oly.Status.{okay}
use oly.StringBuffer.{
  StringBuffer, Enqueued, copy_in, enqueue_at, enqueue_to_string_buffer, finish_enqueue,
  write_pointer, with_write_pointer,
}
use oly.StringBuffer.Layout.{
  IsText, StringAt, StringAt-frame, Holds-frame, Holds-snoc, Holds-cong, Holds-empty,
}
use oly.StringBuffer.Copy.{copy_in-copier, copy_in_outside, copy_in-StringAt}
use oly.StringBuffer.Inv.{IsValid, Stands, room, front_read, front_write, back_write, is_single}
use oly.StringBuffer.Inv.Reserve.{Reserved}
use oly.StringBuffer.Fifo.Put.Grown.{
  stored, put, stored_outside, stored-StringAt, put-IsValid, memory-put, Stands-put,
}

pub finish_enqueue_okay :
    (b : StringBuffer) (start stop available copier : ℕ)
    → b.reserve_start ≡ some start
    → b.reserve_end ≡ some stop
    → available ≢ copier - start
    → finish_enqueue b start available copier
      ≡ some (record {
        status = okay;
        result = some start;
        length_out = some (copier - start);
        buffer = put b (write b.memory copier 0) (copier + 1);
      })
unfolding finish_enqueue
finish_enqueue_okay b start stop available copier f g ne = ground arith

-- What a successful enqueue returns.
abbrev pub taken : StringBuffer → ℕ → List ℕ → Enqueued
taken c n s = record {
  status = okay;
  result = some (write_pointer c);
  length_out = some (length s + 1);
  buffer =
      put c (stored c.memory (write_pointer c) (write_pointer c + (n + 1)) s)
        (write_pointer c + (length s + 2));
}

enqueue_at_okay :
    (c : StringBuffer) (w n : ℕ) (x : ℕ) (xs : List ℕ)
    → c.reserve_start ≡ some w
    → c.reserve_end ≡ some (w + (n + 1))
    → IsText (x ∷ xs)
    → length (x ∷ xs) ≤ n
    → length (x ∷ xs) + 1 ≢ n
    → enqueue_at c w (w + (n + 1)) (x ∷ xs)
      ≡ some (record {
        status = okay;
        result = some w;
        length_out = some (length (x ∷ xs) + 1);
        buffer = put c (stored c.memory w (w + (n + 1)) (x ∷ xs)) (w + (length (x ∷ xs) + 2));
      })
unfolding stored
enqueue_at_okay c w n x xs f g t h ne =
    let r = copy_in c.memory w (w + (n + 1)) (x ∷ xs) in
    let at : r.1 ≡ w + length (x ∷ xs) + 1 =
      copy_in-copier c.memory w (w + (n + 1)) (x ∷ xs) t (omega arith) in
    let one : w + length (x ∷ xs) + 1 - w ≡ length (x ∷ xs) + 1 = omega arith in
    let two : w + length (x ∷ xs) + 1 + 1 ≡ w + (length (x ∷ xs) + 2) = omega arith in
    ground (
      arith,
      at,
      one,
      two,
      finish_enqueue_okay (record c { memory = r.0 }) w (w + (n + 1)) (w + (n + 1) - w - 1) r.1 f g,
    )

-- On a valid buffer with a reservation of `n` OChars, a non-empty C string of at most `n` OChars, but not
-- of `n` - 1, is taken over where the part that is written has room for two OChars more: the call returns the place of the string and its
-- length with the terminator, releases the reservation and keeps the buffer valid, the string
-- stands at that place, and the queue has the string at its end.
pub enqueue_snoc :
    (c : StringBuffer) (n : ℕ) (s : List ℕ) (q : List (List ℕ))
    → IsValid c
    → Reserved n c
    → Stands c q
    → IsText s
    → s ≢ []
    → length s ≤ n
    → length s + 1 ≢ n
    → length s + 2 ≤ room c
    → let e = taken c n s in
      (enqueue_to_string_buffer c s ≡ some e)
      × IsValid e.buffer
      × Stands e.buffer (q ++ (s ∷ []))
      × StringAt e.buffer.memory (write_pointer c) s
      × (e.buffer.reserve_start ≡ none)
unfolding enqueue_to_string_buffer
enqueue_snoc c n [] q v res h t ne le other fits = absurd (ne refl)
enqueue_snoc c n (x ∷ xs) q v res h t ne le other fits =
    let w = write_pointer c in
    let s = x ∷ xs in
    let small : w + length s < w + (n + 1) = omega arith in
    let m = stored c.memory w (w + (n + 1)) s in
    let at : StringAt m w s = stored-StringAt c.memory w (w + (n + 1)) s t small in
    (
      ground (arith, res.start, res.stop, enqueue_at_okay c w n x xs res.start res.stop t le other),
      put-IsValid c m (length s + 2) v (omega arith) fits,
      Stands-put c m q s v fits (λ r. stored_outside c.memory w (w + (n + 1)) s r t small) at t h,
      subst (λ f. StringAt f w s) (sym (memory-put c m (w + (length s + 2)))) at,
      refl,
    )
