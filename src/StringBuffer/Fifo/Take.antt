-- ===== src/StringBuffer/Fifo/Take.antt =====
-- dequeue_from_string_buffer on a valid buffer.
pub mod Advance
use oly.Prelude.{
  ℕ, ◌+◌, ◌-◌, ◌≤◌, ◌<◌, ◌≡◌, inl, inr, refl, none, some, List, [], ◌∷◌, ◌++◌, arith, false,
  Bool-cases, ◌∙◌, sym, length, Memory, write, write_self,
}
use mathlib.Core.Path.{subst}
use mathlib.Core.List.{append-nil}
use native.Mathlib.Decide.{dec_lt}
use oly.Status.{okay, err_buffer_overflow, warn_buffer_empty}
use oly.StringBuffer.{
  StringBuffer, copy_out, dequeue_from_string_buffer, advance_read, is_buffer_empty, read_pointer,
}
use oly.StringBuffer.Layout.{IsText, StringAt, Holds, Holds-le, Holds-cong, Holds-empty}
use oly.StringBuffer.Copy.{copy_out-copier, copy_out_short, copy_out-StringAt}
use oly.StringBuffer.Inv.{IsValid, Stands, front_read, front_write, back_write, is_single}
use oly.StringBuffer.Fifo.Take.Advance.{After, After-advance_read, front_of_cons, full_nonempty}

-- What `dequeue_from_string_buffer` does with a string at the read pointer, by the size given.
dequeue_enough :
    (c : StringBuffer) (dest : Memory) (size : ℕ) (s : List ℕ)
    → is_buffer_empty c ≡ false
    → StringAt c.memory (front_read c) s
    → IsText s
    → length s + 3 ≤ size
    → dequeue_from_string_buffer c dest size ≡ record {
      status = okay;
      dest = (copy_out c.memory (front_read c) dest 0 (size - 1)).0;
      length = some (length s + 1);
      buffer = advance_read c (length s + 1);
    }
unfolding dequeue_from_string_buffer
dequeue_enough c dest size s f at t h =
    ground (arith, copy_out-copier c.memory (front_read c) dest 0 (size - 1) s at t (omega arith))

dequeue_short :
    (c : StringBuffer) (dest : Memory) (size : ℕ) (s : List ℕ)
    → is_buffer_empty c ≡ false
    → StringAt c.memory (front_read c) s
    → IsText s
    → size < length s + 3
    → dequeue_from_string_buffer c dest size ≡ record {
      status = err_buffer_overflow;
      dest = write (copy_out c.memory (front_read c) dest 0 (size - 1)).0 0 0;
      length = none;
      buffer = c;
    }
unfolding dequeue_from_string_buffer
dequeue_short c dest size s f at t h = elim (dec_lt (size - 1) (length s)) [
  | yes lt ↦ ground (arith, copy_out_short c.memory (front_read c) dest 0 (size - 1) s at t lt)
  | no ge ↦
      ground (arith, copy_out-copier c.memory (front_read c) dest 0 (size - 1) s at t (omega arith))
]

-- The facts about the head of the queue that both calls need.
record Head (c : StringBuffer) (s : List ℕ) (q : List (List ℕ)) : Type 0 where
  nonempty : is_buffer_empty c ≡ false
  string : StringAt c.memory (front_read c) s
  text : IsText s
  after : After (advance_read c (length s + 1)) q

Head-Stands :
    (c : StringBuffer) (s : List ℕ) (q : List (List ℕ)) → IsValid c → Stands c (s ∷ q) → Head c s q
Head-Stands c s q v h =
    let split = front_of_cons c s q h.0 h.1 v h.2 h.3 h.4 in
    let front : Holds c.memory (front_read c) (front_write c) (s ∷ split.0) =
      subst (λ xs. Holds c.memory (front_read c) (front_write c) xs) split.1 h.2 in
    record {
      nonempty = full_nonempty c v (
          omega (
            arith,
            Holds-le c.memory (front_read c + length s + 2) (front_write c) split.0 front.2,
          ));
      string = front.0;
      text = front.1;
      after = rw split.2 (After-advance_read c s split.0 h.1 v front h.3);
    }

-- On a valid buffer, a destination of two cells more than the oldest string and its terminator, or
-- of more, receives the string with its terminator, and its length with the terminator; the buffer
-- stays valid and stands for the rest of the queue.
pub dequeue_cons :
    (c : StringBuffer) (dest : Memory) (size : ℕ) (s : List ℕ) (q : List (List ℕ))
    → IsValid c
    → Stands c (s ∷ q)
    → length s + 3 ≤ size
    → let r = dequeue_from_string_buffer c dest size in
      (r.status ≡ okay)
      × (r.length ≡ some (length s + 1))
      × StringAt r.dest 0 s
      × IsValid r.buffer
      × Stands r.buffer q
dequeue_cons c dest size s q v h enough =
    let hd : Head c s q = Head-Stands c s q v h in
    rw (dequeue_enough c dest size s hd.nonempty hd.string hd.text enough) (
      refl,
      refl,
      copy_out-StringAt c.memory (front_read c) dest 0 (size - 1) s hd.string hd.text (omega arith),
      hd.after.0,
      hd.after.1,
    )

-- On a valid buffer with a string to be read, a destination with less than two cells more than the
-- string and its terminator, also one that just holds these, gets an empty string and the overflow status, and nothing is consumed.
pub dequeue_overflow :
    (c : StringBuffer) (dest : Memory) (size : ℕ) (s : List ℕ) (q : List (List ℕ))
    → IsValid c
    → Stands c (s ∷ q)
    → size < length s + 3
    → let r = dequeue_from_string_buffer c dest size in
      (r.status ≡ err_buffer_overflow) × (r.dest 0 ≡ 0) × (r.length ≡ none) × (r.buffer ≡ c)
dequeue_overflow c dest size s q v h short =
    let hd : Head c s q = Head-Stands c s q v h in
    rw (dequeue_short c dest size s hd.nonempty hd.string hd.text short)
      (refl, write_self (copy_out c.memory (front_read c) dest 0 (size - 1)).0 0 0, refl, refl)

pub empty_of_nil :
    (c : StringBuffer) (xs ys : List (List ℕ))
    → IsValid c
    → Holds c.memory (front_read c) (front_write c) xs
    → [] ≡ xs ++ ys
    → (front_read c ≡ 0) × (front_write c ≡ 0) × (back_write c ≡ 0)
empty_of_nil c [] ys v h e = ground arith
empty_of_nil c (x ∷ xs) ys v h e = absurd (cc)

empty_pointers :
    (c : StringBuffer)
    → IsValid c
    → front_read c ≡ 0
    → front_write c ≡ 0
    → back_write c ≡ 0
    → (c.read_a ≡ 0) × (c.write_a ≡ 0) × (c.read_b ≡ 0) × (c.write_b ≡ 0)
empty_pointers c v e f g = ground arith

-- On a valid buffer that stands for the empty queue, this is reported, with an empty string, and
-- the buffer is ready to be written again.
pub dequeue_nil :
    (c : StringBuffer) (dest : Memory) (size : ℕ)
    → IsValid c
    → Stands c []
    → let r = dequeue_from_string_buffer c dest size in
      (r.status ≡ warn_buffer_empty)
      × (r.dest 0 ≡ 0)
      × (r.length ≡ none)
      × IsValid r.buffer
      × Stands r.buffer []
unfolding dequeue_from_string_buffer is_buffer_empty
dequeue_nil c dest size v h =
    let z = empty_of_nil c h.0 h.1 v h.2 h.4 in
    let p = empty_pointers c v z.0 z.1 z.2 in
    rw (p.1, p.3) (refl, write_self dest 0 0, refl, ground arith, ([], [], p.0, refl, refl))

reserve-advance_read :
    (c : StringBuffer) (k : ℕ) → (advance_read c k).reserve_start ≡ c.reserve_start
unfolding advance_read
reserve-advance_read c k = ground arith

-- Reading leaves a reservation alone.
pub reserve-dequeue :
    (c : StringBuffer) (dest : Memory) (size : ℕ)
    → (dequeue_from_string_buffer c dest size).buffer.reserve_start ≡ c.reserve_start
unfolding dequeue_from_string_buffer
reserve-dequeue c dest size =
    ground (arith, reserve-advance_read c (copy_out c.memory (read_pointer c) dest 0 (size - 1)).1)

buffer_end-advance_read : (c : StringBuffer) (k : ℕ) → (advance_read c k).buffer_end ≡ c.buffer_end
unfolding advance_read
buffer_end-advance_read c k = ground arith

-- Reading leaves the size of the buffer alone.
pub buffer_end-dequeue :
    (c : StringBuffer) (dest : Memory) (size : ℕ)
    → (dequeue_from_string_buffer c dest size).buffer.buffer_end ≡ c.buffer_end
unfolding dequeue_from_string_buffer
buffer_end-dequeue c dest size =
    ground
      (arith, buffer_end-advance_read c (copy_out c.memory (read_pointer c) dest 0 (size - 1)).1)
