-- ===== src/StringBuffer/Tests.antt =====
-- Runs of the string buffer, and the theorems at concrete buffers.
use oly.Prelude.{ℕ, ◌+◌, ◌<◌, ◌≡◌, refl, arith, false, none, some, List, [], ◌∷◌, Memory, get_or}
use oly.Status.{Status, okay, err_buffer_overflow}
use oly.StringBuffer.{
  StringBuffer, space_available, write_a_read_a, write_b_read_a, reserve_string_buffer,
  enqueue_to_string_buffer, dequeue_from_string_buffer, write_pointer,
}
use oly.StringBuffer.Layout.{IsText, StringAt}
use oly.StringBuffer.Inv.{room, IsValid, Stands}
use oly.StringBuffer.Inv.Reserve.{Granted, Reserved, reserve-Granted}
use oly.StringBuffer.Fifo.Put.{taken, enqueue_snoc}
use oly.StringBuffer.Fifo.Take.{dequeue_cons, dequeue_overflow}
use oly.StringBuffer.Fifo.Run.{run, run_refines}
use oly.StringBuffer.Fifo.Run.Calls.{Op, Reply, Specs, put, get}

abbrev fresh : Memory
fresh q = 0

abbrev hi : List ℕ
hi = b'h' ∷ b'i' ∷ []

abbrev long : List ℕ
long = b'h' ∷ b'e' ∷ b'l' ∷ b'l' ∷ b'o' ∷ b'!' ∷ []

abbrev empty : StringBuffer
empty = record {
  memory = fresh;
  read_a = 0;
  write_a = 0;
  read_b = 0;
  write_b = 0;
  buffer_end = 32;
  reserve_start = none;
  reserve_end = none;
  state = write_a_read_a;
  keep_long_strings = false;
}

-- With `hi` in the front part, at offset 5.
abbrev one : StringBuffer
one = record empty {
  memory = λ q. get_or (0 ∷ 0 ∷ 0 ∷ 0 ∷ 0 ∷ b'h' ∷ b'i' ∷ []) q 0;
  read_a = 5;
  write_a = 9;
}

abbrev reserved : ℕ → StringBuffer → StringBuffer
reserved n b = record b {
  reserve_start = some (write_pointer b);
  reserve_end = some (write_pointer b + (n + 1));
}

-- Turned: the back part is written before the unread `hi`.
abbrev turned : StringBuffer
turned = record one { state = write_b_read_a }

empty-IsValid : IsValid empty
empty-IsValid = ground arith

one-IsValid : IsValid one
one-IsValid = ground arith

abbrev empty-Stands : Stands empty []
empty-Stands = ([], [], refl, refl, refl)

hi-IsText : IsText hi
hi-IsText = ground arith

long-IsText : IsText long
long-IsText = ground arith

abbrev one-Stands : Stands one (hi ∷ [])
one-Stands = (hi ∷ [], [], ((refl, (refl, refl)), hi-IsText, refl), refl, refl)

abbrev hi-Reserved : (n : ℕ) → n + 1 < 23 → Reserved n (reserved n one)
hi-Reserved n h = record { start = refl; stop = refl; fits = omega (arith, h) }

reserved-IsValid : (n : ℕ) → IsValid (reserved n one)
reserved-IsValid n = ground arith

-- A buffer that ends close behind `hi`.
abbrev small : StringBuffer
small = record one { buffer_end = 15 }

small-IsValid : IsValid (reserved 4 small)
small-IsValid = ground arith

abbrev script : List Op
script = put hi ∷ get fresh 16 ∷ []

reserve-Granted_example :
    (status : Status) × (c : StringBuffer) × (reserve_string_buffer one 4 ≡ some (status, c))
    × Granted one 4 status c
    × Stands c (hi ∷ [])
    × (room c ≡ (space_available one).1)
reserve-Granted_example = reserve-Granted one 4 (hi ∷ []) one-IsValid refl one-Stands (omega arith)

enqueue_snoc_example :
    let e = taken (reserved 4 one) 4 hi in
    (enqueue_to_string_buffer (reserved 4 one) hi ≡ some e)
    × IsValid e.buffer
    × Stands e.buffer (hi ∷ hi ∷ [])
    × StringAt e.buffer.memory 9 hi
    × (e.buffer.reserve_start ≡ none)
enqueue_snoc_example =
    enqueue_snoc (reserved 4 one) 4 hi (hi ∷ []) (reserved-IsValid 4) (hi-Reserved 4 (omega arith))
      one-Stands hi-IsText (ground arith) (omega arith) (omega arith) (omega arith)

dequeue_cons_example :
    let r = dequeue_from_string_buffer one fresh 8 in
    (r.status ≡ okay)
    × (r.length ≡ some 3)
    × StringAt r.dest 0 hi
    × IsValid r.buffer
    × Stands r.buffer []
dequeue_cons_example = dequeue_cons one fresh 8 hi [] one-IsValid one-Stands (omega arith)

dequeue_overflow_example :
    let r = dequeue_from_string_buffer one fresh 4 in
    (r.status ≡ err_buffer_overflow) × (r.dest 0 ≡ 0) × (r.length ≡ none) × (r.buffer ≡ one)
dequeue_overflow_example = dequeue_overflow one fresh 4 hi [] one-IsValid one-Stands (omega arith)

run_refines_example :
    (rs : List Reply) × (c : StringBuffer) × (q : List (List ℕ)) × (run empty script ≡ some (rs, c))
    × Specs empty.buffer_end [] script rs q
    × Stands c q
run_refines_example =
    run_refines script empty [] (record { valid = empty-IsValid; free = refl }) empty-Stands
      ((hi-IsText, ground arith, omega arith), ground arith)
