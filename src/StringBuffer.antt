-- ===== src/StringBuffer.antt =====
-- The bipartite string buffer of src/core/string_buffer.c and src/core/pvt_string_buffer.h.
-- A pointer into the buffer is its offset from `buffer_start`, NULL is `none`, and the memory is a
-- function of the offset. Where an assertion of the source fails, the operation is `none`.
pub mod Layout
pub mod Copy
pub mod Inv
pub mod Fifo
pub mod Overrun
mod Tests
use oly.Prelude.{
  ℕ, zero, suc, ◌+◌, ◌-◌, ◌%◌, ◌^◌, Bool, true, false, ◌&&◌, not, Option, none, some, List, [], ◌∷◌,
  ltb, leb, ◌==◌, if◌then◌else◌, Memory, write,
}
use oly.Status.{
  Status, okay, warn_buffer_empty, warn_buffer_write_lock, warn_long_string, err_buffer_overflow,
  err_no_reservation,
}

pub data State : Type 0 where
  write_a_read_a write_b_read_a write_b_read_b write_a_read_b : State

pub record StringBuffer : Type 0 where
  pub memory : Memory
  pub read_a : ℕ
  pub write_a : ℕ
  pub read_b : ℕ
  pub write_b : ℕ
  pub buffer_end : ℕ
  pub reserve_start : Option ℕ
  pub reserve_end : Option ℕ
  pub state : State
  pub keep_long_strings : Bool

-- A difference of two pointers that is stored in a size_t.
abbrev pub size_diff : ℕ → ℕ → ℕ
size_diff p q = (p + 2 ^ 64 - q) % 2 ^ 64

unfoldable pub get_lower_write : StringBuffer → ℕ
get_lower_write b = if leb b.write_a b.write_b then b.write_a else b.write_b

unfoldable pub get_higher_write : StringBuffer → ℕ
get_higher_write b = if leb b.write_a b.write_b then b.write_b else b.write_a

unfoldable pub get_higher_read : StringBuffer → ℕ
get_higher_read b = if leb b.read_a b.read_b then b.read_b else b.read_a

unfoldable pub length_at_end : StringBuffer → ℕ
length_at_end b = size_diff (b.buffer_end - 1) (get_higher_write b)

unfoldable pub length_at_start : StringBuffer → ℕ
length_at_start b = size_diff (get_higher_read b) (get_lower_write b)

-- The branch of the two states that may turn to the start of the buffer.
abbrev pub space_or_turn : State → StringBuffer → StringBuffer × ℕ
space_or_turn turned b =
    if leb (length_at_start b) (length_at_end b)
    then (b, length_at_end b)
    else (record b { state = turned }, length_at_start b)

abbrev pub space_in : State → StringBuffer → StringBuffer × ℕ
space_in write_a_read_a b = space_or_turn write_b_read_a b
space_in write_b_read_b b = space_or_turn write_a_read_b b
space_in write_b_read_a b = (b, length_at_start b)
space_in write_a_read_b b = (b, length_at_start b)

-- The status is always OLY_OKAY.
unfoldable pub space_available : StringBuffer → StringBuffer × ℕ
space_available b = space_in b.state b

unfoldable pub is_buffer_empty : StringBuffer → Bool
is_buffer_empty b = b.write_a == 0 && b.write_b == 0

abbrev pub is_some {ℓ} : {A : Type ℓ} → Option A → Bool
is_some none = false
is_some (some _) = true

unfoldable pub release_reserve : StringBuffer → Option StringBuffer
release_reserve b =
    if is_some b.reserve_start && is_some b.reserve_end
    then some (record b { reserve_start = none; reserve_end = none })
    else none

-- The write pointer of the part that `state` writes to.
abbrev pub writes_a : State → Bool
writes_a write_a_read_a = true
writes_a write_a_read_b = true
writes_a write_b_read_b = false
writes_a write_b_read_a = false

abbrev pub reads_a : State → Bool
reads_a write_a_read_a = true
reads_a write_b_read_a = true
reads_a write_b_read_b = false
reads_a write_a_read_b = false

abbrev pub write_pointer : StringBuffer → ℕ
write_pointer b = if writes_a b.state then b.write_a else b.write_b

-- The tail of `reserve_string_buffer`, with the buffer and the space after `space_available`. The sum
-- is a size_t, which wraps.
unfoldable pub set_reserve : StringBuffer → ℕ → ℕ → Status × StringBuffer
set_reserve b available length =
    if ltb available ((length + 1) % 2 ^ 64) then (err_buffer_overflow, b) else (
      okay,
      record b {
        reserve_start = some (write_pointer b);
        reserve_end = some (write_pointer b + (length + 1) % 2 ^ 64);
      },
    )

-- The two assertions that can fail; `buffer_start <= write` holds of every offset.
unfoldable pub reserve_string_buffer : StringBuffer → ℕ → Option (Status × StringBuffer)
unfolding set_reserve
reserve_string_buffer b length =
    if ltb b.write_a b.buffer_end && ltb b.write_b b.buffer_end
    then (if is_some b.reserve_start
        then some (warn_buffer_write_lock, b)
        else some (set_reserve (space_available b).0 (space_available b).1 length))
    else none

-- `while ((*(copier++) = *(string++)) != 0 && copier < reserve_end);` on a string given by the
-- OChars before its terminator. Returns the memory and `copier`.
unfoldable pub copy_in : Memory → ℕ → ℕ → List ℕ → Memory × ℕ
copy_in m copier reserve_end [] = (write m copier 0, copier + 1)
copy_in m copier reserve_end (c ∷ cs) =
    let rest = copy_in (write m copier c) (copier + 1) reserve_end cs in
    if not (c == 0) && ltb (copier + 1) reserve_end then rest else (write m copier c, copier + 1)

-- `*string == 0`
abbrev pub is_empty_string : List ℕ → Bool
is_empty_string [] = true
is_empty_string (c ∷ cs) = c == 0

-- What an enqueue gives back: the status, `*result` and `*length_out` where they are set.
pub record Enqueued : Type 0 where
  pub status : Status
  pub result : Option ℕ
  pub length_out : Option ℕ
  pub buffer : StringBuffer

abbrev pub with_write_pointer : StringBuffer → ℕ → StringBuffer
with_write_pointer b p =
    if writes_a b.state then record b { write_a = p } else record b { write_b = p }

-- The end of `enqueue_to_string_buffer`: `*copier = 0`, the length, the warning, the write pointer.
unfoldable pub finish_enqueue : StringBuffer → ℕ → ℕ → ℕ → Option Enqueued
unfolding release_reserve
finish_enqueue b start available copier =
    let b' = record b { memory = write b.memory copier 0 } in
    let long = available == copier - start in
    let out : Status → StringBuffer → Enqueued = λ s c. record {
      status = s;
      result = some start;
      length_out = some (copier - start);
      buffer = c;
    } in
    if long && not b.keep_long_strings
    then some (out warn_long_string b')
    else (elim (release_reserve (with_write_pointer b' (copier + 1))) [
      | none ↦ none
      | some c ↦ some (out (if long then warn_long_string else okay) c)
    ])

abbrev pub enqueue_at : StringBuffer → ℕ → ℕ → List ℕ → Option Enqueued
enqueue_at b start reserve_end string =
    if is_empty_string string
    then (elim (release_reserve b) [
      | none ↦ none
      | some c ↦ some (record { status = okay; result = none; length_out = some 0; buffer = c })
    ])
    else (let (m, copier) = copy_in b.memory start reserve_end string in
        finish_enqueue (record b { memory = m }) start (reserve_end - start - 1) copier)

abbrev pub no_reservation : StringBuffer → Option Enqueued
no_reservation b =
    some (record { status = err_no_reservation; result = none; length_out = none; buffer = b })

unfoldable pub enqueue_to_string_buffer : StringBuffer → List ℕ → Option Enqueued
unfolding copy_in finish_enqueue
enqueue_to_string_buffer b string = elim b.reserve_start [
  | none ↦ no_reservation b
  | some s ↦ elim b.reserve_end [ none ↦ no_reservation b | some e ↦ enqueue_at b s e string ]
]

-- `while (((*(copier++) = *(next++)) != 0) && ( copier < stop ));` with `copier` the offset in the
-- destination and `room` the rounds that `copier < stop` leaves after this one.
unfoldable pub copy_out : Memory → ℕ → Memory → ℕ → ℕ → Memory × ℕ
copy_out m next dest copier zero = (write dest copier (m next), copier + 1)
copy_out m next dest copier (suc room) =
    let rest = copy_out m (next + 1) (write dest copier (m next)) (copier + 1) room in
    if m next == 0 then (write dest copier (m next), copier + 1) else rest

pub record Dequeued : Type 0 where
  pub status : Status
  pub dest : Memory
  pub length : Option ℕ
  pub buffer : StringBuffer

-- The switch at the end of `dequeue_from_string_buffer`.
unfoldable pub end_of_part : StringBuffer → StringBuffer
end_of_part b =
    if reads_a b.state
    then (if leb b.write_a b.read_a
        then record b { read_a = 0; write_a = 0; state = write_b_read_b }
        else b)
    else (if leb b.write_b b.read_b
        then record b { read_b = 0; write_b = 0; state = write_a_read_a }
        else b)

abbrev pub read_pointer : StringBuffer → ℕ
read_pointer b = if reads_a b.state then b.read_a else b.read_b

abbrev pub with_read_pointer : StringBuffer → ℕ → StringBuffer
with_read_pointer b p = if reads_a b.state then record b { read_a = p } else record b { read_b = p }

-- `(*read) += (*length + 1)` and the test against the higher write pointer.
unfoldable pub advance_read : StringBuffer → ℕ → StringBuffer
unfolding end_of_part get_higher_write
advance_read b length =
    let p = read_pointer b + (length + 1) in
    let b' = with_read_pointer b p in if leb (get_higher_write b') p then end_of_part b' else b'

unfoldable pub dequeue_from_string_buffer : StringBuffer → Memory → ℕ → Dequeued
dequeue_from_string_buffer b dest size_in =
    if is_buffer_empty b
    then record {
      status = warn_buffer_empty;
      dest = write dest 0 0;
      length = none;
      buffer = record b { state = write_a_read_a };
    }
    else (let (d, copier) = copy_out b.memory (read_pointer b) dest 0 (size_in - 1) in
        if leb size_in (copier + 1)
        then record { status = err_buffer_overflow; dest = write d 0 0; length = none; buffer = b }
        else record {
          status = okay;
          dest = d;
          length = some copier;
          buffer = advance_read b copier;
        })

-- `open_string_buffer` with the size that the configuration gives and the memory that `omalloc`
-- returns. `ocalloc` clears the rest of the struct.
unfoldable pub open_string_buffer : ℕ → Memory → StringBuffer
open_string_buffer max_len fresh = record {
  memory = write fresh (max_len - 1) 0;
  read_a = 0;
  write_a = 0;
  read_b = 0;
  write_b = 0;
  buffer_end = max_len - 1;
  reserve_start = none;
  reserve_end = none;
  state = write_a_read_a;
  keep_long_strings = false;
}
