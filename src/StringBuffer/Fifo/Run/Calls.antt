-- ===== src/StringBuffer/Fifo/Run/Calls.antt =====
-- The calls of a client of the string buffer, and what an abstract queue may answer.
use oly.Prelude.{
  ℕ, ◌+◌, ◌^◌, ◌≤◌, ◌<◌, ◌≡◌, ◌≢◌, Option, none, some, List, [], ◌∷◌, ◌++◌, length, Memory,
}
use oly.Status.{Status, okay, err_buffer_overflow, warn_buffer_empty}
use oly.StringBuffer.{
  StringBuffer, space_available, reserve_string_buffer, enqueue_to_string_buffer,
  dequeue_from_string_buffer,
}
use oly.StringBuffer.Layout.{IsText, StringAt}
use oly.StringBuffer.Inv.{IsValid}

abbrev pub Queue : Type 0
Queue = List (List ℕ)

pub data Op : Type 0 where
  put : List ℕ → Op
  get : Memory → ℕ → Op

-- The status of a call, the destination after a `get`, and the space that `space_available` finds before
-- the call.
pub record Reply : Type 0 where
  pub status : Status
  pub dest : Memory
  pub space : ℕ

abbrev enqueue_reserved : Status → StringBuffer → List ℕ → Option (Status × StringBuffer)
enqueue_reserved okay b s = elim (enqueue_to_string_buffer b s) [
  | none ↦ none
  | some e ↦ some (e.status, e.buffer)
]
enqueue_reserved other b s = some (other, b)

-- The two calls with `key_len = u_strlen(key)`, each followed by its return on a bad status.
unfoldable pub put_key : StringBuffer → List ℕ → Option (Status × StringBuffer)
put_key b s = elim (reserve_string_buffer b (length s + 2)) [
  | none ↦ none
  | some (status, c) ↦ enqueue_reserved status c s
]

abbrev pub blank : Memory
blank q = 0

unfoldable pub call : StringBuffer → Op → Option (Reply × StringBuffer)
call b (put s) = elim (put_key b s) [
  | none ↦ none
  | some (status, c) ↦
      some (record { status = status; dest = blank; space = (space_available b).1 }, c)
]
call b (get dest size) =
    let r = dequeue_from_string_buffer b dest size in
    some (record { status = r.status; dest = r.dest; space = (space_available b).1 }, r.buffer)

-- What a bounded queue of strings answers: a `put` needs the room of three OChars more than the string,
-- and is refused exactly without it.
pub data Spec : Queue → Op → Reply → Queue → Type 0 where
  accepts :
      (q : Queue) (s : List ℕ) (r : Reply)
      → r.status ≡ okay
      → length s + 3 ≤ r.space
      → Spec q (put s) r (q ++ (s ∷ []))
  refuses :
      (q : Queue) (s : List ℕ) (r : Reply)
      → r.status ≡ err_buffer_overflow
      → r.space < length s + 3
      → Spec q (put s) r q
  gives :
      (s : List ℕ) (q : Queue) (d : Memory) (size : ℕ) (r : Reply)
      → r.status ≡ okay
      → StringAt r.dest 0 s
      → length s + 3 ≤ size
      → Spec (s ∷ q) (get d size) r q
  small :
      (s : List ℕ) (q : Queue) (d : Memory) (size : ℕ) (r : Reply)
      → r.status ≡ err_buffer_overflow
      → size < length s + 3
      → Spec (s ∷ q) (get d size) r (s ∷ q)
  empty :
      (d : Memory) (size : ℕ) (r : Reply) → r.status ≡ warn_buffer_empty → Spec [] (get d size) r []

-- The calls one after the other, on a buffer of `n` OChars: at an empty queue the space is `n` - 1.
pub data Specs (n : ℕ) : Queue → List Op → List Reply → Queue → Type 0 where
  done : (q : Queue) → Specs n q [] [] q
  step :
      {p q q' : Queue} {o : Op} {os : List Op} {r : Reply} {rs : List Reply}
      → Spec p o r q
      → (p ≡ [] → r.space + 1 ≡ n)
      → Specs n q os rs q'
      → Specs n p (o ∷ os) (r ∷ rs) q'

-- A valid buffer with no reservation.
pub record IsFree (b : StringBuffer) : Type 0 where
  pub valid : IsValid b
  pub free : b.reserve_start ≡ none

-- The client puts in non-empty C strings whose reservation is a size_t.
abbrev pub IsCall : Op → Type 0
IsCall (put s) = IsText s × (s ≢ []) × (length s + 3 < 2 ^ 64)
IsCall (get d size) = Unit
