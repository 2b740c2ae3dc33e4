-- ===== src/StringBuffer/Inv/Reserve.antt =====
-- reserve_string_buffer on a valid buffer.
use oly.Prelude.{
  ℕ, ◌+◌, ◌≤◌, ◌<◌, ◌≡◌, ◌⊎◌, inl, inr, refl, none, some, List, arith, true, false, ltb, Bool-cases,
  ◌∙◌, ◌%◌, ◌^◌, ◌-◌, sym,
}
use oly.StringBuffer.Layout.{Holds-cong}
use oly.Status.{Status, okay, err_buffer_overflow}
use oly.StringBuffer.{
  StringBuffer, reserve_string_buffer, set_reserve, space_available, write_pointer,
}
use oly.StringBuffer.Inv.{IsValid, Stands, room, front_read, front_write, back_write}
use oly.StringBuffer.Inv.Space.{
  Same, space_available-Same, space_available-room, space_available-IsValid,
}

pub record Reserved (n : ℕ) (c : StringBuffer) : Type 0 where
  pub start : c.reserve_start ≡ some (write_pointer c)
  pub stop : c.reserve_end ≡ some (write_pointer c + (n + 1))
  pub fits : n + 1 ≤ room c

-- How a reservation of `n` OChars on a valid buffer may end.
pub record Granted (b : StringBuffer) (n : ℕ) (status : Status) (c : StringBuffer) : Type 0 where
  pub valid : IsValid c
  pub same : (c.memory ≡ b.memory) × (c.buffer_end ≡ b.buffer_end)
  pub outcome :
      ((status ≡ okay) × Reserved n c)
      ⊎ ((status ≡ err_buffer_overflow) × (c.reserve_start ≡ none) × (room c < n + 1))

pub Stands-Same : (b c : StringBuffer) (q : List (List ℕ)) → Same b c → Stands b q → Stands c q
Stands-Same b c q s h = (
  h.0,
  h.1,
  Holds-cong b.memory c.memory (front_read b) (front_read c) (front_write b) (front_write c) h.0
      s.memory s.front_r s.front_w h.2,
  Holds-cong b.memory c.memory 0 0 (back_write b) (back_write c) h.1 s.memory refl s.back_w h.3,
  h.4,
)

wrap_lem : (n : ℕ) → n + 1 < 2 ^ 64 → (n + 1) % 2 ^ 64 ≡ n + 1
wrap_lem n h = omega (arith, h)

set_reserve_okay :
    (c : StringBuffer) (k n : ℕ)
    → k ≡ room c
    → IsValid c
    → n + 1 < 2 ^ 64
    → ltb k (n + 1) ≡ false
    → Granted c n (set_reserve c k n).0 (set_reserve c k n).1
unfolding set_reserve
set_reserve_okay c k n e v less t =
    rw (wrap_lem n less, t)
      (record {
        valid = ground arith;
        same = (refl, refl);
        outcome = inl (refl, record { start = refl; stop = refl; fits = ground arith });
      })

set_reserve_overflow :
    (c : StringBuffer) (k n : ℕ)
    → k ≡ room c
    → IsValid c
    → c.reserve_start ≡ none
    → n + 1 < 2 ^ 64
    → ltb k (n + 1) ≡ true
    → Granted c n (set_reserve c k n).0 (set_reserve c k n).1
unfolding set_reserve
set_reserve_overflow c k n e v f less t =
    rw (wrap_lem n less, t)
      (record { valid = v; same = (refl, refl); outcome = inr (refl, f, ground arith) })

set_reserve-Stands :
    (c : StringBuffer) (k n : ℕ) (q : List (List ℕ)) → Stands c q → Stands (set_reserve c k n).1 q
unfolding set_reserve
set_reserve-Stands c k n q h = elim (Bool-cases (ltb k ((n + 1) % 2 ^ 64))) [
  | inl t ↦ rw t h
  | inr t ↦ rw t h
]

room-set_reserve : (c : StringBuffer) (k n : ℕ) → room (set_reserve c k n).1 ≡ room c
unfolding set_reserve
room-set_reserve c k n = elim (Bool-cases (ltb k ((n + 1) % 2 ^ 64))) [
  | inl t ↦ rw t refl
  | inr t ↦ rw t refl
]

set_reserve-Granted :
    (c : StringBuffer) (k n : ℕ)
    → k ≡ room c
    → IsValid c
    → c.reserve_start ≡ none
    → n + 1 < 2 ^ 64
    → Granted c n (set_reserve c k n).0 (set_reserve c k n).1
set_reserve-Granted c k n e v f less = elim (Bool-cases (ltb k (n + 1))) [
  | inl t ↦ set_reserve_overflow c k n e v f less t
  | inr t ↦ set_reserve_okay c k n e v less t
]

Granted-Same :
    (b c d : StringBuffer) (n : ℕ) (s : Status) → Same b c → Granted c n s d → Granted b n s d
Granted-Same b c d n s same g = record {
  valid = g.valid;
  same = (g.same.0 ∙ same.memory, g.same.1 ∙ same.limit);
  outcome = g.outcome;
}

write_lt-end :
    (b : StringBuffer) → IsValid b → (b.write_a < b.buffer_end) × (b.write_b < b.buffer_end)
write_lt-end b v = ground arith

-- On a valid buffer with no reservation, and for a length below SIZE_MAX, `reserve_string_buffer` fails
-- no assertion and keeps the buffer valid and the queue as it is: where space_available finds room
-- for one OChar more than the length it reserves that many cells at the write pointer, and elsewhere
-- it reports an overflow and reserves nothing.
pub reserve-Granted :
    (b : StringBuffer) (n : ℕ) (q : List (List ℕ))
    → IsValid b
    → b.reserve_start ≡ none
    → Stands b q
    → n + 1 < 2 ^ 64
    → (status : Status) × (c : StringBuffer) × (reserve_string_buffer b n ≡ some (status, c))
      × Granted b n status c
      × Stands c q
      × (room c ≡ (space_available b).1)
unfolding reserve_string_buffer
reserve-Granted b n q v f h less =
    let same : Same b (space_available b).0 = space_available-Same b in
    let c = (space_available b).0 in
    let k = (space_available b).1 in
    (
      (set_reserve c k n).0,
      (set_reserve c k n).1,
      ground (arith, write_lt-end b v),
      Granted-Same b c (set_reserve c k n).1 n (set_reserve c k n).0 same (
          set_reserve-Granted c k n (space_available-room b v) (space_available-IsValid b v)
            (same.start ∙ f) less),
      set_reserve-Stands c k n q (Stands-Same b c q same h),
      room-set_reserve c k n ∙ sym (space_available-room b v),
    )

-- At SIZE_MAX the sum wraps to 0: what is granted has no cell at all.
set_reserve_wraps :
    (b : StringBuffer) (available : ℕ) → (set_reserve b available (2 ^ 64 - 1)).0 ≡ okay
unfolding set_reserve
set_reserve_wraps b available = ground arith
