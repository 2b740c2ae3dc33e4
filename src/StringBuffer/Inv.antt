-- ===== src/StringBuffer/Inv.antt =====
-- The representation invariant of the buffer, and the queue of strings that it stands for.
-- The front part is the one that the state reads from, the back part the other one.
pub mod Space
pub mod Reserve
use oly.Prelude.{
  ℕ, ◌+◌, ◌-◌, ◌^◌, ◌≤◌, ◌<◌, ◌≡◌, Bool, true, false, List, [], ◌∷◌, ◌++◌, if◌then◌else◌,
}
use oly.StringBuffer.{
  State, StringBuffer, write_a_read_a, write_b_read_a, write_b_read_b, write_a_read_b, reads_a,
}
use oly.StringBuffer.Layout.{Holds}

abbrev pub front_read : StringBuffer → ℕ
front_read b = if reads_a b.state then b.read_a else b.read_b

abbrev pub front_write : StringBuffer → ℕ
front_write b = if reads_a b.state then b.write_a else b.write_b

abbrev pub back_read : StringBuffer → ℕ
back_read b = if reads_a b.state then b.read_b else b.read_a

abbrev pub back_write : StringBuffer → ℕ
back_write b = if reads_a b.state then b.write_b else b.write_a

-- The states in which the part that is read is also the part that is written.
abbrev pub is_single : State → Bool
is_single write_a_read_a = true
is_single write_b_read_b = true
is_single write_b_read_a = false
is_single write_a_read_b = false

pub record IsValid (b : StringBuffer) : Type 0 where
  pub limit : b.buffer_end < 2 ^ 62
  pub back_start : back_read b ≡ 0
  pub ordered : front_read b ≤ front_write b
  pub inside : front_write b < b.buffer_end
  pub behind : back_write b ≤ front_read b
  pub turned : is_single b.state ≡ false → front_read b < front_write b
  pub single : is_single b.state ≡ true → back_write b ≡ 0
  pub emptied : is_single b.state ≡ true → front_read b ≡ front_write b → front_write b ≡ 0

-- The strings that are still to be read: those of the front part, then those of the back part.
abbrev pub Stands : StringBuffer → List (List ℕ) → Type 0
Stands b q =
    (xs : List (List ℕ)) × (ys : List (List ℕ)) × Holds b.memory (front_read b) (front_write b) xs
    × Holds b.memory 0 (back_write b) ys
    × (q ≡ xs ++ ys)

-- The cells that the part that is written can still take.
abbrev pub room : StringBuffer → ℕ
room b = if is_single b.state then b.buffer_end - 1 - front_write b else front_read b - back_write b
