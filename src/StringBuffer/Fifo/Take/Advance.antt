-- ===== src/StringBuffer/Fifo/Take/Advance.antt =====
-- How advance_read of string_buffer.c (the end of dequeue_from_string_buffer) moves on.
use oly.Prelude.{
  ℕ, ◌+◌, ◌≤◌, ◌<◌, ◌≡◌, inl, inr, refl, List, [], ◌∷◌, ◌++◌, arith, false, Bool-cases, ◌∙◌, sym,
  length,
}
use mathlib.Core.List.{append-nil}
use native.Mathlib.Decide.{dec_lt}
use oly.StringBuffer.{StringBuffer, advance_read, is_buffer_empty, read_pointer}
use oly.StringBuffer.Layout.{Holds, Holds-le, Holds-cong, Holds-empty}
use oly.StringBuffer.Inv.{IsValid, Stands, front_read, front_write, back_write, is_single}

-- The reading goes on in the front part.
record Moved (c d : StringBuffer) (k : ℕ) : Type 0 where
  pub valid : IsValid d
  front_r : front_read d ≡ front_read c + k
  front_w : front_write d ≡ front_write c
  back_w : back_write d ≡ back_write c
  memory : d.memory ≡ c.memory

-- The front part is used up: the back part takes its place.
record Flipped (c d : StringBuffer) : Type 0 where
  valid : IsValid d
  front_r : front_read d ≡ 0
  front_w : front_write d ≡ back_write c
  back_w : back_write d ≡ 0
  memory : d.memory ≡ c.memory

advance_read-Moved :
    (c : StringBuffer) (k : ℕ)
    → IsValid c
    → front_read c + (k + 1) < front_write c
    → Moved c (advance_read c k) (k + 1)
unfolding advance_read
advance_read-Moved c k v h = ground arith

advance_read-Flipped :
    (c : StringBuffer) (k : ℕ)
    → IsValid c
    → front_read c + (k + 1) ≡ front_write c
    → Flipped c (advance_read c k)
unfolding advance_read
advance_read-Flipped c k v h = ground arith

abbrev pub After : StringBuffer → List (List ℕ) → Type 0
After d q = IsValid d × Stands d q

After-Moved :
    (c d : StringBuffer) (s : List ℕ) (xs ys : List (List ℕ))
    → Moved c d (length s + 1 + 1)
    → Holds c.memory (front_read c) (front_write c) (s ∷ xs)
    → Holds c.memory 0 (back_write c) ys
    → After d (xs ++ ys)
After-Moved c d s xs ys m h k = (
  m.valid,
  (
    xs,
    ys,
    Holds-cong c.memory d.memory (front_read c + length s + 2) (front_read d) (front_write c)
        (front_write d) xs m.memory (m.front_r ∙ omega arith) m.front_w h.2,
    Holds-cong c.memory d.memory 0 0 (back_write c) (back_write d) ys m.memory refl m.back_w k,
    refl,
  ),
)

After-Flipped :
    (c d : StringBuffer) (s : List ℕ) (xs ys : List (List ℕ))
    → Flipped c d
    → front_read c + (length s + 1 + 1) ≡ front_write c
    → Holds c.memory (front_read c) (front_write c) (s ∷ xs)
    → Holds c.memory 0 (back_write c) ys
    → After d (xs ++ ys)
After-Flipped c d s xs ys m e h k =
    let none_left : xs ≡ [] =
      Holds-empty c.memory (front_read c + length s + 2) (front_write c) xs (omega arith) h.2 in
    (
      m.valid,
      (
        ys,
        [],
        Holds-cong c.memory d.memory 0 (front_read d) (back_write c) (front_write d) ys m.memory
            m.front_r m.front_w k,
        sym m.back_w,
        rw none_left (sym (append-nil ys)),
      ),
    )

pub After-advance_read :
    (c : StringBuffer) (s : List ℕ) (xs ys : List (List ℕ))
    → IsValid c
    → Holds c.memory (front_read c) (front_write c) (s ∷ xs)
    → Holds c.memory 0 (back_write c) ys
    → After (advance_read c (length s + 1)) (xs ++ ys)
After-advance_read c s xs ys v h k =
    let far : front_read c + length s + 2 ≤ front_write c =
      Holds-le c.memory (front_read c + length s + 2) (front_write c) xs h.2 in
    elim (dec_lt (front_read c + (length s + 1 + 1)) (front_write c)) [
      | yes lt ↦
          After-Moved c (advance_read c (length s + 1)) s xs ys
            (advance_read-Moved c (length s + 1) v lt) h k
      | no ge ↦
          After-Flipped c (advance_read c (length s + 1)) s xs ys
            (advance_read-Flipped c (length s + 1) v (omega arith)) (omega arith) h k
    ]

-- A queue that is not empty has its head in the front part.
pub front_of_cons :
    (c : StringBuffer) (s : List ℕ) (q xs ys : List (List ℕ))
    → IsValid c
    → Holds c.memory (front_read c) (front_write c) xs
    → Holds c.memory 0 (back_write c) ys
    → s ∷ q ≡ xs ++ ys
    → (rest : List (List ℕ)) × (xs ≡ s ∷ rest) × (q ≡ rest ++ ys)
front_of_cons c s q (x ∷ xs) ys v h k e = (xs, cc, cc)
front_of_cons c s q [] ys v h k e = elim (Bool-cases (is_single c.state)) [
  | inl one ↦
      (let gone : ys ≡ [] = Holds-empty c.memory 0 (back_write c) ys (sym (v.single one)) k in
        absurd (cc))
  | inr two ↦ absurd (omega (arith, v.turned two))
]

pub full_nonempty :
    (c : StringBuffer) → IsValid c → front_read c < front_write c → is_buffer_empty c ≡ false
unfolding is_buffer_empty
full_nonempty c v h = ground arith

read_pointer_front : (c : StringBuffer) → read_pointer c ≡ front_read c
read_pointer_front c = refl
