-- ===== src/StringBuffer/Fifo/Put/Grown.antt =====
-- What a string that is written at the write pointer does to the queue of the buffer.
use oly.Prelude.{
  ℕ, ◌+◌, ◌≤◌, ◌<◌, ◌≡◌, ◌⊎◌, inl, inr, refl, none, List, [], ◌∷◌, ◌++◌, arith, true, false,
  Bool-cases, ◌∙◌, sym, ap, length, Memory, write, write_ne,
}
use mathlib.Core.Path.{subst}
use mathlib.Core.List.{append-nil, append_assoc}
use oly.StringBuffer.{StringBuffer, copy_in, write_pointer, with_write_pointer}
use oly.StringBuffer.Layout.{
  IsText, StringAt, StringAt-frame, Holds-frame, Holds-snoc, Holds-cong, Holds-empty,
}
use oly.StringBuffer.Copy.{copy_in-copier, copy_in_outside, copy_in-StringAt}
use oly.StringBuffer.Inv.{IsValid, Stands, room, front_read, front_write, back_write, is_single}

-- The memory after the string and the two cells behind it are written at `p`.
unfoldable pub stored : Memory → ℕ → ℕ → List ℕ → Memory
stored m p e s = write (copy_in m p e s).0 (p + length s + 1) 0

-- The buffer after the string is taken over.
abbrev pub put : StringBuffer → Memory → ℕ → StringBuffer
put c m p = record (with_write_pointer (record c { memory = m }) p) {
  reserve_start = none;
  reserve_end = none;
}

pub stored_outside :
    (m : Memory) (p e : ℕ) (s : List ℕ) (q : ℕ)
    → IsText s
    → p + length s < e
    → (q < p) ⊎ (p + length s + 1 < q)
    → stored m p e s q ≡ m q
unfolding stored
stored_outside m p e s q t h out =
    write_ne (copy_in m p e s).0 (p + length s + 1) 0 q (omega arith)
    ∙ copy_in_outside m p e s q (omega (arith, copy_in-copier m p e s t h)) (omega arith)

pub stored-StringAt :
    (m : Memory) (p e : ℕ) (s : List ℕ)
    → IsText s
    → p + length s < e
    → StringAt (stored m p e s) p s
unfolding stored
stored-StringAt m p e s t h =
    StringAt-frame (copy_in m p e s).0 (stored m p e s) p s
      (λ q lo hi. write_ne (copy_in m p e s).0 (p + length s + 1) 0 q (omega arith))
      (copy_in-StringAt m p e s t h)

pub put-IsValid :
    (c : StringBuffer) (m : Memory) (k : ℕ)
    → IsValid c
    → 0 < k
    → k ≤ room c
    → IsValid (put c m (write_pointer c + k))
put-IsValid c m k v pos h = ground arith

-- A buffer with one string more behind the part that is written.
record Grown (c d : StringBuffer) (k : ℕ) : Type 0 where
  single_front : is_single c.state ≡ true → front_write d ≡ front_write c + k
  single_back : is_single c.state ≡ true → back_write d ≡ back_write c
  single_at : is_single c.state ≡ true → write_pointer c ≡ front_write c
  double_front : is_single c.state ≡ false → front_write d ≡ front_write c
  double_back : is_single c.state ≡ false → back_write d ≡ back_write c + k
  double_at : is_single c.state ≡ false → write_pointer c ≡ back_write c
  read : front_read d ≡ front_read c

put-Grown : (c : StringBuffer) (m : Memory) (k : ℕ) → Grown c (put c m (write_pointer c + k)) k
put-Grown c m k = ground arith

Stands_single :
    (c d : StringBuffer) (q : List (List ℕ)) (s : List ℕ)
    → IsValid c
    → Grown c d (length s + 2)
    → is_single c.state ≡ true
    → ((r : ℕ) → r < front_write c → d.memory r ≡ c.memory r)
    → StringAt d.memory (front_write c) s
    → IsText s
    → Stands c q
    → Stands d (q ++ (s ∷ []))
Stands_single c d q s v g e same at text h =
    let none_back : h.1 ≡ [] = Holds-empty c.memory 0 (back_write c) h.1 (sym (v.single e)) h.3 in
    (
      h.0 ++ (s ∷ []),
      [],
      Holds-cong d.memory d.memory (front_read c) (front_read d) (front_write c + length s + 2)
          (front_write d) (h.0 ++ (s ∷ [])) refl g.read (g.single_front e ∙ omega arith)
          (Holds-snoc d.memory (front_read c) (front_write c) h.0 s
            (Holds-frame c.memory d.memory (front_read c) (front_write c) h.0 (λ r lo hi. same r hi)
              h.2)
            at text),
      sym (g.single_back e ∙ v.single e),
      rw (h.4, none_back) (simp append-nil),
    )

Stands_double :
    (c d : StringBuffer) (q : List (List ℕ)) (s : List ℕ)
    → IsValid c
    → Grown c d (length s + 2)
    → is_single c.state ≡ false
    → ((r : ℕ) → (r < back_write c) ⊎ (back_write c + length s + 1 < r) → d.memory r ≡ c.memory r)
    → back_write c + length s + 2 ≤ front_read c
    → StringAt d.memory (back_write c) s
    → IsText s
    → Stands c q
    → Stands d (q ++ (s ∷ []))
Stands_double c d q s v g e same fits at text h = (
  h.0,
  h.1 ++ (s ∷ []),
  Holds-cong d.memory d.memory (front_read c) (front_read d) (front_write c) (front_write d) h.0
      refl g.read (g.double_front e)
      (Holds-frame c.memory d.memory (front_read c) (front_write c) h.0
        (λ r lo hi. same r (inr (omega arith))) h.2),
  Holds-cong d.memory d.memory 0 0 (back_write c + length s + 2) (back_write d) (h.1 ++ (s ∷ []))
      refl refl (g.double_back e ∙ omega arith)
      (Holds-snoc d.memory 0 (back_write c) h.1 s
        (Holds-frame c.memory d.memory 0 (back_write c) h.1 (λ r lo hi. same r (inl hi)) h.3) at
        text),
  rw h.4 (append_assoc h.0 h.1 (s ∷ [])),
)

pub memory-put : (c : StringBuffer) (m : Memory) (p : ℕ) → (put c m p).memory ≡ m
memory-put c m p = ground arith

-- A string that is written at the write pointer joins the end of the queue.
pub Stands-put :
    (c : StringBuffer) (m : Memory) (q : List (List ℕ)) (s : List ℕ)
    → IsValid c
    → length s + 2 ≤ room c
    → ((r : ℕ) → (r < write_pointer c) ⊎ (write_pointer c + length s + 1 < r) → m r ≡ c.memory r)
    → StringAt m (write_pointer c) s
    → IsText s
    → Stands c q
    → Stands (put c m (write_pointer c + (length s + 2))) (q ++ (s ∷ []))
Stands-put c m q s v fits same at text h = elim (Bool-cases (is_single c.state)) [
  | inl e ↦
      Stands_single c d q s v g e
        (λ r lt. same' r (inl (subst (λ p. r < p) (sym (g.single_at e)) lt)))
        (subst (λ p. StringAt d.memory p s) (g.single_at e) at') text h
  | inr e ↦
      Stands_double c d q s v g e
        (λ r out. same' r (subst (λ p. (r < p) ⊎ (p + length s + 1 < r)) (sym (g.double_at e)) out))
        (ground arith) (subst (λ p. StringAt d.memory p s) (g.double_at e) at') text h
]
  where
    d : StringBuffer
    d = put c m (write_pointer c + (length s + 2))

    g : Grown c d (length s + 2)
    g = put-Grown c m (length s + 2)

    at' : StringAt d.memory (write_pointer c) s
    at' =
        subst (λ f. StringAt f (write_pointer c) s)
          (sym (memory-put c m (write_pointer c + (length s + 2)))) at

    same' :
        (r : ℕ)
        → (r < write_pointer c) ⊎ (write_pointer c + length s + 1 < r)
        → d.memory r ≡ c.memory r
    same' r out =
        ap (λ (f : Memory). f r) (memory-put c m (write_pointer c + (length s + 2))) ∙ same r out
