-- ===== src/PrintDemo/Ranges.antt =====
-- Which parts of a text the functions print.
use oly.Prelude.{
  ℕ, zero, suc, ◌+◌, ◌-◌, ◌≤◌, ◌<◌, ◌≡◌, refl, sym, ap, ◌∙◌, arith, some, List, [], ◌∷◌, length,
  get_elem?, write, Memory,
}
use mathlib.Core.Path.{subst}
use oly.Prelude.Int.{sub_ℕ}
use oly.PrintDemo.{
  BreakIterator, Line, up_to, line, prints, print_text_range, print_one, forward_loop,
  print_each_forward, backward_loop, print_each_backward, print_at, buffered,
}
use oly.PrintDemo.Walk.{
  rev_onto, IsOver, Ascends, Ascends-rev_onto, get-rev_onto, length-rev_onto, last_of, IsMet,
  next_gives, next_moves, previous_gives, previous_moves,
}

-- A terminator behind them changes no UChar of a part.
up_to-write : (m : Memory) (b v p n : ℕ) → p + n ≤ b → up_to (write m b v) p n ≡ up_to m p n
unfolding write
up_to-write m b v p zero h = refl
up_to-write m b v p (suc n) h = ground (arith, up_to-write m b v (p + 1) n (omega arith))

write_back : (m : Memory) (p v j : ℕ) → write (write m p v) p (m p) j ≡ m j
unfolding write
write_back m p v j = ground arith

module _ (encode : List ℕ → List ℕ) where
  range_runs :
      (m : Memory) (a b : ℕ)
      → a ≤ b
      → print_text_range encode m (some a) (some b) ≡ some (line encode m a b, m)
  unfolding print_text_range
  range_runs m a b le = ground (arith, le) ∙ (λ i. some (
    record {
      start = a;
      last = sub_ℕ b 1;
      text = buffered (encode (up_to-write m b 0 a (b - a) (omega (arith, le)) i));
    },
    λ j. write_back m b 0 j i,
  ))

  -- The parts between the boundaries, in order.
  abbrev pub lines : Memory → List ℕ → List Line
  lines m [] = []
  lines m (a ∷ []) = []
  lines m (a ∷ b ∷ bs) = line encode m a b ∷ lines m (b ∷ bs)

  -- The parts before the boundary `a`, of which the ones before it are `rp`, the last first.
  abbrev back_lines : Memory → ℕ → List ℕ → List Line
  back_lines m a [] = []
  back_lines m a (x ∷ rp) = line encode m x a ∷ back_lines m x rp

  lines-rev_onto :
      (m : Memory) (a : ℕ) (rp rest : List ℕ)
      → lines m (rev_onto rp (a ∷ rest)) ≡ rev_onto (back_lines m a rp) (lines m (a ∷ rest))
  lines-rev_onto m a [] rest = refl
  lines-rev_onto m a (x ∷ rp) rest = lines-rev_onto m x rp (a ∷ rest)

  module _ {S : Type 0} (bs : List ℕ) (place : S → ℕ) (it : BreakIterator S)
      (over : IsOver bs place it) where
    forward_runs :
        (m : Memory) (n : ℕ) (s : S) (rp : List ℕ) (a : ℕ) (rest : List ℕ)
        → IsMet bs place it over s rp a rest
        → Ascends (a ∷ rest)
        → length rest < n
        → forward_loop encode it n (some a) s m ≡ prints (lines m (a ∷ rest)) m
    unfolding forward_loop
    forward_runs m zero s rp a rest here up h = absurd (omega (arith, h))
    forward_runs m (suc n) s rp a [] here up h =
        rw (next_gives bs place it over s rp a [] here, forward_loop)
    forward_runs m (suc n) s rp a (b ∷ rest) here up h = rw (
      next_gives bs place it over s rp a (b ∷ rest) here,
      range_runs m a b up.0,
      forward_runs m n (it.next s).1 (a ∷ rp) b rest
          (next_moves bs place it over s rp a b rest here) up.1 (omega arith),
      forward_loop,
    )

    backward_runs :
        (m : Memory) (n : ℕ) (s : S) (rp : List ℕ) (a : ℕ) (rest : List ℕ)
        → IsMet bs place it over s rp a rest
        → Ascends (rev_onto rp (a ∷ rest))
        → length rp < n
        → backward_loop encode it n (some a) s m ≡ prints (back_lines m a rp) m
    unfolding backward_loop
    backward_runs m zero s rp a rest here up h = absurd (omega (arith, h))
    backward_runs m (suc n) s [] a rest here up h =
        rw (previous_gives bs place it over s [] a rest here, backward_loop)
    backward_runs m (suc n) s (x ∷ rp) a rest here up h = rw (
      previous_gives bs place it over s (x ∷ rp) a rest here,
      range_runs m x a (Ascends-rev_onto rp (x ∷ a ∷ rest) up).0,
      backward_runs m n (it.previous s).1 rp x (a ∷ rest)
          (previous_moves bs place it over s rp x a rest here) up (omega arith),
      backward_loop,
    )

  module _ {S : Type 0} (c : ℕ) (cs : List ℕ) (up : Ascends (c ∷ cs)) (place : S → ℕ)
      (it : BreakIterator S) (over : IsOver (c ∷ cs) place it) where
    -- With an iterator that behaves as documented over the ascending boundaries of a text, and at
    -- least as many turns as boundaries, print_each_backward prints some lines, and
    -- print_each_forward the same lines in the opposite order, which are those of the parts from
    -- each boundary to the next. Both leave the text as it was.
    pub print_each_backward-print_each_forward :
        (m : Memory) (n : ℕ) (s : S)
        → length cs < n
        → (ls : List Line) × (print_each_backward encode it n s m ≡ prints ls m)
          × (print_each_forward encode it n s m ≡ prints (rev_onto ls []) m)
          × (rev_onto ls [] ≡ lines m (c ∷ cs))
    unfolding print_each_backward print_each_forward
    print_each_backward-print_each_forward m n s h =
        let (rp, a, e) = last_of [] c cs in
        let same : rev_onto (back_lines m a rp) [] ≡ lines m (c ∷ cs) =
          sym (lines-rev_onto m a rp []) ∙ ap (lines m) e in
        let size : length cs ≡ length rp =
          omega (arith, ap length e, length-rev_onto rp (a ∷ [])) in
        let at_last : length (c ∷ cs) - 1 ≡ length rp + 0 = omega (arith, size) in
        let ends : (it.last s).0 ≡ some a =
          over.last_at s ∙ ((λ i. get_elem? (sym e i) (at_last i)) ∙ get-rev_onto rp (a ∷ []) 0) in
        (
          back_lines m a rp,
          (λ i. backward_loop encode it n (ends i) (it.last s).1 m)
              ∙ backward_runs (c ∷ cs) place it over m n (it.last s).1 rp a []
                  (e, over.last_place s ∙ omega (arith, size)) (subst Ascends (sym e) up)
                  (omega (arith, size, h)),
          (λ i. forward_loop encode it n (over.first_at s i) (it.first s).1 m)
              ∙ (forward_runs (c ∷ cs) place it over m n (it.first s).1 [] c cs
                    (refl, over.first_place s) up h
                  ∙ ap (λ ls. prints ls m) (sym same)),
          same,
        )

    -- A position from the boundary `a` on and before the next one, `b`: print_at prints just the part
    -- between them, and leaves the text as it was.
    print_at-line :
        (m : Memory) (s : S) (pos : ℕ) (rp : List ℕ) (a b : ℕ) (rest : List ℕ)
        → rev_onto rp (a ∷ b ∷ rest) ≡ c ∷ cs
        → a ≤ pos
        → pos < b
        → print_at encode it s pos m ≡ prints (line encode m a b ∷ []) m
    unfolding print_at
    print_at-line m s pos rp a b rest same le lt =
        (λ i.
          print_one encode m
            (previous_gives (c ∷ cs) place it over (it.following s pos).1 (a ∷ rp) b rest
              (same, over.following_place s rp a b rest pos same le lt ∙ omega arith) i)
            (over.following_at s rp a b rest pos same le lt i))
        ∙ rw (range_runs m a b (omega arith), print_one)
