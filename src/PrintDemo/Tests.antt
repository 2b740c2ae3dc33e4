-- ===== src/PrintDemo/Tests.antt =====
-- The functions at a text of five UChars with boundaries at 0, 2, 3 and 5.
use mathlib.Core.Path.{subst}
use oly.Prelude.{
  ℕ, ◌+◌, ◌-◌, ◌≤◌, ◌<◌, ◌≡◌, refl, sym, ap, ◌∙◌, arith, Option, none, some, List, [], ◌∷◌, length,
  get_elem?, get_or, ltb, leb, if◌then◌else◌, Memory,
}
use oly.PrintDemo.{BreakIterator, Line, prints, print_each_forward, print_each_backward}
use oly.PrintDemo.Walk.{rev_onto, before, IsOver, Ascends, Ascends-rev_onto}
use oly.PrintDemo.Ranges.{lines, print_each_backward-print_each_forward}

-- The first of the boundaries above a position, with its place; the first of them is at `i`.
abbrev above : List ℕ → ℕ → ℕ → Option ℕ × ℕ
above [] pos i = (none, i - 1)
above (b ∷ bs) pos i = if leb b pos then above bs pos (i + 1) else (some b, i)

-- An iterator that stands at a place in the list of the boundaries.
abbrev over : List ℕ → BreakIterator ℕ
over bs = record {
  first = λ s. (get_elem? bs 0, 0);
  last = λ s. (get_elem? bs (length bs - 1), length bs - 1);
  next = λ s. (get_elem? bs (s + 1), if ltb (s + 1) (length bs) then s + 1 else s);
  previous = λ s. (before bs s, s - 1);
  following = λ s pos. above bs pos 0;
}

above-rev_onto :
    (rp : List ℕ) (a : ℕ) (rest : List ℕ) (pos : ℕ)
    → Ascends (rev_onto rp (a ∷ rest))
    → a ≤ pos
    → above (rev_onto rp (a ∷ rest)) pos 0 ≡ above rest pos (length rp + 1)
above-rev_onto [] a rest pos up le = ground (arith, le)
above-rev_onto (x ∷ rp) a rest pos up le =
    let low : x ≤ pos = omega (arith, le, (Ascends-rev_onto rp (x ∷ a ∷ rest) up).0) in
    above-rev_onto rp x (a ∷ rest) pos up low ∙ ground (arith, le)

found :
    (bs rp : List ℕ) (a b : ℕ) (rest : List ℕ) (pos : ℕ)
    → Ascends bs
    → rev_onto rp (a ∷ b ∷ rest) ≡ bs
    → a ≤ pos
    → pos < b
    → above bs pos 0 ≡ (some b, length rp + 1)
found bs rp a b rest pos up same le lt =
    ap (λ bs. above bs pos 0) (sym same)
    ∙ (above-rev_onto rp a (b ∷ rest) pos (subst Ascends (sym same) up) le ∙ ground (arith, lt))

over-IsOver : (bs : List ℕ) → Ascends bs → IsOver bs (λ s. s) (over bs)
over-IsOver bs up = record {
  first_at = λ s. refl;
  first_place = λ s. refl;
  last_at = λ s. refl;
  last_place = λ s. refl;
  next_at = λ s. refl;
  next_place = λ s h. ground (arith, h);
  previous_at = λ s. refl;
  previous_place = λ s. refl;
  following_at =
      λ s rp a b rest pos same le lt. ap (λ r. r.0) (found bs rp a b rest pos up same le lt);
  following_place =
      λ s rp a b rest pos same le lt. ap (λ r. r.1) (found bs rp a b rest pos up same le lt);
}

abbrev inner : List ℕ
inner = 2 ∷ 3 ∷ 5 ∷ []

inner-Ascends : Ascends (0 ∷ inner)
inner-Ascends = (omega arith, (omega arith, (omega arith, tt)))

abbrev str : Memory
str j = get_or (b'o' ∷ b'l' ∷ b' ' ∷ b'i' ∷ b's' ∷ []) j 0

abbrev same_bytes : List ℕ → List ℕ
same_bytes s = s

print_each_backward-print_each_forward_example :
    (ls : List Line) × (print_each_backward same_bytes (over (0 ∷ inner)) 4 0 str ≡ prints ls str)
    × (print_each_forward same_bytes (over (0 ∷ inner)) 4 0 str ≡ prints (rev_onto ls []) str)
    × (rev_onto ls [] ≡ lines same_bytes str (0 ∷ inner))
print_each_backward-print_each_forward_example =
    print_each_backward-print_each_forward same_bytes 0 inner inner-Ascends (λ s. s)
      (over (0 ∷ inner)) (over-IsOver (0 ∷ inner) inner-Ascends) str 4 0 (omega arith)
