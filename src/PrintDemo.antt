-- ===== src/PrintDemo.antt =====
-- The functions of src/print_demo, which print the parts of a text between the boundaries that a break
-- iterator of ICU finds. The iterator and the conversion of UChars are parameters. A position that
-- is UBRK_DONE, -1, is `none`.
pub mod Walk
pub mod Ranges
mod Tests
use oly.Prelude.{
  ℕ, zero, suc, ◌+◌, ◌-◌, Bool, Option, none, some, List, [], ◌∷◌, leb, take, write, ◌==◌,
  if◌then◌else◌, Memory,
}
use oly.Prelude.Int.{ℤ, sub_ℕ}

-- The five functions of UBreakIterator that are used.
pub record BreakIterator (S : Type 0) : Type 0 where
  pub first : S → Option ℕ × S
  pub last : S → Option ℕ × S
  pub next : S → Option ℕ × S
  pub previous : S → Option ℕ × S
  pub following : S → ℕ → Option ℕ × S

-- "string[%2d..%2d] \"%s\"\n"
pub record Line : Type 0 where
  pub start : ℕ
  pub last : ℤ
  pub text : List ℕ

-- The UChars from `p` on up to a terminator, at most `n`.
abbrev pub up_to : Memory → ℕ → ℕ → List ℕ
up_to m p zero = []
up_to m p (suc n) = if m p == 0 then [] else m p ∷ up_to m (p + 1) n

-- What `charBuf` has of a converted text: 999 bytes at most, and a terminator.
abbrev pub buffered : List ℕ → List ℕ
buffered s = take 999 s

-- How a loop ends: the lines that it printed and the text that it leaves.
pub data Outcome : Type 0 where
  out_of_fuel undefined : Outcome
  prints : List Line → Memory → Outcome

abbrev pub print_before : Line → Outcome → Outcome
print_before l out_of_fuel = out_of_fuel
print_before l undefined = undefined
print_before l (prints ls m) = prints (l ∷ ls) m

-- `encode` converts UChars to the bytes of the default codepage.
module _ (encode : List ℕ → List ℕ) where
  abbrev pub line : Memory → ℕ → ℕ → Line
  line m start end = record {
    start = start;
    last = sub_ℕ end 1;
    text = buffered (encode (up_to m start (end - start)));
  }

  -- The terminator is put at the end, and what was there is put back. `none` is an access before the
  -- text, or a range that ends before it starts, behind which the text would be read.
  unfoldable pub print_text_range : Memory → Option ℕ → Option ℕ → Option (Line × Memory)
  print_text_range str none end = none
  print_text_range str (some start) none = none
  print_text_range str (some start) (some end) =
      let saved = str end in
      let ended = write str end 0 in
      if leb start end then some (line ended start end, write ended end saved) else none

  abbrev pub print_one : Memory → Option ℕ → Option ℕ → Outcome
  print_one str start end = elim (print_text_range str start end) [
    | none ↦ undefined
    | some (l, m) ↦ prints (l ∷ []) m
  ]

  module _ {S : Type 0} (it : BreakIterator S) where
    -- The loop of `print_each_forward`, with the boundary that was met last.
    unfoldable pub forward_loop : ℕ → Option ℕ → S → Memory → Outcome
    unfolding print_text_range
    forward_loop zero start s str = out_of_fuel
    forward_loop (suc n) start s str =
        let (met, t) = it.next s in
        elim met [
          | none ↦ prints [] str
          | some end ↦ elim (print_text_range str start (some end)) [
            | none ↦ undefined
            | some (l, m) ↦ print_before l (forward_loop n (some end) t m)
          ]
        ]

    unfoldable pub print_each_forward : ℕ → S → Memory → Outcome
    unfolding forward_loop
    print_each_forward n s str = let (start, t) = it.first s in forward_loop n start t str

    -- The loop of `print_each_backward`.
    unfoldable pub backward_loop : ℕ → Option ℕ → S → Memory → Outcome
    unfolding print_text_range
    backward_loop zero end s str = out_of_fuel
    backward_loop (suc n) end s str =
        let (met, t) = it.previous s in
        elim met [
          | none ↦ prints [] str
          | some start ↦ elim (print_text_range str (some start) end) [
            | none ↦ undefined
            | some (l, m) ↦ print_before l (backward_loop n (some start) t m)
          ]
        ]

    unfoldable pub print_each_backward : ℕ → S → Memory → Outcome
    unfolding backward_loop
    print_each_backward n s str = let (end, t) = it.last s in backward_loop n end t str

    unfoldable pub print_first : S → Memory → Outcome
    unfolding print_text_range
    print_first s str =
        let (start, t) = it.first s in let (end, u) = it.next t in print_one str start end

    unfoldable pub print_last : S → Memory → Outcome
    unfolding print_text_range
    print_last s str =
        let (end, t) = it.last s in let (start, u) = it.previous t in print_one str start end

    unfoldable pub print_at : S → ℕ → Memory → Outcome
    unfolding print_text_range
    print_at s pos str =
        let (end, t) = it.following s pos in
        let (start, u) = it.previous t in print_one str start end
