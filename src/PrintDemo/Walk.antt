-- ===== src/PrintDemo/Walk.antt =====
-- The boundaries that a break iterator walks over.
use oly.Prelude.{
  ℕ, zero, suc, ◌+◌, ◌-◌, ◌≤◌, ◌<◌, ◌≡◌, refl, sym, ap, ◌∙◌, arith, Option, none, some, List, [],
  ◌∷◌, length, get_elem?,
}
use oly.PrintDemo.{BreakIterator}

-- The elements of `rp`, the last first, before `ys`.
abbrev pub rev_onto {ℓ} : {A : Type ℓ} → List A → List A → List A
rev_onto [] ys = ys
rev_onto (x ∷ rp) ys = rev_onto rp (x ∷ ys)

abbrev pub before : List ℕ → ℕ → Option ℕ
before bs zero = none
before bs (suc i) = get_elem? bs i

-- The documented behaviour of an iterator over the boundaries `bs`: it stands at a boundary, and
-- moves from one to its neighbours, as far as there are some; the first boundary above a position
-- is found.
pub record IsOver {S : Type 0} (bs : List ℕ) (place : S → ℕ) (it : BreakIterator S) : Type 0 where
  pub first_at : (s : S) → (it.first s).0 ≡ get_elem? bs 0
  pub first_place : (s : S) → place (it.first s).1 ≡ 0
  pub last_at : (s : S) → (it.last s).0 ≡ get_elem? bs (length bs - 1)
  pub last_place : (s : S) → place (it.last s).1 ≡ length bs - 1
  pub next_at : (s : S) → (it.next s).0 ≡ get_elem? bs (place s + 1)
  pub next_place : (s : S) → place s + 1 < length bs → place (it.next s).1 ≡ place s + 1
  pub previous_at : (s : S) → (it.previous s).0 ≡ before bs (place s)
  pub previous_place : (s : S) → place (it.previous s).1 ≡ place s - 1
  pub following_at :
      (s : S) (rp : List ℕ) (a b : ℕ) (rest : List ℕ) (pos : ℕ)
      → rev_onto rp (a ∷ b ∷ rest) ≡ bs
      → a ≤ pos
      → pos < b
      → (it.following s pos).0 ≡ some b
  pub following_place :
      (s : S) (rp : List ℕ) (a b : ℕ) (rest : List ℕ) (pos : ℕ)
      → rev_onto rp (a ∷ b ∷ rest) ≡ bs
      → a ≤ pos
      → pos < b
      → place (it.following s pos).1 ≡ length rp + 1

abbrev pub Ascends : List ℕ → Type 0
Ascends [] = Unit {0}
Ascends (a ∷ []) = Unit {0}
Ascends (a ∷ b ∷ bs) = (a ≤ b) × Ascends (b ∷ bs)

pub Ascends-rev_onto : (rp ys : List ℕ) → Ascends (rev_onto rp ys) → Ascends ys
Ascends-rev_onto [] ys h = h
Ascends-rev_onto (x ∷ rp) [] h = tt
Ascends-rev_onto (x ∷ rp) (y ∷ ys) h = (Ascends-rev_onto rp (x ∷ y ∷ ys) h).1

pub get-rev_onto :
    (rp ys : List ℕ) (k : ℕ) → get_elem? (rev_onto rp ys) (length rp + k) ≡ get_elem? ys k
get-rev_onto [] ys k = ap (get_elem? ys) (omega arith)
get-rev_onto (x ∷ rp) ys k =
    ap (get_elem? (rev_onto rp (x ∷ ys))) (omega arith) ∙ get-rev_onto rp (x ∷ ys) (suc k)

pub length-rev_onto : (rp ys : List ℕ) → length (rev_onto rp ys) ≡ length rp + length ys
length-rev_onto [] ys = omega arith
length-rev_onto (x ∷ rp) ys = omega (arith, length-rev_onto rp (x ∷ ys))

-- A list that is not empty has a last element.
pub last_of {ℓ} :
    {A : Type ℓ} (rp : List A) (c : A) (cs : List A)
    → (qs : List A) × (a : A) × (rev_onto qs (a ∷ []) ≡ rev_onto rp (c ∷ cs))
last_of rp c [] = (rp, c, refl)
last_of rp c (d ∷ cs) = last_of (c ∷ rp) d cs

module _ {S : Type 0} (bs : List ℕ) (place : S → ℕ) (it : BreakIterator S)
    (over : IsOver bs place it) where
  abbrev pub IsMet : (s : S) (rp : List ℕ) (a : ℕ) (rest : List ℕ) → Type 0
  IsMet s rp a rest = (rev_onto rp (a ∷ rest) ≡ bs) × (place s ≡ length rp)

  pub next_gives :
      (s : S) (rp : List ℕ) (a : ℕ) (rest : List ℕ)
      → IsMet s rp a rest
      → (it.next s).0 ≡ get_elem? rest 0
  next_gives s rp a rest (same, at) =
      over.next_at s ∙ ((λ i. get_elem? (sym same i) (at i + 1)) ∙ get-rev_onto rp (a ∷ rest) 1)

  pub next_moves :
      (s : S) (rp : List ℕ) (a b : ℕ) (rest : List ℕ)
      → IsMet s rp a (b ∷ rest)
      → IsMet (it.next s).1 (a ∷ rp) b rest
  next_moves s rp a b rest (same, at) = (
    same,
    over.next_place s (omega (arith, at, ap length same, length-rev_onto rp (a ∷ b ∷ rest)))
        ∙ omega (arith, at),
  )

  pub previous_gives :
      (s : S) (rp : List ℕ) (a : ℕ) (rest : List ℕ)
      → IsMet s rp a rest
      → (it.previous s).0 ≡ get_elem? rp 0
  previous_gives s [] a rest (same, at) = over.previous_at s ∙ ap (before bs) at
  previous_gives s (x ∷ rp) a rest (same, at) =
      over.previous_at s
      ∙ ((λ i. before (sym same i) (at i))
          ∙ (ap (get_elem? (rev_onto rp (x ∷ a ∷ rest))) (omega arith)
              ∙ get-rev_onto rp (x ∷ a ∷ rest) 0))

  pub previous_moves :
      (s : S) (rp : List ℕ) (x a : ℕ) (rest : List ℕ)
      → IsMet s (x ∷ rp) a rest
      → IsMet (it.previous s).1 rp x (a ∷ rest)
  previous_moves s rp x a rest (same, at) = (same, over.previous_place s ∙ omega (arith, at))
