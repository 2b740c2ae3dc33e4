-- ===== src/StringBuffer/Layout.antt =====
-- How the memory of a buffer stands for strings: each string by its OChars, a terminator, and one
-- more cell that the write pointer skips.
use oly.Prelude.{
  ℕ, ◌+◌, ◌≤◌, ◌<◌, ◌≡◌, ◌≢◌, List, [], ◌∷◌, ◌++◌, Memory, arith, length, All, refl, ◌∙◌,
}

-- A C string: no OChar of it is the terminator.
abbrev pub IsText : List ℕ → Type 0
IsText s = All (λ c. c ≢ 0) s

-- From offset `p` on the memory holds the string and its terminator.
abbrev pub StringAt : Memory → ℕ → List ℕ → Type 0
StringAt m p [] = m p ≡ 0
StringAt m p (c ∷ cs) = (m p ≡ c) × StringAt m (p + 1) cs

-- The cells from `p` up to `q` hold the strings, in order.
abbrev pub Holds : Memory → ℕ → ℕ → List (List ℕ) → Type 0
Holds m p q [] = p ≡ q
Holds m p q (s ∷ ss) = StringAt m p s × IsText s × Holds m (p + length s + 2) q ss

pub StringAt-frame :
    (m m' : Memory) (p : ℕ) (s : List ℕ)
    → ((q : ℕ) → p ≤ q → q ≤ p + length s → m' q ≡ m q)
    → StringAt m p s
    → StringAt m' p s
StringAt-frame m m' p [] same h = same p (omega arith) (omega arith) ∙ h
StringAt-frame m m' p (c ∷ cs) same h = (
  same p (omega arith) (omega arith) ∙ h.0,
  StringAt-frame m m' (p + 1) cs (λ q lo hi. same q (omega arith) (omega arith)) h.1,
)

-- A region stands for no more cells than it has.
pub Holds-le : (m : Memory) (p q : ℕ) (ss : List (List ℕ)) → Holds m p q ss → p ≤ q
Holds-le m p q [] h = omega arith
Holds-le m p q (s ∷ ss) h = omega (arith, Holds-le m (p + length s + 2) q ss h.2)

-- What lies outside of a region may change.
pub Holds-frame :
    (m m' : Memory) (p q : ℕ) (ss : List (List ℕ))
    → ((r : ℕ) → p ≤ r → r < q → m' r ≡ m r)
    → Holds m p q ss
    → Holds m' p q ss
Holds-frame m m' p q [] same h = h
Holds-frame m m' p q (s ∷ ss) same h =
    let far : p + length s + 2 ≤ q = Holds-le m (p + length s + 2) q ss h.2 in
    (
      StringAt-frame m m' p s (λ r lo hi. same r lo (omega arith)) h.0,
      h.1,
      Holds-frame m m' (p + length s + 2) q ss (λ r lo hi. same r (omega arith) hi) h.2,
    )

-- A string that is written behind a region extends it.
pub Holds-snoc :
    (m : Memory) (p q : ℕ) (ss : List (List ℕ)) (s : List ℕ)
    → Holds m p q ss
    → StringAt m q s
    → IsText s
    → Holds m p (q + length s + 2) (ss ++ (s ∷ []))
Holds-snoc m p q [] s h at text = rw h (at, text, refl)
Holds-snoc m p q (t ∷ ss) s h at text =
    (h.0, h.1, Holds-snoc m (p + length t + 2) q ss s h.2 at text)

pub Holds-cong :
    (m m' : Memory) (p p' q q' : ℕ) (ss : List (List ℕ))
    → m' ≡ m
    → p' ≡ p
    → q' ≡ q
    → Holds m p q ss
    → Holds m' p' q' ss
Holds-cong m m' p p' q q' ss e f g h = rw (e, f, g) h

pub Holds-empty : (m : Memory) (p q : ℕ) (ss : List (List ℕ)) → p ≡ q → Holds m p q ss → ss ≡ []
Holds-empty m p q [] e h = refl
Holds-empty m p q (s ∷ ss) e h = absurd (omega (arith, Holds-le m (p + length s + 2) q ss h.2))
