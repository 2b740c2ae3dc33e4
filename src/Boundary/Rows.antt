-- ===== src/Boundary/Rows.antt =====
-- Strings that lie one behind the other in memory, each with one terminator, as put_char_in leaves
-- them and get_ochar_out reads them.
use oly.Prelude.{
  ℕ, zero, suc, ◌+◌, ◌≤◌, ◌<◌, ◌≡◌, ◌≢◌, List, [], ◌∷◌, ◌++◌, map, Memory, arith, length, All, refl,
  ◌∙◌, some, get_or, ap,
}
use oly.StringBuffer.Layout.{IsText, StringAt, StringAt-frame}
use oly.Boundary.{cells, string_length}

abbrev pub Rows : Memory → ℕ → ℕ → List (List ℕ) → Type 0
Rows m p q [] = p ≡ q
Rows m p q (s ∷ ss) = StringAt m p s × IsText s × Rows m (p + length s + 1) q ss

-- The cells that strings take with their terminators.
abbrev pub total : List (List ℕ) → ℕ
total [] = 0
total (s ∷ ss) = length s + 1 + total ss

pub total-append_one : (ss : List (List ℕ)) (s : List ℕ) → 0 < total (ss ++ (s ∷ []))
total-append_one [] s = omega arith
total-append_one (t ∷ ss) s = omega arith

pub Rows-total : (m : Memory) (p q : ℕ) (ss : List (List ℕ)) → Rows m p q ss → p + total ss ≡ q
Rows-total m p q [] h = omega arith
Rows-total m p q (s ∷ ss) h = omega (arith, Rows-total m (p + length s + 1) q ss h.2)

-- What lies outside of a region may change.
pub Rows-frame :
    (m m' : Memory) (p q : ℕ) (ss : List (List ℕ))
    → ((r : ℕ) → p ≤ r → r < q → m' r ≡ m r)
    → Rows m p q ss
    → Rows m' p q ss
Rows-frame m m' p q [] same h = h
Rows-frame m m' p q (s ∷ ss) same h =
    let far : p + length s + 1 + total ss ≡ q = Rows-total m (p + length s + 1) q ss h.2 in
    (
      StringAt-frame m m' p s (λ r lo hi. same r lo (omega arith)) h.0,
      h.1,
      Rows-frame m m' (p + length s + 1) q ss (λ r lo hi. same r (omega arith) hi) h.2,
    )

-- A string that is written behind a region extends it.
pub Rows-snoc :
    (m : Memory) (p q : ℕ) (ss : List (List ℕ)) (s : List ℕ)
    → Rows m p q ss
    → StringAt m q s
    → IsText s
    → Rows m p (q + length s + 1) (ss ++ (s ∷ []))
Rows-snoc m p q [] s h at text = rw h (at, text, refl)
Rows-snoc m p q (t ∷ ss) s h at text = (h.0, h.1, Rows-snoc m (p + length t + 1) q ss s h.2 at text)

pub get_or-length : (s : List ℕ) (j : ℕ) → length s ≤ j → get_or s j 0 ≡ 0
get_or-length [] j h = refl
get_or-length (c ∷ s) zero h = absurd (omega (arith, h))
get_or-length (c ∷ s) (suc j) h = get_or-length s j (omega (arith, h))

pub StringAt-of :
    (m : Memory) (p : ℕ) (s : List ℕ)
    → ((j : ℕ) → j < length s → m (p + j) ≡ get_or s j 0)
    → m (p + length s) ≡ 0
    → StringAt m p s
StringAt-of m p [] at stop = ground (arith, stop)
StringAt-of m p (c ∷ s) at stop = (
  ground (arith, at 0),
  StringAt-of m (p + 1) s (λ j h. ground (arith, at (suc j))) (ground (arith, stop)),
)

pub length-map {ℓ κ} :
    {A : Type ℓ} {B : Type κ} (f : A → B) (s : List A) → length (map f s) ≡ length s
length-map f [] = refl
length-map f (c ∷ s) = omega (arith, length-map f s)

pub map-append_one {ℓ κ} :
    {A : Type ℓ} {B : Type κ} (f : A → B) (s : List A) (a : A)
    → map f (s ++ (a ∷ [])) ≡ map f s ++ (f a ∷ [])
map-append_one f [] a = refl
map-append_one f (x ∷ s) a = cc (map-append_one f s a)

pub IsUsed-map :
    (f : ℕ → ℕ) (ss : List (List ℕ))
    → All (λ s. 0 < length s) ss
    → All (λ s. 0 < length s) (map (map f) ss)
IsUsed-map f [] used = tt
IsUsed-map f (s ∷ ss) used = (rw (length-map f s) used.0, IsUsed-map f ss used.1)

-- A conversion of single characters that keeps the terminator, and makes none.
pub record IsConversion (f : ℕ → ℕ) : Type 0 where
  pub stop : f 0 ≡ 0
  pub no_stop : (c : ℕ) → c ≢ 0 → f c ≢ 0

module _ (f : ℕ → ℕ) (conversion : IsConversion f) (m m' : Memory) where
  StringAt-map :
      (p : ℕ) (s : List ℕ)
      → ((r : ℕ) → p ≤ r → r ≤ p + length s → m' r ≡ f (m r))
      → StringAt m p s
      → StringAt m' p (map f s)
  StringAt-map p [] same h = same p (omega arith) (omega arith) ∙ (ap f h ∙ conversion.stop)
  StringAt-map p (c ∷ s) same h = (
    same p (omega arith) (omega arith) ∙ ap f h.0,
    StringAt-map (p + 1) s (λ r lo hi. same r (omega arith) (omega arith)) h.1,
  )

  IsText-map : (s : List ℕ) → IsText s → IsText (map f s)
  IsText-map [] h = tt
  IsText-map (c ∷ s) h = (conversion.no_stop c h.0, IsText-map s h.1)

  pub Rows-map :
      (p q : ℕ) (ss : List (List ℕ))
      → ((r : ℕ) → p ≤ r → r < q → m' r ≡ f (m r))
      → Rows m p q ss
      → Rows m' p q (map (map f) ss)
  Rows-map p q [] same h = h
  Rows-map p q (s ∷ ss) same h =
      let far : p + length s + 1 + total ss ≡ q = Rows-total m (p + length s + 1) q ss h.2 in
      (
        StringAt-map p s (λ r lo hi. same r lo (omega arith)) h.0,
        IsText-map s h.1,
        rw (length-map f s)
            (Rows-map (p + length s + 1) q ss (λ r lo hi. same r (omega arith) hi) h.2),
      )

pub string_length-StringAt :
    (m : Memory) (p n : ℕ) (s : List ℕ)
    → StringAt m p s
    → IsText s
    → length s < n
    → string_length m p n ≡ some (length s)
unfolding string_length
string_length-StringAt m p zero s at text h = absurd (omega arith)
string_length-StringAt m p (suc n) [] at text h = ground (arith, at)
string_length-StringAt m p (suc n) (c ∷ s) at text h =
    ground (arith, at, text, string_length-StringAt m (p + 1) n s at.1 text.1)

pub StringAt-first :
    (m : Memory) (p : ℕ) (s : List ℕ) → StringAt m p s → IsText s → 0 < length s → m p ≢ 0
StringAt-first m p [] at text h = absurd (omega arith)
StringAt-first m p (c ∷ s) at text h = ground (arith, at, text)

pub cells-StringAt : (m : Memory) (p : ℕ) (s : List ℕ) → StringAt m p s → cells m p (length s) ≡ s
unfolding cells
cells-StringAt m p [] at = refl
cells-StringAt m p (c ∷ s) at = cc (at.0, cells-StringAt m (p + 1) s at.1)

pub length-cells : (m : Memory) (p n : ℕ) → length (cells m p n) ≡ n
unfolding cells
length-cells m p zero = refl
length-cells m p (suc n) = omega (arith, length-cells m (p + 1) n)

-- What a conversion of the cells from the start writes.
pub get_or-cells :
    (f : ℕ → ℕ) (m : Memory) (p n j : ℕ) → j < n → get_or (map f (cells m p n)) j 0 ≡ f (m (p + j))
unfolding cells
get_or-cells f m p zero j h = absurd (omega arith)
get_or-cells f m p (suc n) zero h = ground arith
get_or-cells f m p (suc n) (suc j) h = ground (arith, get_or-cells f m (p + 1) n j)
