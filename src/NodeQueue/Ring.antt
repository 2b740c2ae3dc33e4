-- ===== src/NodeQueue/Ring.antt =====
-- The indices of the ring: how many slots are in use, and where the steps of `in` and `out` lead.
use oly.Prelude.{
  ℕ, zero, suc, ◌+◌, ◌-◌, ◌≤◌, ◌<◌, ◌≡◌, ◌≢◌, ◌⊎◌, inl, inr, refl, none, some, List, [], ◌∷◌, ◌++◌,
  arith, leb, if◌then◌else◌, ap, ◌∙◌,
}
use mathlib.Core.Path.{ap₂}
use native.Mathlib.Decide.{ℕ_discrete}
use oly.NodeQueue.{next_in, next_out}

-- The number of slots from behind `out` up to `in`, going round behind `n`.
unfoldable pub count : ℕ → ℕ → ℕ → ℕ
count n i o = if leb o i then i - o else n + 1 + i - o

-- The slot `k` steps behind `o`.
unfoldable pub slot : ℕ → ℕ → ℕ → ℕ
slot n o k = if leb (o + k) n then o + k else o + k - (n + 1)

pub count_bounded : (n i o : ℕ) → i ≤ n → o ≤ n → count n i o ≤ n
unfolding count
count_bounded n i o h k = ground arith

pub slot-count : (n i o : ℕ) → i ≤ n → o ≤ n → slot n o (count n i o) ≡ i
unfolding slot count
slot-count n i o h k = ground arith

pub slot_bounded : (n o k : ℕ) → o ≤ n → k ≤ n → slot n o k ≤ n
unfolding slot
slot_bounded n o k h l = ground arith

pub slot-slot : (n o k : ℕ) → o ≤ n → k < n → slot n (slot n o 1) k ≡ slot n o (k + 1)
unfolding slot
slot-slot n o k h l = ground arith

pub slot_ne : (n o k : ℕ) → o ≤ n → 0 < k → k ≤ n → slot n o k ≢ o
unfolding slot
slot_ne n o k h pos l = ground arith

pub slot_injective : (n o j k : ℕ) → o ≤ n → j < k → k ≤ n → slot n o j ≢ slot n o k
unfolding slot
slot_injective n o j k h lt l = ground arith

-- For indices up to `n`, a step of `in` takes up the next slot and counts one more; it is refused
-- exactly where all `n` are in use.
pub next_in-count :
    (n i o : ℕ)
    → i ≤ n
    → o ≤ n
    → ((next_in n i o ≡ none) × (count n i o ≡ n))
      ⊎ ((next_in n i o ≡ some (slot n i 1))
          × (slot n i 1 ≤ n)
          × (slot n i 1 ≡ slot n o (count n i o + 1))
          × (count n (slot n i 1) o ≡ count n i o + 1)
          × (count n i o < n))
unfolding next_in count slot
next_in-count n i o h k = elim (ℕ_discrete (count n i o) n) [
  | yes full ↦ inl (ground (arith, full), full)
  | no free ↦ inr (ground arith, ground arith, ground arith, ground arith, ground arith)
]

-- For indices up to `n` that are not both `n`, a step of `out` gives up the oldest slot, and it is
-- refused exactly where no slot is in use.
pub next_out-count :
    (n i o : ℕ)
    → i ≤ n
    → o ≤ n
    → (i ≢ n) ⊎ (o ≢ n)
    → ((next_out n i o ≡ none) × (count n i o ≡ 0))
      ⊎ ((next_out n i o ≡ some (slot n o 1))
          × (slot n o 1 ≤ n)
          × (count n i (slot n o 1) + 1 ≡ count n i o))
unfolding next_out count slot
next_out-count n i o h k ne = elim (ℕ_discrete (count n i o) 0) [
  | yes none_left ↦ inl (ground arith, none_left)
  | no more ↦ inr (ground arith, ground arith, ground arith)
]

-- Where both indices are `n` no slot is in use, yet the step is made: afterwards all are.
pub next_out_empty_at_end :
    (n : ℕ) → (count n n n ≡ 0) × (next_out n n n ≡ some 0) × (count n n 0 ≡ n)
unfolding next_out count
next_out_empty_at_end n = (ground arith, ground arith, ground arith)

-- What a function of the slots is on the `k` slots behind the `j`-th one behind `o`.
module _ {A : Type 0} (n o : ℕ) where
  unfoldable pub items : (ℕ → A) → ℕ → ℕ → List A
  items f j zero = []
  items f j (suc k) = f (slot n o (suc j)) ∷ items f (suc j) k

  pub items_cong :
      (f g : ℕ → A) (j k : ℕ)
      → ((m : ℕ) → j < m → m ≤ j + k → f (slot n o m) ≡ g (slot n o m))
      → items f j k ≡ items g j k
  unfolding items
  items_cong f g j zero e = refl
  items_cong f g j (suc k) e =
      ap₂ ◌∷◌ (e (suc j) (omega arith) (omega arith))
        (items_cong f g (suc j) k (λ m lo hi. e m (omega arith) (omega arith)))

  pub items_snoc :
      (f : ℕ → A) (j k : ℕ) → items f j (suc k) ≡ items f j k ++ (f (slot n o (j + k + 1)) ∷ [])
  unfolding items
  items_snoc f j zero = ap (λ m. f (slot n o m) ∷ []) (omega arith)
  items_snoc f j (suc k) =
      ap (λ l. f (slot n o (suc j)) ∷ l)
        (items_snoc f (suc j) k
          ∙ ap (λ m. items f (suc j) k ++ (f (slot n o m) ∷ [])) (omega arith))

pub items-slot :
    {A : Type 0} (n o : ℕ) (f : ℕ → A) (j k : ℕ)
    → o ≤ n
    → j + k < n
    → items n (slot n o 1) f j k ≡ items n o f (suc j) k
unfolding items
items-slot n o f j zero h l = refl
items-slot n o f j (suc k) h l =
    ap₂ ◌∷◌ (ap f (slot-slot n o (suc j) h (omega arith) ∙ ap (slot n o) (omega arith)))
      (items-slot n o f (suc j) k h (omega arith))
