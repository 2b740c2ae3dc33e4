-- ===== src/Config/Find.antt =====
-- The item that find_config_item finds.
use oly.Prelude.{
  ℕ, zero, suc, ◌+◌, ◌≤◌, ◌<◌, ◌≡◌, ◌≢◌, ◌⊎◌, inl, inr, Bool, true, false, Option, some, List, [],
  ◌∷◌, arith, refl, sym, Bool-cases, ◌==◌, ◌&&◌,
}
use mathlib.Core.Path.{subst}
use native.Mathlib.Decide.{ℕ_discrete}
use oly.Status.{Status, okay, err_config_unknown}
use oly.Config.{find_loop, find_config_item, same_text, main_unset}

both_true : (a b : Bool) → (a && b) ≡ true → (a ≡ true) × (b ≡ true)
both_true true b h = (refl, h)
both_true false b h = absurd (ground (arith, h))

same_text-eq : (s t : List ℕ) → same_text s t ≡ true → s ≡ t
unfolding same_text
same_text-eq [] [] h = refl
same_text-eq [] (y ∷ ys) h = absurd (ground (arith, h))
same_text-eq (x ∷ xs) [] h = absurd (ground (arith, h))
same_text-eq (x ∷ xs) (y ∷ ys) h =
    let (same, rest) = both_true (x == y) (same_text xs ys) h in
    ground (arith, same, same_text-eq xs ys rest)

same_text_refl : (s : List ℕ) → same_text s s ≡ true
unfolding same_text
same_text_refl [] = refl
same_text_refl (x ∷ xs) = ground (arith, same_text_refl xs)

-- Every item has a name.
abbrev pub IsNamed : (ℕ → Option (List ℕ)) → Type 0
IsNamed names = (k : ℕ) → k < main_unset → (t : List ℕ) × (names k ≡ some t)

-- What a search of `n` items from `i` on may give: the first one with the name `s`, or that there is none.
abbrev pub Found : (ℕ → Option (List ℕ)) → List ℕ → ℕ → ℕ → Option (Status × ℕ) → Type 0
Found names s i n o =
    ((j : ℕ) × (o ≡ some (okay, j))
      × (i ≤ j)
      × (j < i + n)
      × (names j ≡ some s)
      × ((k : ℕ) → i ≤ k → k < j → names k ≢ some s))
    ⊎ ((o ≡ some (err_config_unknown, i + n)) × ((k : ℕ) → i ≤ k → k < i + n → names k ≢ some s))

not_at :
    (names : ℕ → Option (List ℕ)) (s t : List ℕ) (i : ℕ)
    → names i ≡ some t
    → same_text s t ≡ false
    → names i ≢ some s
not_at names s t i e other q = absurd (ground (arith, e, q, other, same_text_refl s))

not_before :
    (names : ℕ → Option (List ℕ)) (s t : List ℕ) (i j : ℕ)
    → names i ≡ some t
    → same_text s t ≡ false
    → ((k : ℕ) → i + 1 ≤ k → k < j → names k ≢ some s)
    → (k : ℕ) → i ≤ k
    → k < j
    → names k ≢ some s
not_before names s t i j e other later k lo hi = elim (ℕ_discrete k i) [
  | yes same ↦ subst (λ q. names q ≢ some s) (sym same) (not_at names s t i e other)
  | no different ↦ later k (omega (arith, different)) hi
]

find_loop-Found :
    (names : ℕ → Option (List ℕ)) (s : List ℕ) (i n : ℕ)
    → i + n ≤ main_unset
    → IsNamed names
    → Found names s i n (find_loop names s i n)
unfolding find_loop
find_loop-Found names s i zero h named = inr (ground arith, λ k lo hi. absurd (omega arith))
find_loop-Found names s i (suc n) h named =
    let (t, e) = named i (omega arith) in
    elim (Bool-cases (same_text s t)) [
      | inl same ↦ inl (
        i,
        ground (arith, e, same),
        omega arith,
        omega arith,
        ground (arith, e, same_text-eq s t same),
        λ k lo hi. absurd (omega arith),
      )
      | inr other ↦ elim (find_loop-Found names s (i + 1) n (omega arith) named) [
        | inl (j, runs, lo, hi, name, first) ↦ inl (
          j,
          ground (arith, e, other, runs),
          omega arith,
          omega arith,
          name,
          not_before names s t i j e other first,
        )
        | inr (runs, no_other) ↦ inr (
          ground (arith, e, other, runs),
          λ k lo hi. not_before names s t i (i + 1 + n) e other no_other k lo (omega arith),
        )
      ]
    ]

-- Where the key can be converted and every item has a name, the first item with that name is found, or
-- that there is none is reported with OLY_CONFIG_MAIN_UNSET for the item.
pub find_config_item-Found :
    (convert : List ℕ → Option (List ℕ)) (names : ℕ → Option (List ℕ)) (key s : List ℕ)
    → convert key ≡ some s
    → IsNamed names
    → Found names s 0 main_unset (find_config_item convert names key)
unfolding find_config_item
find_config_item-Found convert names key s e named =
    ground (arith, e, find_loop-Found names s 0 main_unset (omega arith) named)
