-- ===== src/StartUp/Environment/Tests.antt =====
-- The environment of a user with one variable that is preserve.
use oly.Prelude.{ℕ, ◌≡◌, ◌++◌, Option, none, some, List, [], ◌∷◌, arith, ◌==◌, if◌then◌else◌}
use mathlib.Core.Path.{subst}
use oly.Status.{okay}
use oly.StringBuffer.Layout.{IsText}
use oly.StartUp.Environment.{
  Building, cleanenv, clean_from, get_home, home_prefix, sizes, allocated_for,
}
use oly.StartUp.Environment.Entries.{IsEnvironment, preserved}
use oly.StartUp.Environment.Exact.{IsExact, clean_from-IsExact}

abbrev home : List ℕ
home = b'/' ∷ b'h' ∷ []

abbrev path : List ℕ
path = b'P' ∷ b'=' ∷ b'/' ∷ []

-- A name of one character, "T", is set to "Z"; no other name is set.
abbrev old : List ℕ → Option (List ℕ)
old (c ∷ []) = if c == b'T' then some (b'Z' ∷ []) else none
old _ = none

abbrev preserve : List (List ℕ)
preserve = (b'L' ∷ []) ∷ (b'T' ∷ []) ∷ []

value_of_zone : (c : ℕ) (value : List ℕ) → old (c ∷ []) ≡ some value → (b'Z' ∷ []) ≡ value
value_of_zone c value h = ground arith

old-IsEnvironment : IsEnvironment old
old-IsEnvironment [] value h = cc
old-IsEnvironment (c ∷ []) value h = subst (λ v. IsText v) (value_of_zone c value h) (omega arith)
old-IsEnvironment (c ∷ d ∷ s) value h = cc

clean_from-IsExact_example :
    let fixed = (home_prefix ++ home) ∷ (path ∷ []) in
    (cleanenv (some home) old (path ∷ []) preserve (λ j. 0) (λ j. none) ≡ none)
    × (e : Building) × (clean_from (get_home home) old (path ∷ []) preserve (λ j. 0) (λ j. none)
        ≡ (okay, some e))
    × IsExact (fixed ++ preserved old preserve) (allocated_for (sizes old fixed preserve)) e
clean_from-IsExact_example =
    clean_from-IsExact home old (path ∷ []) preserve (λ j. 0) (λ j. none) old-IsEnvironment
      (omega arith) (omega arith)
