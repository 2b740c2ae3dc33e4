-- ===== src/Tag/Regexps/Tests.antt =====
-- init_regexp_data at three entries, of which the second cannot be compiled.
use oly.Prelude.{
  ℕ, ◌≤◌, ◌<◌, ◌≡◌, true, Option, none, some, List, [], ◌∷◌, get_elem?, if◌then◌else◌, suc,
}
use oly.Status.{okay, err_illegal_tag}
use oly.Tag.Regexps.{init_regexp_data, good_to, expression, init_regexp_data_lem}

abbrev read : ℕ → Option (List ℕ)
read = get_elem? ((b'a' ∷ []) ∷ [] ∷ (b'b' ∷ []) ∷ [])

-- An expression is its first character.
abbrev compile : List ℕ → Option ℕ
compile [] = none
compile (c ∷ cs) = some c

init_regexp_data_lem_example :
    (table : ℕ → Option ℕ) × (init_regexp_data read compile true true 3 (λ j. none)
      ≡ some (if good_to read compile 3 then okay else err_illegal_tag, table))
    × ((j : ℕ)
        → j < 3
        → table j ≡ (if good_to read compile (suc j) then expression read compile j else none))
    × ((j : ℕ) → 3 ≤ j → table j ≡ none)
init_regexp_data_lem_example = init_regexp_data_lem read compile 3 (λ j. none)
