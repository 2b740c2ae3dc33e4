-- ===== src/Status/Ltdl/Tests.antt =====
-- get_ltdl_errmsg at a table of two entries.
use oly.Prelude.{ℕ, ◌≡◌, refl, none, some, List, [], ◌∷◌}
use oly.Prelude.Int.{pos}
use oly.Status.Ltdl.{get_ltdl_errmsg, table_of}

abbrev two : List ℕ
two = 8 ∷ 9 ∷ []

no_code_has_no_text :
    get_ltdl_errmsg 2 none (some (table_of two)) (pos 2) ≡ some (none, table_of two)
unfolding get_ltdl_errmsg
no_code_has_no_text = refl
