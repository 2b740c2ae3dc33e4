-- ===== src/Debug/Tests.antt =====
-- The theorem on the listing of resources at a small tree, of which the texts in arrays are chosen.
use oly.Prelude.{ℕ, ◌≡◌, refl, Option, some, none, List, [], ◌∷◌, length, ltb, if◌then◌else◌}
use oly.Prelude.Int.{pos}
use oly.Debug.Tree.{
  Resource, res_string, res_int, res_array, res_table, child, no_child, ResDispFlag, flag_check,
  flag_res_display, printed, text_line, display_type,
}
use oly.Debug.Tree.Shown.{of_values, render, visible, leaves, flag_res_display-render}

abbrev arrays_and_strings : ResDispFlag
arrays_and_strings = record {
  all = 0;
  help = 0;
  version = 0;
  only_locale = 0;
  badopt = 0;
  tables = 0;
  arrays = 1;
  strings = 1;
  binaries = 0;
  aliases = 0;
  integers = 0;
  vectors = 0;
}

-- Texts of fewer than eight bytes can be converted.
abbrev short : List ℕ → Option (List ℕ)
short s = if ltb (length s) 8 then some s else none

abbrev tree : Resource
tree = res_array (
    child [] (res_string (b'a' ∷ [])) (
      child [] (res_int (pos 3)) (
        child [] (res_table (child (b'k' ∷ []) (res_string (b'b' ∷ [])) no_child))
          (child [] (res_array (child [] (res_string (b'c' ∷ [])) no_child)) no_child))))

tree_shows :
    of_values (flag_res_display 8 short arrays_and_strings 0 tree)
    ≡ printed (text_line (b'a' ∷ []) ∷ text_line (b'c' ∷ []) ∷ [])
unfolding flag_res_display flag_check display_type
tree_shows = refl

flag_res_display-render_example :
    of_values (flag_res_display 8 short arrays_and_strings 0 tree)
    ≡ render 8 short arrays_and_strings (visible 8 short arrays_and_strings (leaves tree))
flag_res_display-render_example = flag_res_display-render 8 short arrays_and_strings 0 tree
