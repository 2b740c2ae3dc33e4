-- ===== src/Tag/Check.antt =====
-- The `check` functions of src/node/tag.c. `none` is `exit(EXIT_FAILURE)`.
use oly.Prelude.{Bool, true, false, Option, none, some, ◌==◌, if◌then◌else◌}
use oly.Status.{Status, okay, warn_tag_not_match}
use oly.Tag.Icu.{
  TagCheck, Icu, Text, matched, char_at, null, bool_true, bool_false, int, uint_oct, uint_hex,
  float, plus_infinity, minus_infinity, not_a_number,
}

abbrev pub status_of : Option Bool → Option Status
status_of none = none
status_of (some true) = some okay
status_of (some false) = some warn_tag_not_match

-- The first of two expressions is taken before its failure is tested.
abbrev pub either_of : {D : Type 0} → Icu D → TagCheck → TagCheck → Text → Option Status
either_of icu k l s =
    if icu.set_fails k s
    then none
    else (if icu.matches k s
        then some okay
        else (if icu.match_fails k s then none else status_of (matched icu l s)))

module _ {D : Type 0} (icu : Icu D) where
  -- An empty scalar is a null.
  unfoldable pub check_tag_null : Text → Option Status
  unfolding matched
  check_tag_null s = if char_at s 0 == 0 then some okay else status_of (matched icu null s)

  unfoldable pub check_tag_bool : Text → Option Status
  unfolding matched
  check_tag_bool s = either_of icu bool_false bool_true s

  unfoldable pub check_tag_int : Text → Option Status
  unfolding matched
  check_tag_int s = status_of (matched icu int s)

  unfoldable pub check_tag_uint : Text → Option Status
  unfolding matched
  check_tag_uint s = either_of icu uint_oct uint_hex s

  unfoldable pub check_tag_float : Text → Option Status
  unfolding matched
  check_tag_float s = status_of (matched icu float s)

  unfoldable pub check_tag_plus_inf : Text → Option Status
  unfolding matched
  check_tag_plus_inf s = status_of (matched icu plus_infinity s)

  unfoldable pub check_tag_minus_inf : Text → Option Status
  unfolding matched
  check_tag_minus_inf s = status_of (matched icu minus_infinity s)

  -- The only check that does not test for a failure behind `uregex_matches`.
  unfoldable pub check_tag_nan : Text → Option Status
  check_tag_nan s =
      if icu.set_fails not_a_number s
      then none
      else (if icu.matches not_a_number s then some okay else some warn_tag_not_match)

  unfoldable pub check_tag_string : Text → Option Status
  check_tag_string s = some okay
