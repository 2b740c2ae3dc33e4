-- ===== src/Tag/Import.antt =====
-- The `import` functions of src/node/tag.c: the status, and the value and the type that are left in
-- `*output`. `none` is `exit(EXIT_FAILURE)`.
use oly.Prelude.{Bool, true, false, ◌||◌, Option, none, some, ◌==◌, if◌then◌else◌}
use oly.Status.{Status, okay, warn_tag_not_match}
use oly.Tag.{
  TagType, Union, NodeValue, string_value, float_value, int_value, uint_value, bool_value,
  type_unset, scalar_null, scalar_bool, scalar_int, scalar_uint, scalar_float, scalar_plus_infinity,
  scalar_minus_infinity, scalar_not_a_number, scalar_string,
}
use oly.Tag.Icu.{
  Icu, Text, Parsed, matched, char_at, bool_true, bool_false, plus_infinity, minus_infinity,
  not_a_number,
}

abbrev pub Imported : Type 0 → Type 0
Imported D = Option (Status × NodeValue Text D)

module _ {D : Type 0} where
  abbrev pub nothing : Union Text D
  nothing = string_value none

  -- `output->value.bool_value != false`
  abbrev pub bool_of : Icu D → Union Text D → Bool
  bool_of icu (bool_value b) = b
  bool_of icu other = icu.reads_true other

module _ {D : Type 0} (icu : Icu D) where
  unfoldable pub import_tag_null : Text → NodeValue Text D → Imported D
  import_tag_null s out = some (okay, record { value = string_value none; type = scalar_null })

  -- With the value that the first expression left: the second expression, and the type.
  abbrev pub bool_with : Union Text D → Option Bool → TagType → Imported D
  bool_with v none t = none
  bool_with v (some true) t = some (okay, record { value = bool_value true; type = scalar_bool })
  bool_with v (some false) t =
      if bool_of icu v
      then some (warn_tag_not_match, record { value = v; type = t })
      else some (okay, record { value = v; type = scalar_bool })

  abbrev pub bool_from : Option Bool → Text → NodeValue Text D → Imported D
  bool_from none s out = none
  bool_from (some is_false) s out =
      bool_with (if is_false then bool_value false else out.value) (matched icu bool_true s)
        out.type

  unfoldable pub import_tag_bool : Text → NodeValue Text D → Imported D
  unfolding matched
  import_tag_bool s out = bool_from (matched icu bool_false s) s out

  -- The common end of the two number imports: a failure exits, text behind the number is refused.
  abbrev number : {A : Type 0} → Parsed A → (A → Union Text D) → TagType → Text → Imported D
  number p member t s =
      if p.failure
      then none
      else (if char_at s p.pos == 0
          then some (okay, record { value = member p.parsed; type = t })
          else some (warn_tag_not_match, record { value = string_value none; type = type_unset }))

  unfoldable pub import_tag_int : Text → NodeValue Text D → Imported D
  import_tag_int s out = number (icu.parse_int s) int_value scalar_int s

  -- Only the hexadecimal form is read.
  unfoldable pub import_tag_uint : Text → NodeValue Text D → Imported D
  import_tag_uint s out =
      if char_at s 1 == b'x' || char_at s 1 == b'X'
      then some (okay, record { value = uint_value (icu.scan_hex s); type = scalar_uint })
      else some (warn_tag_not_match, record { value = string_value none; type = type_unset })

  unfoldable pub import_tag_float : Text → NodeValue Text D → Imported D
  import_tag_float s out = number (icu.parse_double s) float_value scalar_float s

  -- A match clears the pointer and sets the type, anything else only unsets the type.
  abbrev pub marker : Option Bool → TagType → NodeValue Text D → Imported D
  marker none t out = none
  marker (some true) t out = some (okay, record { value = string_value none; type = t })
  marker (some false) t out = some (warn_tag_not_match, record out { type = type_unset })

  unfoldable pub import_tag_plus_inf : Text → NodeValue Text D → Imported D
  unfolding matched
  import_tag_plus_inf s out = marker (matched icu plus_infinity s) scalar_plus_infinity out

  unfoldable pub import_tag_minus_inf : Text → NodeValue Text D → Imported D
  unfolding matched
  import_tag_minus_inf s out = marker (matched icu minus_infinity s) scalar_minus_infinity out

  unfoldable pub import_tag_nan : Text → NodeValue Text D → Imported D
  unfolding matched
  import_tag_nan s out = marker (matched icu not_a_number s) scalar_not_a_number out

  -- The pointer to the input; the text is not copied.
  unfoldable pub import_tag_string : Text → NodeValue Text D → Imported D
  import_tag_string s out =
      some (okay, record { value = string_value (some s); type = scalar_string })
