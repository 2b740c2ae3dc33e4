-- ===== src/Tag/Basic.antt =====
-- The table `basic_tag`, infer_simple_tag and convert_tag of src/node/tag.c.
use oly.Prelude.{ℕ, suc, Option, none, some, List, [], ◌∷◌, get_elem?, if◌then◌else◌}
use oly.Status.{Status, is_okay, okay, warn_tag_not_match}
use oly.Tag.{
  TagType, NodeValue, tag_value, scalar_null, scalar_bool, scalar_int, scalar_uint, scalar_float,
  scalar_plus_infinity, scalar_minus_infinity, scalar_not_a_number, scalar_string,
}
use oly.Tag.Icu.{Icu, Text}
use oly.Tag.Check.{
  check_tag_null, check_tag_bool, check_tag_int, check_tag_uint, check_tag_float,
  check_tag_plus_inf, check_tag_minus_inf, check_tag_nan, check_tag_string,
}
use oly.Tag.Import.{
  Imported, import_tag_null, import_tag_bool, import_tag_int, import_tag_uint, import_tag_float,
  import_tag_plus_inf, import_tag_minus_inf, import_tag_nan, import_tag_string,
}

-- `struct oly_tag_struct`
pub record OlyTag (D : Type 0) : Type 0 where
  pub check : Text → Option Status
  pub import_value : Text → NodeValue Text D → Imported D
  pub internal_type : TagType

module _ {D : Type 0} (icu : Icu D) where
  abbrev pub tag :
      (Icu D → Text → Option Status)
      → (Icu D → Text → NodeValue Text D → Imported D)
      → TagType
      → OlyTag D
  tag c i t = record { check = c icu; import_value = i icu; internal_type = t }

  unfoldable pub basic_tag : List (OlyTag D)
  basic_tag =
      tag check_tag_null import_tag_null scalar_null
      ∷ tag check_tag_bool import_tag_bool scalar_bool
      ∷ tag check_tag_int import_tag_int scalar_int
      ∷ tag check_tag_uint import_tag_uint scalar_uint
      ∷ tag check_tag_float import_tag_float scalar_float
      ∷ tag check_tag_plus_inf import_tag_plus_inf scalar_plus_infinity
      ∷ tag check_tag_minus_inf import_tag_minus_inf scalar_minus_infinity
      ∷ tag check_tag_nan import_tag_nan scalar_not_a_number
      ∷ tag check_tag_string import_tag_string scalar_string
      ∷ []

-- The cast `(OlyTagType)i`, for the indices of the table.
abbrev pub tag_types : List TagType
tag_types =
    scalar_null ∷ scalar_bool ∷ scalar_int ∷ scalar_uint ∷ scalar_float ∷ scalar_plus_infinity
    ∷ scalar_minus_infinity ∷ scalar_not_a_number ∷ scalar_string ∷ []

-- What a check's status makes the loop do.
pub data Verdict : Type 0 where
  match next stop : Verdict

unfoldable pub verdict : Status → Verdict
verdict okay = match
verdict warn_tag_not_match = next
verdict other = stop

-- The loop from an index on; the index of the match is what `*type_out` is set to. `none` is the
-- exit of a check.
unfoldable pub infer_loop : {D : Type 0} → List (OlyTag D) → ℕ → Text → Option (Status × Option ℕ)
infer_loop [] i s = some (okay, none)
infer_loop (t ∷ ts) i s = elim (t.check s) [
  | none ↦ none
  | some status ↦ elim (verdict status) [
    | match ↦ some (okay, some i)
    | next ↦ infer_loop ts (suc i) s
    | stop ↦ some (status, none)
  ]
]

abbrev type_out : Option (Status × Option ℕ) → Option (Status × Option TagType)
type_out none = none
type_out (some (status, none)) = some (status, none)
type_out (some (status, some i)) = some (status, get_elem? tag_types i)

unfoldable pub infer_simple_tag : {D : Type 0} → Icu D → Text → Option (Status × Option TagType)
unfolding infer_loop basic_tag verdict
infer_simple_tag icu s = type_out (infer_loop (basic_tag icu) 0 s)

abbrev run_import :
    {D : Type 0} → Option (OlyTag D) → Text → NodeValue Text D → Option (Status × NodeValue Text D)
run_import none s value = none
run_import (some t) s value = t.import_value s value

-- With a null `tag_type`: infer_simple_tag writes through it if a check passes, and
-- `basic_tag[*tag_type]` reads it if the status is OLY_OKAY.
abbrev convert_null :
    {D : Type 0}
    → Option (Status × Option ℕ)
    → NodeValue Text D
    → Option (Status × NodeValue Text D)
convert_null none value = none
convert_null (some (status, some i)) value = none
convert_null (some (status, none)) value = if is_okay status then none else some (status, value)

-- `none` is an exit, or an access that C leaves undefined: a null `tag_type`, or an entry behind
-- the end of the table.
unfoldable pub convert_tag :
    {D : Type 0}
    → Icu D
    → Text
    → Option TagType
    → NodeValue Text D
    → Option (Status × NodeValue Text D)
unfolding basic_tag infer_loop verdict is_okay
convert_tag icu s none value = convert_null (infer_loop (basic_tag icu) 0 s) value
convert_tag icu s (some t) value = run_import (get_elem? (basic_tag icu) (tag_value t)) s value
