-- ===== src/Tag/Agree.antt =====
-- convert_tag against infer_simple_tag: which scalars of an inferred type can be read back as it.
use oly.Prelude.{Bool, true, false, ◌||◌, ◌≡◌, none, some, arith, ◌==◌, refl}
use oly.Status.{okay, warn_tag_not_match}
use oly.Tag.{
  TagType, NodeValue, Union, string_value, bool_value, tag_value, type_unset, scalar_null,
  scalar_bool, scalar_uint, scalar_plus_infinity, scalar_minus_infinity, scalar_not_a_number,
  scalar_string,
}
use oly.Tag.Icu.{
  TagCheck, Icu, Text, matched, char_at, bool_true, bool_false, plus_infinity, minus_infinity,
  not_a_number,
}
use oly.Tag.Check.{check_tag_string}
use oly.Tag.Import.{
  bool_of, import_tag_null, import_tag_bool, import_tag_plus_inf, import_tag_minus_inf,
  import_tag_nan, import_tag_string, import_tag_uint,
}
use oly.Tag.Basic.{convert_tag}
use oly.Tag.Infer.{
  Works, fits, null-fits, bool-fits, int-fits, uint-fits, float-fits, plus_inf-fits, minus_inf-fits,
  nan-fits,
}

-- The types whose import rests on the same expressions as their check.
abbrev pub direct : TagType → Bool
direct scalar_null = true
direct scalar_bool = true
direct scalar_plus_infinity = true
direct scalar_minus_infinity = true
direct scalar_not_a_number = true
direct scalar_string = true
direct _ = false

module _ {D : Type 0} (icu : Icu D) where
  -- The value that such an import is to leave.
  abbrev pub value_of : TagType → Text → Union Text D
  value_of scalar_bool s = bool_value (icu.matches bool_true s)
  value_of scalar_string s = string_value (some s)
  value_of _ s = string_value none

matched-Works :
    {D : Type 0} (icu : Icu D) (s : Text) (k : TagCheck)
    → Works icu s
    → matched icu k s ≡ some (icu.matches k s)
unfolding matched
matched-Works icu s k w = ground (arith, w.set_works k, w.match_works k)

convert_bool :
    {D : Type 0} (icu : Icu D) (s : Text) (v : NodeValue Text D)
    → Works icu s
    → fits icu s scalar_bool ≡ true
    → import_tag_bool icu s v
      ≡ some (okay, record { value = bool_value (icu.matches bool_true s); type = scalar_bool })
unfolding import_tag_bool
convert_bool icu s v w f = ground (
  arith,
  w.set_works bool_false,
  w.match_works bool_false,
  w.set_works bool_true,
  w.match_works bool_true,
)

-- Where ICU reports no failure, a scalar that fits one of the types null, bool, the infinities,
-- not-a-number and string is converted to that type, with the value that the type calls for,
-- whatever the output held before.
pub convert_tag-fits :
    {D : Type 0} (icu : Icu D) (s : Text) (t : TagType) (v : NodeValue Text D)
    → Works icu s
    → direct t ≡ true
    → fits icu s t ≡ true
    → convert_tag icu s (some t) v ≡ some (okay, record { value = value_of icu t s; type = t })
unfolding convert_tag tag_value import_tag_null import_tag_plus_inf import_tag_minus_inf
    import_tag_nan import_tag_string
convert_tag-fits icu s scalar_null v w d f = refl
convert_tag-fits icu s scalar_bool v w d f = convert_bool icu s v w f
convert_tag-fits icu s scalar_plus_infinity v w d f =
    ground (arith, w.set_works plus_infinity, w.match_works plus_infinity)
convert_tag-fits icu s scalar_minus_infinity v w d f =
    ground (arith, w.set_works minus_infinity, w.match_works minus_infinity)
convert_tag-fits icu s scalar_not_a_number v w d f =
    ground (arith, w.set_works not_a_number, w.match_works not_a_number)
convert_tag-fits icu s scalar_string v w d f = refl
convert_tag-fits icu s _ v w d f = absurd (cc)

-- A scalar of the unsigned type that is not written with `0x` (as an octal number is not) is
-- refused by its own type's import, which unsets the output.
convert_tag_uint_refused :
    {D : Type 0} (icu : Icu D) (s : Text) (v : NodeValue Text D)
    → (char_at s 1 == b'x' || char_at s 1 == b'X') ≡ false
    → convert_tag icu s (some scalar_uint) v
      ≡ some (warn_tag_not_match, record { value = string_value none; type = type_unset })
unfolding convert_tag tag_value import_tag_uint
convert_tag_uint_refused icu s v h = ground arith

-- Where ICU reports no failure, with a null `tag_type` no call of `convert_tag` has a result,
-- though the test for it is meant to infer the type.
convert_tag-null :
    {D : Type 0} (icu : Icu D) (s : Text) (v : NodeValue Text D)
    → Works icu s
    → convert_tag icu s none v ≡ none
unfolding convert_tag check_tag_string
convert_tag-null icu s v w = ground (
  arith,
  null-fits icu s w,
  bool-fits icu s w,
  int-fits icu s w,
  uint-fits icu s w,
  float-fits icu s w,
  plus_inf-fits icu s w,
  minus_inf-fits icu s w,
  nan-fits icu s w,
)

-- Where ICU reports no failure, a scalar that is no bool is taken for one where the output's old
-- value reads as false.
convert_tag_bool_unchecked :
    {D : Type 0} (icu : Icu D) (s : Text) (v : NodeValue Text D)
    → Works icu s
    → fits icu s scalar_bool ≡ false
    → bool_of icu v.value ≡ false
    → convert_tag icu s (some scalar_bool) v
      ≡ some (okay, record { value = v.value; type = scalar_bool })
unfolding convert_tag tag_value import_tag_bool
convert_tag_bool_unchecked icu s v w f r = ground (
  arith,
  w.set_works bool_false,
  w.match_works bool_false,
  w.set_works bool_true,
  w.match_works bool_true,
)
