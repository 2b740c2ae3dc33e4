-- ===== src/Tag/Infer.antt =====
-- Which tag infer_simple_tag gives a scalar.
use oly.Prelude.{
  Bool, true, false, ◌||◌, ◌≡◌, Option, none, some, List, [], ◌∷◌, arith, ◌==◌, if◌then◌else◌,
}
use oly.Status.{Status, okay, warn_tag_not_match}
use oly.Tag.{
  TagType, scalar_null, scalar_bool, scalar_int, scalar_uint, scalar_float, scalar_plus_infinity,
  scalar_minus_infinity, scalar_not_a_number, scalar_string,
}
use oly.Tag.Icu.{
  TagCheck, Icu, Text, char_at, null, bool_true, bool_false, int, uint_oct, uint_hex, float,
  plus_infinity, minus_infinity, not_a_number,
}
use oly.Tag.Check.{
  check_tag_null, check_tag_bool, check_tag_int, check_tag_uint, check_tag_float,
  check_tag_plus_inf, check_tag_minus_inf, check_tag_nan, check_tag_string,
}
use oly.Tag.Basic.{infer_simple_tag, tag_types}

module _ {D : Type 0} (icu : Icu D) (s : Text) where
  -- ICU reports no failure on this scalar.
  pub record Works : Type 0 where
    pub set_works : (k : TagCheck) → icu.set_fails k s ≡ false
    pub match_works : (k : TagCheck) → icu.match_fails k s ≡ false

  abbrev pub answer : Bool → Option Status
  answer b = some (if b then okay else warn_tag_not_match)

  -- What each check asks for, with no failures and no order of evaluation.
  abbrev pub fits : TagType → Bool
  fits scalar_null = char_at s 0 == 0 || icu.matches null s
  fits scalar_bool = icu.matches bool_false s || icu.matches bool_true s
  fits scalar_int = icu.matches int s
  fits scalar_uint = icu.matches uint_oct s || icu.matches uint_hex s
  fits scalar_float = icu.matches float s
  fits scalar_plus_infinity = icu.matches plus_infinity s
  fits scalar_minus_infinity = icu.matches minus_infinity s
  fits scalar_not_a_number = icu.matches not_a_number s
  fits scalar_string = true
  fits _ = false

  module _ (w : Works) where
    pub null-fits : check_tag_null icu s ≡ answer (fits scalar_null)
    unfolding check_tag_null
    null-fits = ground (arith, w.set_works null, w.match_works null)

    pub bool-fits : check_tag_bool icu s ≡ answer (fits scalar_bool)
    unfolding check_tag_bool
    bool-fits = ground (
      arith,
      w.set_works bool_false,
      w.match_works bool_false,
      w.set_works bool_true,
      w.match_works bool_true,
    )

    pub int-fits : check_tag_int icu s ≡ answer (fits scalar_int)
    unfolding check_tag_int
    int-fits = ground (arith, w.set_works int, w.match_works int)

    pub uint-fits : check_tag_uint icu s ≡ answer (fits scalar_uint)
    unfolding check_tag_uint
    uint-fits = ground (
      arith,
      w.set_works uint_oct,
      w.match_works uint_oct,
      w.set_works uint_hex,
      w.match_works uint_hex,
    )

    pub float-fits : check_tag_float icu s ≡ answer (fits scalar_float)
    unfolding check_tag_float
    float-fits = ground (arith, w.set_works float, w.match_works float)

    pub plus_inf-fits : check_tag_plus_inf icu s ≡ answer (fits scalar_plus_infinity)
    unfolding check_tag_plus_inf
    plus_inf-fits = ground (arith, w.set_works plus_infinity, w.match_works plus_infinity)

    pub minus_inf-fits : check_tag_minus_inf icu s ≡ answer (fits scalar_minus_infinity)
    unfolding check_tag_minus_inf
    minus_inf-fits = ground (arith, w.set_works minus_infinity, w.match_works minus_infinity)

    pub nan-fits : check_tag_nan icu s ≡ answer (fits scalar_not_a_number)
    unfolding check_tag_nan
    nan-fits = ground (arith, w.set_works not_a_number, w.match_works not_a_number)

  -- The first type of a list that fits.
  unfoldable pub first_fit : List TagType → Option TagType
  first_fit [] = none
  first_fit (t ∷ ts) = if fits t then some t else first_fit ts

-- Where ICU reports no failure, a scalar gets the first type, in the order of the table, whose
-- pattern it fits; every scalar gets one, for the last type fits all.
pub infer_simple_tag-first_fit :
    {D : Type 0} (icu : Icu D) (s : Text)
    → Works icu s
    → infer_simple_tag icu s ≡ some (okay, first_fit icu s tag_types)
unfolding infer_simple_tag first_fit check_tag_string
infer_simple_tag-first_fit icu s w = ground (
  arith,
  null-fits icu s w,
  bool-fits icu s w,
  int-fits icu s w,
  uint-fits icu s w,
  float-fits icu s w,
  plus_inf-fits icu s w,
  minus_inf-fits icu s w,
  nan-fits icu s w,
)
