-- ===== src/Tag/Icu.antt =====
-- What tag.c takes from ICU and from the C library: the regular expressions of the resource file,
-- the number parser, and the way a double, a pointer or a number reads as a bool.
use oly.Prelude.{ℕ, Bool, Option, none, some, List, get_or, if◌then◌else◌}
use oly.Prelude.Int.{ℤ}
use oly.Tag.{Union}

-- OlyTagCheck, the indices of `simple_regexp`.
pub data TagCheck : Type 0 where
  null bool_true bool_false int uint_oct uint_hex float : TagCheck
  plus_infinity minus_infinity not_a_number : TagCheck

abbrev pub Text : Type 0
Text = List ℕ

-- The result of `unum_parse` or `unum_parseDouble`: the value, the new `pos`, and U_FAILURE.
pub record Parsed (A : Type 0) : Type 0 where
  pub parsed : A
  pub pos : ℕ
  pub failure : Bool

pub record Icu (D : Type 0) : Type 0 where
  -- U_FAILURE after `uregex_setText`
  pub set_fails : TagCheck → Text → Bool
  -- the answer of `uregex_matches`, and U_FAILURE after it
  pub matches : TagCheck → Text → Bool
  pub match_fails : TagCheck → Text → Bool
  pub parse_int : Text → Parsed ℤ
  pub parse_double : Text → Parsed D
  -- what `u_sscanf(input, "%x", &intlong)` leaves in `intlong`, read as unsigned long
  pub scan_hex : Text → ℕ
  -- `value.bool_value` where another member was written last
  pub reads_true : Union Text D → Bool

-- The OChar at an index; the terminator stands behind the last one. (No claim is made of an index
-- behind the terminator.)
abbrev pub char_at : Text → ℕ → ℕ
char_at s i = get_or s i 0

-- `uregex_setText`, the test of U_FAILURE, `uregex_matches` and the test of U_FAILURE behind it.
-- `none` is `exit(EXIT_FAILURE)`.
unfoldable pub matched : {D : Type 0} → Icu D → TagCheck → Text → Option Bool
matched icu k s =
    if icu.set_fails k s
    then none
    else (if icu.match_fails k s then none else some (icu.matches k s))
