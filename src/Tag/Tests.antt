-- ===== src/Tag/Tests.antt =====
-- Tags of concrete scalars, with a stand-in for the expressions of ICU.
use oly.Prelude.{ℕ, ◌≡◌, refl, Bool, true, false, ◌&&◌, ◌||◌, ◌==◌, leb, none, some, [], ◌∷◌}
use oly.Prelude.Int.{pos}
use oly.Status.{okay}
use oly.Tag.{NodeValue, string_value, bool_value, type_unset, scalar_bool, scalar_uint}
use oly.Tag.Icu.{Icu, Text, TagCheck, char_at, bool_true, bool_false, int, uint_oct, uint_hex}
use oly.Tag.Basic.{infer_simple_tag, convert_tag, tag_types}
use oly.Tag.Infer.{Works, first_fit, infer_simple_tag-first_fit}
use oly.Tag.Agree.{convert_tag-fits}
use oly.Tag.Typed.{IsTyped, convert_tag-IsTyped}

abbrev digit : ℕ → Bool
digit c = leb b'0' c && leb c b'9'

abbrev expression : TagCheck → Text → Bool
expression bool_true s = char_at s 0 == b'y'
expression bool_false s = char_at s 0 == b'n'
expression int s = digit (char_at s 0) && (digit (char_at s 1) || (char_at s 1 == 0))
expression uint_oct s = (char_at s 0 == b'0') && digit (char_at s 1)
expression uint_hex s = (char_at s 0 == b'0') && (char_at s 1 == b'x')
expression _ s = false

abbrev icu : Icu ℕ
icu = record {
  set_fails = λ k s. false;
  matches = expression;
  match_fails = λ k s. false;
  parse_int = λ s. record { parsed = pos 0; pos = 0; failure = true };
  parse_double = λ s. record { parsed = 0; pos = 0; failure = true };
  scan_hex = λ s. 0;
  reads_true = λ u. false;
}

abbrev yes_text : Text
yes_text = b'y' ∷ b'e' ∷ b's' ∷ []

abbrev octal : Text
octal = b'0' ∷ b'1' ∷ b'7' ∷ []

abbrev hex : Text
hex = b'0' ∷ b'x' ∷ b'f' ∷ []

abbrev works : (s : Text) → Works icu s
works s = record { set_works = λ k. refl; match_works = λ k. refl }

abbrev blank : NodeValue Text ℕ
blank = record { value = string_value none; type = type_unset }

a_hexadecimal_number_is_unsigned : first_fit icu hex tag_types ≡ some scalar_uint
unfolding first_fit
a_hexadecimal_number_is_unsigned = refl

infer_simple_tag-first_fit_example :
    infer_simple_tag icu yes_text ≡ some (okay, first_fit icu yes_text tag_types)
infer_simple_tag-first_fit_example = infer_simple_tag-first_fit icu yes_text (works yes_text)

convert_tag-fits_example :
    convert_tag icu yes_text (some scalar_bool) blank
    ≡ some (okay, record { value = bool_value true; type = scalar_bool })
convert_tag-fits_example =
    convert_tag-fits icu yes_text scalar_bool blank (works yes_text) refl refl

-- A scalar that was a false bool.
abbrev was_false : NodeValue Text ℕ
was_false = record { value = bool_value false; type = scalar_bool }

abbrev now_true : NodeValue Text ℕ
now_true = record { value = bool_value true; type = scalar_bool }

convert_tag-IsTyped_example : (now_true.type ≡ scalar_bool) × IsTyped now_true
convert_tag-IsTyped_example =
    convert_tag-IsTyped icu yes_text scalar_bool was_false now_true (λ e. tt)
      (convert_tag-fits icu yes_text scalar_bool was_false (works yes_text) refl refl)
