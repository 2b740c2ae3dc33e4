-- ===== src/StartUp/Locale/Tests.antt =====
-- init_locale at a name of two characters, with a uloc_getBaseName that gives the name as it is.
use oly.Prelude.{
  ℕ, ◌<◌, ◌≡◌, refl, arith, none, List, [], ◌∷◌, length, get_or, ltb, leb, not, ◌&&◌, if◌then◌else◌,
}
use oly.Boundary.{string_length}
use oly.StringBuffer.Layout.{IsText}
use oly.StartUp.Locale.{GetBaseName, init_locale, allocated}
use oly.StartUp.Locale.Stops.{IsBaseName, init_locale-string_length}

abbrev whole_name : GetBaseName
whole_name l n m = record {
  u_failure = not (leb (length l) n);
  output_size = length l;
  buffer = λ j. if ltb j n && leb j (length l) then get_or l j 0 else m j;
}

whole_name-IsBaseName : IsBaseName (λ l. l) whole_name
whole_name-IsBaseName = record {
  succeeds = λ l n m h. ground (arith, h);
  size = λ l n m h. refl;
  characters = λ l n m j h lt. ground (arith, h, lt);
}

abbrev de : List ℕ
de = b'd' ∷ b'e' ∷ []

de-IsText : IsText de
de-IsText = (omega arith, (omega arith, tt))

init_locale-string_length_example :
    (m : ℕ → ℕ) × (init_locale whole_name 8192 de (λ j. 7) ≡ allocated (length de) m)
    × ((j : ℕ) → j < length de → m j ≡ get_or de j 0)
    × (string_length m 0 (length de) ≡ none)
init_locale-string_length_example =
    init_locale-string_length (λ l. l) whole_name whole_name-IsBaseName 8192 de (λ j. 7) de-IsText
      (omega arith) (omega arith)
