-- ===== src/StartUp/Locale/Stops.antt =====
-- Where the string that init_locale returns stops.
use oly.Prelude.{
  ℕ, suc, [], ◌∷◌, ◌+◌, ◌≤◌, ◌<◌, ◌≡◌, arith, false, none, List, length, get_or, Memory,
}
use oly.StringBuffer.Layout.{IsText}
use oly.Boundary.{string_length}
use oly.StartUp.Locale.{GetBaseName, allocated, confirm_locale, init_locale}

-- The documented behaviour of uloc_getBaseName with a buffer that is not too small for the name: it
-- tells no failure, gives the length of the name and writes its characters.
pub record IsBaseName (base : List ℕ → List ℕ) (get_base_name : GetBaseName) : Type 0 where
  pub succeeds :
      (l : List ℕ) (n : ℕ) (m : Memory)
      → length (base l) ≤ n
      → (get_base_name l n m).u_failure ≡ false
  pub size :
      (l : List ℕ) (n : ℕ) (m : Memory)
      → length (base l) ≤ n
      → (get_base_name l n m).output_size ≡ length (base l)
  pub characters :
      (l : List ℕ) (n : ℕ) (m : Memory) (j : ℕ)
      → length (base l) ≤ n
      → j < length (base l)
      → (get_base_name l n m).buffer j ≡ get_or (base l) j 0

-- Cells without a terminator are no string.
no_string :
    (m : Memory) (p : ℕ) (s : List ℕ)
    → IsText s
    → ((j : ℕ) → j < length s → m (p + j) ≡ get_or s j 0)
    → string_length m p (length s) ≡ none
unfolding string_length
no_string m p [] text at = ground arith
no_string m p (c ∷ s) text at =
    ground (arith, text.0, at 0, no_string m (p + 1) s text.1 (λ j h. ground (arith, at (suc j))))

-- Where uloc_getBaseName behaves as documented: of a locale whose base name is a text, is not empty
-- and fits the buffer, init_locale returns an allocation of just as many cells as the name has
-- characters. It holds the name, and no terminator: reading it as a string leaves the allocation.
pub init_locale-string_length :
    (base : List ℕ → List ℕ) (get_base_name : GetBaseName)
    → IsBaseName base get_base_name
    → (bufsiz : ℕ) (locale : List ℕ) (local : Memory) → IsText (base locale)
    → 0 < length (base locale)
    → length (base locale) ≤ bufsiz
    → (m : Memory) × (init_locale get_base_name bufsiz locale local
        ≡ allocated (length (base locale)) m)
      × ((j : ℕ) → j < length (base locale) → m j ≡ get_or (base locale) j 0)
      × (string_length m 0 (length (base locale)) ≡ none)
unfolding init_locale confirm_locale
init_locale-string_length base call is bufsiz locale local text some_char fits =
    let n = length (base locale) in
    let m = (call locale n (λ j. 0)).buffer in
    (
      m,
      rw
          (
            is.succeeds locale bufsiz local fits,
            is.size locale bufsiz local fits,
            is.size locale n (λ j. 0) (omega arith),
            init_locale,
            confirm_locale,
          )
          (ground (arith, some_char)),
      λ j h. is.characters locale n (λ j. 0) j (omega arith) h,
      no_string m 0 (base locale) text
          (λ j h. ground (arith, is.characters locale n (λ j. 0) j (omega arith) h)),
    )
