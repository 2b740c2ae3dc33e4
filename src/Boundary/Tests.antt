-- ===== src/Boundary/Tests.antt =====
-- The theorems at a boundary of eight characters, over a converter that keeps each byte.
use oly.Prelude.{
  ℕ, ◌+◌, ◌*◌, ◌%◌, ◌≤◌, ◌<◌, ◌≡◌, ◌≢◌, ◌⊎◌, List, [], ◌∷◌, map, arith, refl, none, some,
}
use oly.Boundary.{Boundary, open_oly_boundary}
use oly.Boundary.Layout.{Fits, IsFresh, open_oly_boundary-Fits}
use oly.Boundary.RoundTrip.{Transferred, transfer_roundtrip, transfer_loses_last}
use oly.Boundary.Sample.{garbage, boundary, latin_1, latin_1-IsBytewise, length-take-le}
use oly.Boundary.Bounds.{IsOpen, put, flush_in, clear, read, calls, calls-IsOpen}

boundary-IsOpen : IsOpen boundary
boundary-IsOpen = record {
  c_bounded = omega arith;
  o_bounded = omega arith;
  small = omega arith;
  c_stop = refl;
  o_stop = refl;
}

-- An input of 8192 bytes, with characters of one byte, is refused: two bytes behind the allocation
-- would be cleared.
the_default_size_overruns : open_oly_boundary {C = ℕ} 5 1 8192 garbage garbage ≡ none
unfolding open_oly_boundary
the_default_size_overruns = refl

open_oly_boundary-Fits_example :
    ((30 % (1 + 2) ≡ 0)
      × (2 * (1 + 2) ≤ 30)
      × Fits 1 30
      × ((b : Boundary ℕ) × (open_oly_boundary {C = ℕ} 5 1 30 garbage garbage ≡ some b)
          × IsFresh 5 1 30 b))
    ⊎ (((30 % (1 + 2) ≢ 0) ⊎ (30 < 2 * (1 + 2)))
        × (open_oly_boundary {C = ℕ} 5 1 30 garbage garbage ≡ none))
open_oly_boundary-Fits_example = open_oly_boundary-Fits {C = ℕ} 5 1 30 garbage garbage (omega arith)

calls-IsOpen_example :
    (b' : Boundary ℕ) × (calls latin_1 (put (b'a' ∷ []) 1 ∷ flush_in ∷ read ∷ clear ∷ []) boundary
      ≡ some b')
    × IsOpen b'
calls-IsOpen_example =
    calls-IsOpen latin_1 (λ c s room. length-take-le room s)
      (put (b'a' ∷ []) 1 ∷ flush_in ∷ read ∷ clear ∷ []) boundary boundary-IsOpen

abbrev two_strings : List (List ℕ)
two_strings = (b'a' ∷ b'b' ∷ []) ∷ (b'c' ∷ []) ∷ []

transfer_roundtrip_example :
    Transferred
      (λ c. c)
      latin_1
      latin_1-IsBytewise
      boundary
      two_strings
      (map (map (λ c. c)) two_strings)
transfer_roundtrip_example =
    transfer_roundtrip (λ c. c) latin_1 latin_1-IsBytewise boundary two_strings refl (omega arith)
      (omega arith) (omega arith) (omega arith) (omega arith) (omega arith)

abbrev first : List (List ℕ)
first = (b'a' ∷ b'b' ∷ b'c' ∷ []) ∷ []

abbrev last : List ℕ
last = b'd' ∷ b'e' ∷ b'f' ∷ []

transfer_loses_last_example :
    Transferred
      (λ c. c)
      latin_1
      latin_1-IsBytewise
      boundary
      ((b'a' ∷ b'b' ∷ b'c' ∷ []) ∷ (b'd' ∷ b'e' ∷ b'f' ∷ []) ∷ [])
      (map (map (λ c. c)) first)
transfer_loses_last_example =
    transfer_loses_last (λ c. c) latin_1 latin_1-IsBytewise boundary first last refl (omega arith)
      (omega arith) (omega arith) (omega arith) refl
