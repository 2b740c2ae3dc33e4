-- ===== src/Yaml/Returns.antt =====
-- The count of a stream ends.
use oly.Prelude.{
  ℕ, zero, suc, ◌≤◌, ◌<◌, ◌≡◌, Bool, true, false, ◌||◌, Option, some, List, [], ◌∷◌, length, arith,
  refl, if◌then◌else◌, Bool-cases, inl, inr,
}
use oly.Yaml.{
  Token, Next, go_on, descend, return, next_step, Level, TokenMark, Counted, count_loop,
  count_this_level, new_token_mark, zero_token_mark, stream_end_token, starts,
  flow_mapping_start_token, block_mapping_start_token, block_entry_token, flow_entry_token,
}

unfoldable pub is_stream_end : Token → Bool
is_stream_end stream_end_token = true
is_stream_end _ = false

-- The stream is ended by one of the tokens.
unfoldable pub ends : List Token → Bool
ends [] = false
ends (t ∷ ts) = is_stream_end t || ends ts

-- Only the end of the stream returns with the last token.
abbrev Fitting : Token → Next → Type 0
Fitting t (go_on l) = is_stream_end t ≡ false
Fitting t descend = is_stream_end t ≡ false
Fitting t (return e) = e ≡ is_stream_end t

starts-Fitting : (l : Level) (t : Token) → is_stream_end t ≡ false → Fitting t (starts l)
starts-Fitting l t h = elim l.is_value_token as (λ b. Fitting t (if b then descend else go_on l)) [
  | true ↦ h
  | false ↦ h
]

next_step-Fitting : (l : Level) (t : Token) → Fitting t (next_step l t)
unfolding next_step is_stream_end
next_step-Fitting l flow_mapping_start_token = starts-Fitting l flow_mapping_start_token refl
next_step-Fitting l block_mapping_start_token = starts-Fitting l block_mapping_start_token refl
next_step-Fitting l block_entry_token = starts-Fitting l block_entry_token refl
next_step-Fitting l flow_entry_token = starts-Fitting l flow_entry_token refl
next_step-Fitting l _ = refl

-- A count that returns: it took a token at least, and where it did not take the end of the stream, that
-- is still to come.
abbrev pub Returns : Option Counted → List Token → Type 0
Returns o ts =
    (r : Counted) × (o ≡ some r)
    × (length r.rest < length ts)
    × (r.at_end ≡ false → ends r.rest ≡ true)

-- One round, where the counts with fewer rounds return.
step-Returns :
    (n : ℕ) (m : TokenMark) (t : Token) (ts : List Token) (x : Next)
    → ((m : TokenMark) (ts : List Token)
        → length ts ≤ n
        → ends ts ≡ true
        → Returns (count_loop n m ts) ts)
    → length ts ≤ n
    → ends (t ∷ ts) ≡ true
    → Fitting t x
    → next_step m.level t ≡ x
    → Returns (count_loop (suc n) m (t ∷ ts)) (t ∷ ts)
unfolding count_loop ends
step-Returns n m t ts (go_on l) before h e fit same =
    let (r, runs, less, more) = before (record m { level = l }) ts h (ground (arith, e, fit)) in
    (r, ground (arith, same, runs), omega arith, more)
step-Returns n m t ts (return b) before h e fit same = (
  record { mark = record m { level = zero_token_mark m.level }; at_end = b; rest = ts },
  ground (arith, same),
  omega arith,
  λ stays. ground (arith, e, fit, stays),
)
step-Returns n m t ts descend before h e fit same =
    let (r, runs, less, more) = before new_token_mark ts h (ground (arith, e, fit)) in
    let below = record m { subnodes = r.mark.level ∷ r.mark.subnodes } in
    elim (Bool-cases r.at_end) [
      | inl stops ↦ (
        record { mark = below; at_end = true; rest = r.rest },
        ground (arith, same, runs, stops),
        omega arith,
        λ stays. ground (arith, stays),
      )
      | inr goes ↦
          let (q, runs', less', more') = before below r.rest (omega arith) (more goes) in
          (q, ground (arith, same, runs, goes, runs'), omega arith, more')
    ]

-- As many rounds as there are tokens are enough.
pub count_loop-Returns :
    (n : ℕ) (m : TokenMark) (ts : List Token)
    → length ts ≤ n
    → ends ts ≡ true
    → Returns (count_loop n m ts) ts
unfolding ends
count_loop-Returns zero m [] h e = absurd (ground (arith, e))
count_loop-Returns zero m (t ∷ ts) h e = absurd (omega arith)
count_loop-Returns (suc n) m [] h e = absurd (ground (arith, e))
count_loop-Returns (suc n) m (t ∷ ts) h e =
    step-Returns n m t ts (next_step m.level t) (count_loop-Returns n) (omega arith) e
      (next_step-Fitting m.level t) refl

-- Where one of the tokens ends the stream, the count returns: it takes a token at least, and unless it
-- took the end of the stream, that is still to come.
pub count_this_level-Returns :
    (m : TokenMark) (ts : List Token) → ends ts ≡ true → Returns (count_this_level m ts) ts
unfolding count_this_level
count_this_level-Returns m ts e = count_loop-Returns (length ts) m ts (omega arith) e
