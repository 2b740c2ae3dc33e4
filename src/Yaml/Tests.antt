-- ===== src/Yaml/Tests.antt =====
-- Counts of small documents, and the theorems at them.
use oly.Prelude.{ℕ, ◌≡◌, true, false, some, List, [], ◌∷◌, refl}
use oly.Status.{okay}
use oly.Yaml.{
  Token, count_this_level, new_token_mark, preflight_yaml, stream_end_token, key_token,
  scalar_token, value_token, flow_entry_token,
}
use oly.Yaml.Returns.{ends, is_stream_end, Returns, count_this_level-Returns}
use oly.Yaml.Counts.{
  Mapping, no_entries, text_entry, map_entry, document, level_of, chain, preflight_yaml-counts,
}

abbrev a : List ℕ
a = b'a' ∷ []

abbrev bc : List ℕ
bc = b'b' ∷ b'c' ∷ []

-- { a: { bc: a }, bc: { a: a, bc: a } }
abbrev nested : Mapping
nested =
    map_entry a (text_entry bc a no_entries)
      (map_entry bc (text_entry a a (text_entry bc a no_entries)) no_entries)

abbrev flow : List Token
flow =
    key_token
    ∷ scalar_token a
    ∷ value_token
    ∷ flow_entry_token
    ∷ scalar_token bc
    ∷ stream_end_token
    ∷ []

flow-ends : ends flow ≡ true
unfolding ends is_stream_end
flow-ends = refl

-- The first of the two mappings inside is in no count.
the_first_mapping_is_lost :
    chain nested [] ≡ level_of (text_entry a a (text_entry bc a no_entries)) ∷ []
unfolding chain
the_first_mapping_is_lost = refl

count_this_level-Returns_example : Returns (count_this_level new_token_mark flow) flow
count_this_level-Returns_example = count_this_level-Returns new_token_mark flow flow-ends

preflight_yaml-counts_example :
    preflight_yaml okay true true (document false nested (stream_end_token ∷ []))
    ≡ some (okay, some (record { level = level_of nested; subnodes = chain nested [] }))
preflight_yaml-counts_example = preflight_yaml-counts false nested (stream_end_token ∷ [])
