-- ===== src/Yaml/Counts.antt =====
-- What the count of a document gives: nested mappings of block style.
use oly.Prelude.{
  ℕ, zero, suc, ◌+◌, ◌≤◌, ◌<◌, ◌≡◌, Bool, true, false, some, List, [], ◌∷◌, length, arith, refl,
  ◌∙◌,
}
use oly.Status.{okay, is_okay}
use oly.Yaml.{
  preflight_yaml, Token, strlen, next_step, Level, TokenMark, Counted, count_loop, count_this_level,
  new_token_mark, stream_start_token, document_start_token, block_mapping_start_token,
  block_end_token, key_token, value_token, scalar_token,
}

-- A mapping of scalars to scalars and to mappings.
pub data Mapping : Type 0 where
  no_entries : Mapping
  text_entry : List ℕ → List ℕ → Mapping → Mapping
  map_entry : List ℕ → Mapping → Mapping → Mapping

-- Its tokens from the first key on, and those that follow it.
unfoldable pub tokens : Mapping → List Token → List Token
tokens no_entries rest = block_end_token ∷ rest
tokens (text_entry k v m) rest =
    key_token ∷ scalar_token k ∷ value_token ∷ scalar_token v ∷ tokens m rest
tokens (map_entry k s m) rest =
    key_token ∷ scalar_token k ∷ value_token ∷ block_mapping_start_token ∷ tokens s (tokens m rest)

-- How many tokens these are.
unfoldable pub token_count : Mapping → ℕ
token_count no_entries = 1
token_count (text_entry k v m) = 4 + token_count m
token_count (map_entry k s m) = 4 + (token_count s + token_count m)

length-tokens :
    (m : Mapping) (rest : List Token) → length (tokens m rest) ≡ token_count m + length rest
unfolding tokens token_count
length-tokens no_entries rest = omega arith
length-tokens (text_entry k v m) rest = omega (arith, length-tokens m rest)
length-tokens (map_entry k s m) rest =
    omega (arith, length-tokens s (tokens m rest), length-tokens m rest)

token_count-pos : (m : Mapping) → 0 < token_count m
unfolding token_count
token_count-pos no_entries = omega arith
token_count-pos (text_entry k v m) = omega arith
token_count-pos (map_entry k s m) = omega arith

-- The keys of the mapping itself.
unfoldable pub nodes : Mapping → ℕ
nodes no_entries = 0
nodes (text_entry k v m) = 1 + nodes m
nodes (map_entry k s m) = 1 + nodes m

-- The bytes of its keys and of its scalars up to a NUL, with a terminator for each.
unfoldable pub bytes : Mapping → ℕ
bytes no_entries = 0
bytes (text_entry k v m) = (strlen k + 1) + ((strlen v + 1) + bytes m)
bytes (map_entry k s m) = (strlen k + 1) + bytes m

abbrev pub level_of : Mapping → Level
level_of m = record {
  count_ochars = bytes m;
  count_nodes = nodes m;
  is_key_token = false;
  is_value_token = false;
}

-- The chain of the last mapping in the mapping, or what was there before it.
unfoldable pub chain : Mapping → List Level → List Level
chain no_entries below = below
chain (text_entry k v m) below = chain m below
chain (map_entry k s m) below = chain m (level_of s ∷ chain s [])

-- What is left where the counts are `o` and `n` and the subnodes `below`.
abbrev counted_as : ℕ → ℕ → List Level → List Token → Counted
counted_as o n below rest = record {
  mark = record {
    level = record {
      count_ochars = o;
      count_nodes = n;
      is_key_token = false;
      is_value_token = false;
    };
    subnodes = below;
  };
  at_end = false;
  rest = rest;
}

abbrev counted : TokenMark → Mapping → List Token → Counted
counted t m rest =
    counted_as (t.level.count_ochars + bytes m) (t.level.count_nodes + nodes m) (chain m t.subnodes)
      rest

-- The mark before the value of the key `k`.
abbrev keyed : TokenMark → List ℕ → TokenMark
keyed t k = record t {
  level = record {
    count_ochars = t.level.count_ochars + (strlen k + 1);
    count_nodes = t.level.count_nodes + 1;
    is_key_token = false;
    is_value_token = true;
  };
}

-- The same mark with its scalar value counted.
abbrev valued : TokenMark → List ℕ → List ℕ → TokenMark
valued t k v = record t {
  level = record {
    count_ochars = t.level.count_ochars + (strlen k + 1) + (strlen v + 1);
    count_nodes = t.level.count_nodes + 1;
    is_key_token = false;
    is_value_token = false;
  };
}

abbrev with_subnode : TokenMark → Mapping → TokenMark
with_subnode t s = record t { subnodes = level_of s ∷ chain s [] }

-- The rounds of an entry.
text_rounds :
    (n : ℕ) (t : TokenMark) (k v : List ℕ) (m : Mapping) (rest : List Token)
    → count_loop (suc (suc (suc (suc n)))) t (tokens (text_entry k v m) rest)
      ≡ count_loop n (valued t k v) (tokens m rest)
unfolding count_loop next_step tokens
text_rounds n t k v m rest = refl

map_rounds :
    (n : ℕ) (t : TokenMark) (k : List ℕ) (s m : Mapping) (rest : List Token)
    → count_loop n new_token_mark (tokens s (tokens m rest))
      ≡ some (counted_as (bytes s) (nodes s) (chain s []) (tokens m rest))
    → count_loop (suc (suc (suc (suc n)))) t (tokens (map_entry k s m) rest)
      ≡ count_loop n (with_subnode (keyed t k) s) (tokens m rest)
unfolding count_loop next_step tokens
map_rounds n t k s m rest below = ground (arith, below)

no_rounds :
    (n : ℕ) (t : TokenMark) (rest : List Token)
    → count_loop (suc n) t (tokens no_entries rest) ≡ some (counted t no_entries rest)
unfolding count_loop next_step tokens nodes bytes chain
no_rounds n t rest = ground arith

count_loop-tokens :
    (n : ℕ) (t : TokenMark) (m : Mapping) (rest : List Token)
    → token_count m ≤ n
    → count_loop n t (tokens m rest) ≡ some (counted t m rest)
unfolding token_count nodes bytes chain
count_loop-tokens (suc n) t no_entries rest h = no_rounds n t rest
count_loop-tokens (suc (suc (suc (suc n)))) t (text_entry k v m) rest h =
    text_rounds n t k v m rest
    ∙ (count_loop-tokens n (valued t k v) m rest (omega arith) ∙ ground arith)
count_loop-tokens (suc (suc (suc (suc n)))) t (map_entry k s m) rest h =
    map_rounds n t k s m rest
      (count_loop-tokens n new_token_mark s (tokens m rest) (omega arith) ∙ ground arith)
    ∙ (count_loop-tokens n (with_subnode (keyed t k) s) m rest (omega arith) ∙ ground arith)
count_loop-tokens zero t m rest h = absurd (omega (arith, token_count-pos m))
count_loop-tokens n t m rest h = absurd (omega arith)

-- A document that is a mapping. Only where it starts with `---` is there a token for the start.
abbrev pub document : Bool → Mapping → List Token → List Token
document true m rest =
    stream_start_token ∷ document_start_token ∷ block_mapping_start_token ∷ tokens m rest
document false m rest = stream_start_token ∷ block_mapping_start_token ∷ tokens m rest

start_rounds :
    (explicit : Bool) (m : Mapping) (rest : List Token)
    → count_this_level new_token_mark (document explicit m rest)
      ≡ count_loop (length (tokens m rest)) new_token_mark (tokens m rest)
unfolding count_this_level count_loop next_step
start_rounds true m rest = refl
start_rounds false m rest = refl

-- For a document, with or without `---`, that is a mapping in block style, of scalars to scalars and to
-- such mappings, the count succeeds with the status unchanged: the mark has the number of the keys of
-- the mapping itself and, as the count of OChars, the bytes up to a NUL of these keys and of the scalars
-- they map to, with their terminators; its chain of subnodes has the counts of the last mapping in
-- it, and so on down, and no other one's.
pub preflight_yaml-counts :
    (explicit : Bool) (m : Mapping) (rest : List Token)
    → preflight_yaml okay true true (document explicit m rest)
      ≡ some (okay, some (record { level = level_of m; subnodes = chain m [] }))
unfolding preflight_yaml is_okay
preflight_yaml-counts explicit m rest = ground (
  arith,
  start_rounds explicit m rest,
  count_loop-tokens (length (tokens m rest)) new_token_mark m rest
      (omega (arith, length-tokens m rest)),
)
