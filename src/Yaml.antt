-- ===== src/Yaml.antt =====
-- The reader of YAML, src/data_source/oly_yaml.c, whose printing is in Yaml/Print: the token marks, and the count
-- of the nodes and the OChars of a document before it is read. What yaml_parser_scan of libyaml gives
-- out is a list of tokens, and a scan that fails, where the program exits, is its end.
pub mod Returns
pub mod Counts
pub mod Print
mod Tests
use oly.Prelude.{
  ℕ, zero, suc, ◌+◌, Bool, true, false, Option, none, some, List, [], ◌∷◌, if◌then◌else◌, length,
  ◌==◌,
}
use oly.Status.{Status, is_okay, okay, err_file_not_found, err_libyaml_init}

-- The types of tokens that the code names. A text is the bytes of its UTF-8 form, which may have a NUL
-- among them; a tag has its handle and its suffix.
pub data Token : Type 0 where
  stream_start_token stream_end_token version_directive_token tag_directive_token
        document_start_token document_end_token block_sequence_start_token block_mapping_start_token
        block_end_token flow_sequence_start_token flow_sequence_end_token flow_mapping_start_token
        flow_mapping_end_token block_entry_token flow_entry_token key_token value_token :
      Token
  alias_token anchor_token : List ℕ → Token
  tag_token : List ℕ → List ℕ → Token
  scalar_token : List ℕ → Token

-- What C reads of a text: the bytes before the first NUL.
unfoldable pub c_string : List ℕ → List ℕ
c_string [] = []
c_string (c ∷ s) = let rest = c_string s in if c == 0 then [] else c ∷ rest

unfoldable pub strlen : List ℕ → ℕ
unfolding c_string
strlen s = length (c_string s)

-- A token mark without its subnode. The other flags are only ever cleared. The counts are taken to
-- stay within an int.
pub record Level : Type 0 where
  pub count_ochars : ℕ
  pub count_nodes : ℕ
  pub is_key_token : Bool
  pub is_value_token : Bool

-- A token mark, with the chain of subnodes from its subnode on.
pub record TokenMark : Type 0 where
  pub level : Level
  pub subnodes : List Level

abbrev pub zero_token_mark : Level → Level
zero_token_mark l = record l { is_key_token = false; is_value_token = false }

abbrev pub new_token_mark : TokenMark
new_token_mark = record {
  level = record {
    count_ochars = 0;
    count_nodes = 0;
    is_key_token = false;
    is_value_token = false;
  };
  subnodes = [];
}

-- What the switch does with a token: it goes on, counts a level below, or returns, which it does also
-- at the end of the stream.
pub data Next : Type 0 where
  go_on : Level → Next
  descend : Next
  return : Bool → Next

abbrev pub starts : Level → Next
starts l = if l.is_value_token then descend else go_on l

unfoldable pub next_step : Level → Token → Next
unfolding strlen
next_step l flow_mapping_start_token = starts l
next_step l block_mapping_start_token = starts l
next_step l block_entry_token = starts l
next_step l flow_entry_token = starts l
next_step l flow_sequence_end_token = return false
next_step l flow_mapping_end_token = return false
next_step l block_end_token = return false
next_step l stream_end_token = return true
next_step l key_token = go_on (record l { count_nodes = l.count_nodes + 1; is_key_token = true })
next_step l value_token = go_on (record l { is_value_token = true })
next_step l (scalar_token s) =
    go_on (zero_token_mark (record l { count_ochars = l.count_ochars + (strlen s + 1) }))
next_step l _ = go_on l

-- What a count leaves: the token mark, whether the last token ends the stream, and the tokens that are
-- not scanned yet.
pub record Counted : Type 0 where
  pub mark : TokenMark
  pub at_end : Bool
  pub rest : List Token

-- The loop, with the recursion, on the number of tokens that may be scanned: a level that is counted
-- below replaces the subnode, and where it took the last token, the loop ends.
unfoldable pub count_loop : ℕ → TokenMark → List Token → Option Counted
unfolding next_step
count_loop zero m ts = none
count_loop (suc n) m [] = none
count_loop (suc n) m (t ∷ ts) = elim (next_step m.level t) [
  | go_on l ↦ count_loop n (record m { level = l }) ts
  | return e ↦
      some (record { mark = record m { level = zero_token_mark m.level }; at_end = e; rest = ts })
  | descend ↦ elim (count_loop n new_token_mark ts) [
    | none ↦ none
    | some r ↦
        let below = record m { subnodes = r.mark.level ∷ r.mark.subnodes } in
        let above = count_loop n below r.rest in
        if r.at_end then some (record { mark = below; at_end = true; rest = r.rest }) else above
  ]
]

-- Every token is scanned once at most.
unfoldable pub count_this_level : TokenMark → List Token → Option Counted
unfolding count_loop
count_this_level m ts = count_loop (length ts) m ts

-- `preflight_yaml`, with the status, whether the file is opened and the parser initialised, and the
-- tokens. Without a file the status is set, and the third assertion of yaml_input_ofile fails.
unfoldable pub preflight_yaml :
    Status → Bool → Bool → List Token → Option (Status × Option TokenMark)
unfolding count_this_level
preflight_yaml s opened initialised ts =
    if is_okay s
    then (if initialised
        then (if opened
            then (elim (count_this_level new_token_mark ts) [
              | none ↦ none
              | some r ↦ some (s, some r.mark)
            ])
            else none)
        else some (err_libyaml_init, none))
    else some (s, none)
