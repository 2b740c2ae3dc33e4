-- ===== src/Yaml/Print.antt =====
-- print_yaml and load_yaml of src/data_source/oly_yaml.c, which show the tokens and the events of
-- a file. What is written is a list of pieces, one for each call that prints; the texts and colours that a
-- type of token always has are left to the type.
pub mod Layout
mod Tests
use oly.Prelude.{
  ◌+◌, ◌-◌, ◌*◌, ◌/◌, ◌%◌, ◌^◌, ◌≤◌, ◌<◌, arith, ℕ, Bool, true, false, Option, none, some, List, [],
  ◌∷◌, ◌++◌, if◌then◌else◌, ltb,
}
use oly.Status.{Status, is_okay, okay, err_libyaml_init}
use oly.Yaml.{
  Token, c_string, strlen, alias_token, anchor_token, tag_token, Level, TokenMark, zero_token_mark,
  new_token_mark, stream_end_token, block_mapping_start_token, key_token, value_token, scalar_token,
}

-- The start of a block mapping has a line break before it behind a value token. A scalar is written
-- as a key, with " : " behind it, or as a line. The texts are those that C reads.
pub data TokenPiece : Type 0 where
  banner : Token → TokenPiece
  mapping_banner : Bool → TokenPiece
  alias_line : List ℕ → TokenPiece
  anchor_line : List ℕ → TokenPiece
  tag_line : List ℕ → List ℕ → TokenPiece
  key_text : List ℕ → TokenPiece
  text_line : List ℕ → TokenPiece

-- "\n[Anchor Token] %s\n" and "\n[Tag Token] handle: %s, suffix: %s\n" without their texts.
abbrev pub anchor_label : ℕ
anchor_label = 17

abbrev pub tag_label : ℕ
tag_label = 32

-- `sprintf` of so many characters to `ultrabuffer`, which has `bufsiz`; `none` writes behind it.
abbrev pub through_buffer : ℕ → ℕ → TokenPiece → Level → Option (List TokenPiece × Level)
through_buffer bufsiz n piece l = if ltb n bufsiz then some (piece ∷ [], l) else none

-- The switch of `print_yaml`.
unfoldable pub print_token : ℕ → Level → Token → Option (List TokenPiece × Level)
unfolding c_string strlen
print_token bufsiz l block_mapping_start_token = some (mapping_banner l.is_value_token ∷ [], l)
print_token bufsiz l key_token = some ([], record l { is_key_token = true })
print_token bufsiz l value_token = some ([], record l { is_value_token = true })
print_token bufsiz l (alias_token s) =
    through_buffer bufsiz (strlen s + 1) (alias_line (c_string s)) l
print_token bufsiz l (anchor_token s) =
    through_buffer bufsiz (anchor_label + strlen s) (anchor_line (c_string s)) l
print_token bufsiz l (tag_token handle suffix) =
    through_buffer bufsiz (tag_label + strlen handle + strlen suffix)
      (tag_line (c_string handle) (c_string suffix)) l
print_token bufsiz l (scalar_token s) = some (
  (if l.is_key_token then key_text (c_string s) else text_line (c_string s)) ∷ [],
  zero_token_mark l,
)
print_token bufsiz l t = some (banner t ∷ [], l)

-- How the loop ends: at the end of the stream, with a scan that failed, where the program leaves, or
-- with a write behind `ultrabuffer`.
pub data Ending : Type 0 where
  at_end scan_failed overrun : Ending

-- The pieces, and how the loop ends.
abbrev pub Shown : Type 0
Shown = List TokenPiece × Ending

abbrev pub before : List TokenPiece → Shown → Shown
before ps s = (ps ++ s.0, s.1)

abbrev pub ends_stream : Token → Bool
ends_stream stream_end_token = true
ends_stream _ = false

unfoldable pub print_loop : ℕ → Level → List Token → Shown
unfolding print_token
print_loop bufsiz l [] = ([], scan_failed)
print_loop bufsiz l (t ∷ ts) = elim (print_token bufsiz l t) [
  | none ↦ ([], overrun)
  | some (ps, k) ↦
      let rest = print_loop bufsiz k ts in if ends_stream t then (ps, at_end) else before ps rest
]

-- With the size of `ultrabuffer`, the status, whether the file is opened and the parser initialised,
-- and the tokens; `none` is the assertion of yaml_input_ofile, which fails without a file. Where the
-- loop is not entered it ends like a scan without a token.
unfoldable pub print_yaml : ℕ → Status → Bool → Bool → List Token → Option (Status × Shown)
unfolding print_loop
print_yaml bufsiz s opened initialised ts =
    if is_okay s
    then (if initialised
        then (if opened then some (s, print_loop bufsiz new_token_mark.level ts) else none)
        else some (err_libyaml_init, ([], scan_failed)))
    else some (s, ([], scan_failed))

-- The types of the events of libyaml; a scalar and an alias have their text.
pub data YamlEvent : Type 0 where
  no_event stream_start_event stream_end_event document_start_event document_end_event
        sequence_start_event sequence_end_event mapping_start_event mapping_end_event :
      YamlEvent
  alias_event scalar_event : List ℕ → YamlEvent

-- The loop of `load_yaml`, which prints a line for each event up to the end of the stream.
unfoldable pub event_loop : List YamlEvent → List YamlEvent × Bool
event_loop [] = ([], false)
event_loop (stream_end_event ∷ es) = (stream_end_event ∷ [], true)
event_loop (e ∷ es) = let rest = event_loop es in (e ∷ rest.0, rest.1)

unfoldable pub load_yaml :
    Status → Bool → Bool → List YamlEvent → Option (Status × (List YamlEvent × Bool))
unfolding event_loop
load_yaml s opened initialised es =
    if is_okay s
    then (if initialised
        then (if opened then some (s, event_loop es) else none)
        else some (err_libyaml_init, ([], false)))
    else some (s, ([], false))

-- "Node count/OChar count: %i/%i", behind two spaces for each level.
pub record CountLine : Type 0 where
  pub indent : ℕ
  pub count_nodes : ℕ
  pub count_ochars : ℕ

abbrev pub count_line : ℕ → Level → CountLine
count_line level l = record {
  indent = 2 * level;
  count_nodes = l.count_nodes;
  count_ochars = l.count_ochars;
}

-- The calls for the subnodes.
abbrev pub count_lines : ℕ → List Level → List CountLine
count_lines level [] = []
count_lines level (l ∷ ls) = count_line level l ∷ count_lines (level + 1) ls

unfoldable pub print_preflight_count : TokenMark → ℕ → List CountLine
print_preflight_count m level = count_line level m.level ∷ count_lines (level + 1) m.subnodes

-- `read n` is the number of OChars that u_file_read gives when asked for `n`, an int32_t by its bits;
-- the result is 1, and the number of bytes goes to `size_read`. The file is not NULL.
unfoldable pub ofile_read_handler : (ℕ → ℕ) → ℕ → ℕ × ℕ
ofile_read_handler read size = (1, read ((size / 2 + (2 ^ 64 - 1)) % 2 ^ 64 % 2 ^ 32) * 2)

-- The handler asks for one OChar fewer than fit, so that what it reports leaves room for one.
ofile_read_handler_lem :
    (read : ℕ → ℕ)
    → ((n : ℕ) → read n ≤ n)
    → (size : ℕ) → 2 ≤ size
    → size < 2 ^ 32
    → (ofile_read_handler read size).1 + 2 ≤ size
unfolding ofile_read_handler
ofile_read_handler_lem read fits size some_room small =
    omega (arith, fits ((size / 2 + (2 ^ 64 - 1)) % 2 ^ 64 % 2 ^ 32))
