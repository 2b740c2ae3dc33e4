-- ===== src/Yaml/Print/Layout.antt =====
-- What print_yaml writes of nested mappings.
use oly.Prelude.{◌≡◌, refl, ap, ◌∙◌, ℕ, Bool, true, false, some, List, [], ◌∷◌}
use oly.Status.{okay, is_okay}
use oly.Yaml.{
  Token, c_string, Level, zero_token_mark, new_token_mark, stream_start_token, stream_end_token,
  document_start_token, block_end_token,
}
use oly.Yaml.Counts.{Mapping, no_entries, text_entry, map_entry, tokens, document}
use oly.Yaml.Print.{
  TokenPiece, banner, mapping_banner, key_text, text_line, Shown, at_end, print_token, print_loop,
  print_yaml,
}

-- The lines of a mapping: a key before its text, or before its mapping, which starts behind a line
-- break; and its end.
abbrev pub layout : Mapping → List TokenPiece → List TokenPiece
layout no_entries ps = banner block_end_token ∷ ps
layout (text_entry k v m) ps = key_text (c_string k) ∷ text_line (c_string v) ∷ layout m ps
layout (map_entry k s m) ps = key_text (c_string k) ∷ mapping_banner true ∷ layout s (layout m ps)

-- The flags before the value of a key.
abbrev valued : Level → Level
valued l = record l { is_key_token = false; is_value_token = true }

-- The flags behind the tokens of a mapping.
abbrev after : Mapping → Level → Level
after no_entries l = l
after (text_entry k v m) l = after m (zero_token_mark l)
after (map_entry k s m) l = after m (after s (valued l))

abbrev shown : Mapping → Shown → Shown
shown m r = (layout m r.0, r.1)

print_loop-tokens :
    (bufsiz : ℕ) (m : Mapping) (l : Level) (ts : List Token)
    → print_loop bufsiz l (tokens m ts) ≡ shown m (print_loop bufsiz (after m l) ts)
unfolding print_loop print_token tokens
print_loop-tokens bufsiz no_entries l ts = refl
print_loop-tokens bufsiz (text_entry k v m) l ts =
    ap (λ r. (key_text (c_string k) ∷ text_line (c_string v) ∷ r.0, r.1))
      (print_loop-tokens bufsiz m (zero_token_mark l) ts)
print_loop-tokens bufsiz (map_entry k s m) l ts =
    ap (λ r. (key_text (c_string k) ∷ mapping_banner true ∷ r.0, r.1))
      (print_loop-tokens bufsiz s (valued l) (tokens m ts)
        ∙ ap (shown s) (print_loop-tokens bufsiz m (after s (valued l)) ts))

abbrev pub start_banners : Bool → List TokenPiece → List TokenPiece
start_banners true ps = banner stream_start_token ∷ banner document_start_token ∷ ps
start_banners false ps = banner stream_start_token ∷ ps

-- Of a document, with or without `---`, that is a block mapping of scalars and of such mappings to any
-- depth, without anchors, aliases and tags, print_yaml with a status of OLY_OKAY, a file and a parser
-- returns OLY_OKAY and writes, between the banners of the document, every key before its value, in
-- the order of the document, each up to a NUL in it.
pub print_yaml-layout :
    (bufsiz : ℕ) (explicit : Bool) (m : Mapping)
    → print_yaml bufsiz okay true true (document explicit m (stream_end_token ∷ []))
      ≡ some (
        okay,
        (
          start_banners explicit (mapping_banner false ∷ layout m (banner stream_end_token ∷ [])),
          at_end,
        ),
      )
unfolding print_yaml print_loop print_token is_okay
print_yaml-layout bufsiz true m =
    ap (λ r. some (okay, (start_banners true (mapping_banner false ∷ r.0), r.1)))
      (print_loop-tokens bufsiz m new_token_mark.level (stream_end_token ∷ []))
print_yaml-layout bufsiz false m =
    ap (λ r. some (okay, (start_banners false (mapping_banner false ∷ r.0), r.1)))
      (print_loop-tokens bufsiz m new_token_mark.level (stream_end_token ∷ []))
