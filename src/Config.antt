-- ===== src/Config.antt =====
-- The configuration of src/core/config.c. BUFSIZ, the conversion of u_strFromUTF8 into BUFSIZ OChars,
-- the names in the resource file, the directories that strtok_r makes of SYSCONFDIR, and the files that
-- can be opened, with the events of libyaml in each, are parameters. Where the program exits, and where it
-- writes behind `filename`, the result is `none`.
pub mod Find
pub mod Load
pub mod Main
mod Tests
use oly.Prelude.{
  ℕ, zero, suc, ◌+◌, ◌-◌, ◌*◌, ◌/◌, Bool, true, false, ◌&&◌, ◌||◌, Option, none, some, List, [],
  ◌∷◌, ◌==◌, ltb, if◌then◌else◌, length,
}
use oly.Status.{
  Status, is_okay, okay, warn_reinit, err_buffer_overflow, err_config_file_not_found,
  err_config_unknown, err_libyaml_init,
}
use oly.Tag.{TagType, NodeValue, string_value, type_unset, scalar_uint}

-- OLY_CONFIG_MAIN_UNSET: the items are numbered from 0.
abbrev pub main_unset : ℕ
main_unset = 3

pub record Config (P D : Type 0) : Type 0 where
  pub value : NodeValue P D
  pub min : ℕ
  pub type : TagType

-- The types of events that the code names; a scalar has its characters.
pub data Event : Type 0 where
  stream_start_event stream_end_event document_start_event document_end_event sequence_start_event
        sequence_end_event mapping_start_event mapping_end_event alias_event no_event :
      Event
  scalar_event : List ℕ → Event

abbrev pub null_value : {P D : Type 0} → NodeValue P D
null_value = record { value = string_value none; type = type_unset }

-- oly_main_default, for the items below OLY_CONFIG_MAIN_UNSET.
abbrev pub oly_main_default : {P D : Type 0} → ℕ → ℕ → Config P D
oly_main_default bufsiz zero = record { value = null_value; min = bufsiz; type = scalar_uint }
oly_main_default bufsiz (suc zero) = record {
  value = null_value;
  min = bufsiz * 2;
  type = scalar_uint;
}
oly_main_default bufsiz _ = record { value = null_value; min = bufsiz / 2; type = scalar_uint }

-- The tag of the value is left as it is.
unfoldable pub open_config_item : {P D : Type 0} → Config P D → Config P D
open_config_item c = record {
  value = record (c.value) { value = string_value none };
  min = 0;
  type = type_unset;
}

unfoldable pub close_config_item : {P D : Type 0} → Config P D → Config P D
close_config_item c = record c { value = record (c.value) { value = string_value none }; min = 0 }

unfoldable pub get_config_tag_type : ℕ → ℕ → Status × TagType
get_config_tag_type bufsiz item = (okay, (oly_main_default {P = ℕ} {D = ℕ} bufsiz item).type)

-- `config_item[i].value = oly_main_default[i].value`
unfoldable pub set_config_item :
    {P D : Type 0} → ℕ → (ℕ → Config P D) → ℕ → Status × (ℕ → Config P D)
set_config_item bufsiz c item = (
  okay,
  λ j. if j == item then record (c item) { value = (oly_main_default bufsiz item).value } else c j,
)

unfoldable pub copy_config_item : {P D : Type 0} → Config P D → Config P D → Status × Config P D
copy_config_item dest source = (okay, dest)

unfoldable pub get_int_config : ℕ → ℕ → Status × ℕ
get_int_config bufsiz item = (okay, bufsiz)

-- The static pointer `config`, which is filled from `oly->config` while it is NULL, and what it is
-- behind the call.
unfoldable pub get_main_config_int : ℕ → Option ℕ → Option ℕ → ℕ → (Status × ℕ) × Option ℕ
unfolding get_int_config
get_main_config_int bufsiz none global item = (get_int_config bufsiz item, global)
get_main_config_int bufsiz (some a) global item = (get_int_config bufsiz item, some a)

-- `u_strcmp(a, b) == 0`
unfoldable pub same_text : List ℕ → List ℕ → Bool
same_text [] [] = true
same_text (x ∷ xs) (y ∷ ys) = (x == y) && same_text xs ys
same_text _ _ = false

-- The loop of find_config_item, with `n` rounds left.
unfoldable pub find_loop : (ℕ → Option (List ℕ)) → List ℕ → ℕ → ℕ → Option (Status × ℕ)
unfolding same_text
find_loop names s i zero = some (err_config_unknown, i)
find_loop names s i (suc n) =
    let rest = find_loop names s (i + 1) n in
    elim (names i) [ none ↦ none | some t ↦ if same_text s t then some (okay, i) else rest ]

unfoldable pub find_config_item :
    (List ℕ → Option (List ℕ)) → (ℕ → Option (List ℕ)) → List ℕ → Option (Status × ℕ)
unfolding find_loop
find_config_item convert names key = elim (convert key) [
  | none ↦ none
  | some s ↦ find_loop names s 0 main_unset
]

abbrev pub is_unset : TagType → Bool
is_unset type_unset = true
is_unset _ = false

abbrev pub with_item : {P D : Type 0} → (ℕ → Config P D) → ℕ → Config P D → ℕ → Config P D
with_item config i c j = if j == i then c else config j

abbrev pub is_unknown : Status → Bool
is_unknown err_config_unknown = true
is_unknown _ = false

abbrev pub is_not_found : Status → Bool
is_not_found err_config_file_not_found = true
is_not_found _ = false

module _ {P D : Type 0} (convert : List ℕ → Option (List ℕ)) (names : ℕ → Option (List ℕ)) where
  -- The loop of load_config_file on the events, with the item and the status. The items themselves do not
  -- change: what would set them is a comment.
  unfoldable pub load_loop : (ℕ → Config P D) → ℕ → Status → List Event → Option Status
  unfolding find_config_item
  load_loop config item s [] = none
  load_loop config item s (stream_end_event ∷ es) = some s
  load_loop config item s (sequence_start_event ∷ es) = load_loop config item okay es
  load_loop config item s (sequence_end_event ∷ es) = load_loop config item okay es
  load_loop config item s (mapping_start_event ∷ es) = load_loop config item okay es
  load_loop config item s (mapping_end_event ∷ es) = load_loop config item okay es
  load_loop config item s (scalar_event key ∷ es) =
      if item == main_unset
      then (elim (find_config_item convert names key) [
        | none ↦ none
        | some (t, j) ↦
            let u = if is_unknown t then okay else t in
            let rest = load_loop config j u es in if is_okay u then rest else some u
      ])
      else load_loop config main_unset (if is_unset (config item).type then okay else s) es
  load_loop config item s (e ∷ es) = load_loop config item s es

  -- A file: whether the parser is initialised, and its events.
  unfoldable pub load_config_file : (ℕ → Config P D) → Bool × List Event → Option Status
  unfolding load_loop
  load_config_file config (initialised, es) =
      if initialised then load_loop config main_unset okay es else some err_libyaml_init

-- The loop of load_main_defaults, with `n` rounds left.
unfoldable pub defaults_loop :
    {P D : Type 0} → ℕ → (ℕ → Config P D) → ℕ → ℕ → Status × (ℕ → Config P D)
unfolding copy_config_item
defaults_loop bufsiz config i zero = (okay, config)
defaults_loop bufsiz config i (suc n) =
    let copied =
      if is_unset (config i).type
      then copy_config_item (config i) (oly_main_default bufsiz i)
      else (okay, config i) in
    let rest = defaults_loop bufsiz (with_item config i copied.1) (i + 1) n in
    if is_okay copied.0 then rest else (copied.0, with_item config i copied.1)

unfoldable pub load_main_defaults :
    {P D : Type 0} → ℕ → (ℕ → Config P D) → Status × (ℕ → Config P D)
unfolding defaults_loop
load_main_defaults bufsiz config = defaults_loop bufsiz config 0 main_unset
