-- ===== src/Status/Message/Index.antt =====
-- Where get_errmsg looks: each code at its own place in the order of the enum.
use oly.Prelude.{ℕ, ◌≡◌, refl, true, ◌||◌, Option, some, List, [], ◌∷◌, arith, get_elem?}
use oly.Prelude.Int.{ℤ, ltb_ℤ}
use oly.Status.{
  Status, value, status_min, status_max, warn_tag_not_match, warn_node_consumed, warn_node_produced,
  warn_boundary_reset, warn_long_string, warn_buffer_write_lock, warn_buffer_empty,
  warn_top_level_node, warn_node_has_no_key, warn_end_of_args, warn_ds_buffer_default,
  warn_show_version, warn_show_help, warn_dsopt_not_used, warn_reinit, warn_lib, warn_exit, okay,
  err_unknown, err_sys, err_lib, err_init, err_nomem, err_nopwd, err_nouser, err_fileio,
  err_readhex, err_hash, err_badarg, err_buffer_overflow, err_file_not_found,
  err_config_file_not_found, err_libyaml_init, err_nodes_too_deep, err_nodes_too_shallow,
  err_unknown_function_type, err_ds_option_conflict, err_ltdl_unknown, err_ltdl_err, err_yaml_parse,
  err_sqlite_init, err_sqlite, err_key_str_too_long, err_no_key_buffer, err_node_must_have_value,
  err_node_must_not_have_value, err_illegal_tag, err_no_object, err_no_reservation,
  err_string_buffer_state, err_node_queue_full, err_node_queue_empty, err_ds_eof,
  err_config_item_not_found, err_config_unknown,
}
use oly.Status.Message.{Lookup, message_index, get_errmsg}

-- The codes in the order of the enum, which is the order of the messages in the resource file.
abbrev pub statuses : List Status
statuses =
    warn_tag_not_match ∷ warn_node_consumed ∷ warn_node_produced ∷ warn_boundary_reset
    ∷ warn_long_string ∷ warn_buffer_write_lock ∷ warn_buffer_empty ∷ warn_top_level_node
    ∷ warn_node_has_no_key ∷ warn_end_of_args ∷ warn_ds_buffer_default ∷ warn_show_version
    ∷ warn_show_help ∷ warn_dsopt_not_used ∷ warn_reinit ∷ warn_lib ∷ warn_exit ∷ okay ∷ err_unknown
    ∷ err_sys ∷ err_lib ∷ err_init ∷ err_nomem ∷ err_nopwd ∷ err_nouser ∷ err_fileio ∷ err_readhex
    ∷ err_hash ∷ err_badarg ∷ err_buffer_overflow ∷ err_file_not_found ∷ err_config_file_not_found
    ∷ err_libyaml_init ∷ err_nodes_too_deep ∷ err_nodes_too_shallow ∷ err_unknown_function_type
    ∷ err_ds_option_conflict ∷ err_ltdl_unknown ∷ err_ltdl_err ∷ err_yaml_parse ∷ err_sqlite_init
    ∷ err_sqlite ∷ err_key_str_too_long ∷ err_no_key_buffer ∷ err_node_must_have_value
    ∷ err_node_must_not_have_value ∷ err_illegal_tag ∷ err_no_object ∷ err_no_reservation
    ∷ err_string_buffer_state ∷ err_node_queue_full ∷ err_node_queue_empty ∷ err_ds_eof
    ∷ err_config_item_not_found ∷ err_config_unknown ∷ []

get_elem?-message_index : (s : Status) → get_elem? statuses (message_index (value s)) ≡ some s
unfolding message_index value
get_elem?-message_index warn_tag_not_match = refl
get_elem?-message_index _ = refl

some_unique {ℓ} :
    {A : Type ℓ} (f : ℕ → Option A) (i j : ℕ) (a b : A)
    → f i ≡ some a
    → f j ≡ some b
    → i ≡ j
    → a ≡ b
some_unique f i j a b p q e = cc

-- No two codes share a message: the index that `get_errmsg` looks at tells the code.
message_index_injective : (s t : Status) → message_index (value s) ≡ message_index (value t) → s ≡ t
message_index_injective s t e =
    some_unique (get_elem? statuses) (message_index (value s)) (message_index (value t)) s t
      (get_elem?-message_index s) (get_elem?-message_index t) e

-- An int outside of the enum's range has the message of OLY_ERR_UNKNOWN.
get_errmsg_out_of_range {ℓ} :
    {Text : Type ℓ} (table : ℕ → Lookup Text) (n : ℤ)
    → (ltb_ℤ n status_min || ltb_ℤ status_max n) ≡ true
    → get_errmsg table n ≡ get_errmsg table (value err_unknown)
unfolding get_errmsg message_index value
get_errmsg_out_of_range table n h = ground arith
