-- ===== src/Status.antt =====
-- OlyStatus of src/oly/olytypes.h: the return codes of every operation. Negative codes are
-- warnings, positive ones errors. OLY_STATUS_MIN, OLY_STATUS_OFFSET and OLY_STATUS_MAX are the
-- three bounds that the enum declares beside its members.
pub mod Message
pub mod Ltdl
use oly.Prelude.{ℕ, Bool, true, false, Option, none, some, ◌+◌}
use oly.Prelude.Int.{ℤ, pos, negsuc}

pub data Status : Type 0 where
  warn_tag_not_match warn_node_consumed warn_node_produced warn_boundary_reset warn_long_string :
      Status
  warn_buffer_write_lock warn_buffer_empty warn_top_level_node warn_node_has_no_key
        warn_end_of_args :
      Status
  warn_ds_buffer_default warn_show_version warn_show_help warn_dsopt_not_used warn_reinit : Status
  warn_lib warn_exit okay err_unknown err_sys : Status
  err_lib err_init err_nomem err_nopwd err_nouser : Status
  err_fileio err_readhex err_hash err_badarg err_buffer_overflow : Status
  err_file_not_found err_config_file_not_found err_libyaml_init err_nodes_too_deep
        err_nodes_too_shallow :
      Status
  err_unknown_function_type err_ds_option_conflict err_ltdl_unknown err_ltdl_err err_yaml_parse :
      Status
  err_sqlite_init err_sqlite err_key_str_too_long err_no_key_buffer err_node_must_have_value :
      Status
  err_node_must_not_have_value err_illegal_tag err_no_object err_no_reservation
        err_string_buffer_state :
      Status
  err_node_queue_full err_node_queue_empty err_ds_eof err_config_item_not_found err_config_unknown :
      Status

-- The value that the enum gives each member.
unfoldable pub value : Status → ℤ
value warn_tag_not_match = negsuc 16
value warn_node_consumed = negsuc 15
value warn_node_produced = negsuc 14
value warn_boundary_reset = negsuc 13
value warn_long_string = negsuc 12
value warn_buffer_write_lock = negsuc 11
value warn_buffer_empty = negsuc 10
value warn_top_level_node = negsuc 9
value warn_node_has_no_key = negsuc 8
value warn_end_of_args = negsuc 7
value warn_ds_buffer_default = negsuc 6
value warn_show_version = negsuc 5
value warn_show_help = negsuc 4
value warn_dsopt_not_used = negsuc 3
value warn_reinit = negsuc 2
value warn_lib = negsuc 1
value warn_exit = negsuc 0
value okay = pos 0
value err_unknown = pos 1
value err_sys = pos 2
value err_lib = pos 3
value err_init = pos 4
value err_nomem = pos 5
value err_nopwd = pos 6
value err_nouser = pos 7
value err_fileio = pos 8
value err_readhex = pos 9
value err_hash = pos 10
value err_badarg = pos 11
value err_buffer_overflow = pos 12
value err_file_not_found = pos 13
value err_config_file_not_found = pos 14
value err_libyaml_init = pos 15
value err_nodes_too_deep = pos 16
value err_nodes_too_shallow = pos 17
value err_unknown_function_type = pos 18
value err_ds_option_conflict = pos 19
value err_ltdl_unknown = pos 20
value err_ltdl_err = pos 21
value err_yaml_parse = pos 22
value err_sqlite_init = pos 23
value err_sqlite = pos 24
value err_key_str_too_long = pos 25
value err_no_key_buffer = pos 26
value err_node_must_have_value = pos 27
value err_node_must_not_have_value = pos 28
value err_illegal_tag = pos 29
value err_no_object = pos 30
value err_no_reservation = pos 31
value err_string_buffer_state = pos 32
value err_node_queue_full = pos 33
value err_node_queue_empty = pos 34
value err_ds_eof = pos 35
value err_config_item_not_found = pos 36
value err_config_unknown = pos 37

abbrev pub status_min : ℤ
status_min = negsuc 16

abbrev pub status_offset : ℕ
status_offset = 17

abbrev pub status_max : ℤ
status_max = pos 37

-- `status == OLY_OKAY`
unfoldable pub is_okay : Status → Bool
is_okay okay = true
is_okay _ = false

unfoldable pub is_overflow : Status → Bool
is_overflow err_buffer_overflow = true
is_overflow _ = false
