-- ===== src/DataSource/Settings.antt =====
-- The options of a data source, its buffer size and its depth.
use oly.Prelude.{ℕ, ◌%◌, ◌≡◌, ◌<◌, ◌≤◌, ◌↔◌, ◌⊎◌, inl, inr, arith, none, some, List}
use native.Mathlib.Decide.{dec_lt, ℕ_discrete}
use oly.Status.{
  Status, okay, warn_ds_buffer_default, warn_dsopt_not_used, err_ds_option_conflict,
  err_nodes_too_deep,
}
use oly.Node.{max_node_depth, descend_one_level, ascend_one_level}
use oly.DataSource.Bits.{bit_and_zero, bit_and_one, bit_and_two, bit_or_one, int_width}
use oly.DataSource.{
  DataSource, file_name, connection_string, set_ds_option_required, set_data_option,
  get_data_option, get_max_buffer_size, set_max_buffer_size, ds_descend, ds_ascend,
}

module _ {P D : Type 0} where
  -- The file name, whose number is 0, can neither be set nor be read, whatever the settings are.
  set_data_option-file_name :
      (ds : DataSource P D) (v : List ℕ) (s : Status)
      → (set_data_option ds file_name v ≡ (warn_dsopt_not_used, ds))
        × (get_data_option ds file_name s ≡ (warn_dsopt_not_used, none))
  unfolding set_data_option get_data_option
  set_data_option-file_name ds v s = (
    ground (arith, bit_and_zero int_width ds.unused_settings),
    ground (arith, bit_and_zero int_width ds.unused_settings),
  )

  -- Where the lowest bit of the unused settings is set, the connection string is refused and the
  -- data source stays as it is; where it is clear, the string that is set is read back.
  get_data_option-set_data_option :
      (ds : DataSource P D) (v : List ℕ) (s : Status)
      → ((ds.unused_settings % 2 ≡ 1)
          × (set_data_option ds connection_string v ≡ (warn_dsopt_not_used, ds)))
        ⊎ ((ds.unused_settings % 2 ≡ 0)
            × ((set_data_option ds connection_string v).0 ≡ okay)
            × (get_data_option (set_data_option ds connection_string v).1 connection_string s
                ≡ (s, some v)))
  unfolding set_data_option get_data_option
  get_data_option-set_data_option ds v s = elim (ℕ_discrete (ds.unused_settings % 2) 0) [
    | yes clear ↦ inr (
      clear,
      ground (arith, clear, bit_and_one 31 ds.unused_settings),
      ground (arith, clear, bit_and_one 31 ds.unused_settings),
    )
    | no set ↦ inl (omega arith, ground (arith, set, bit_and_one 31 ds.unused_settings))
  ]

  -- To require the file name is a conflict exactly where the lowest bit of the unused settings is
  -- clear, as it is in a new data source, and otherwise marks nothing. To require the connection
  -- string is never a conflict, also where it is marked as unused, and sets the lowest bit of the
  -- required settings.
  set_ds_option_required_conflicts :
      (ds : DataSource P D)
      → (((set_ds_option_required ds file_name).0 ≡ err_ds_option_conflict)
          ↔ (ds.unused_settings % 2 ≡ 0))
        × ((set_ds_option_required ds connection_string).0 ≡ okay)
        × ((set_ds_option_required ds connection_string).1.required_settings % 2 ≡ 1)
  unfolding set_ds_option_required
  set_ds_option_required_conflicts ds = (
    ground (arith, bit_and_one 31 ds.unused_settings),
    ground (arith, bit_and_two 30 ds.unused_settings),
    ground (arith, bit_and_two 30 ds.unused_settings, bit_or_one 31 ds.required_settings),
  )

  -- With a positive BUFSIZ, the size that is read back is the one that was set, or BUFSIZ for 0,
  -- and the reading leaves the data source as it is.
  get_max_buffer_size-set_max_buffer_size :
      (bufsiz : ℕ) (ds : DataSource P D) (size : ℕ)
      → 0 < bufsiz
      → let d = (set_max_buffer_size bufsiz ds size).1 in
        ((size ≡ 0)
          × (d.status ≡ warn_ds_buffer_default)
          × (get_max_buffer_size bufsiz d ≡ (bufsiz, d)))
        ⊎ ((0 < size) × (d.status ≡ ds.status) × (get_max_buffer_size bufsiz d ≡ (size, d)))
  unfolding set_max_buffer_size get_max_buffer_size
  get_max_buffer_size-set_max_buffer_size bufsiz ds size pos = elim (ℕ_discrete size 0) [
    | yes none_given ↦ inl (none_given, ground (arith, none_given), ground (arith, none_given, pos))
    | no given ↦ inr (omega arith, ground arith, ground arith)
  ]

  -- A descent of the data source returns OLY_OKAY in any case. At the limit of 16 the node stays
  -- and only the data source's own status has the error; below it, an ascent brings the node back.
  ds_ascend-ds_descend :
      (ds : DataSource P D)
      → ((ds_descend ds).0 ≡ okay)
        × (((max_node_depth ≤ ds.node.depth)
              × ((ds_descend ds).1 ≡ record ds { status = err_nodes_too_deep }))
            ⊎ ((ds.node.depth < max_node_depth)
                × (ds_ascend (ds_descend ds).1 ≡ (okay, record ds { status = okay }))))
  unfolding ds_descend ds_ascend descend_one_level ascend_one_level
  ds_ascend-ds_descend ds = (
    ground arith,
    elim (dec_lt ds.node.depth max_node_depth) [
      | yes lt ↦ inr (lt, ground arith)
      | no ge ↦ inl (omega arith, ground arith)
    ],
  )
