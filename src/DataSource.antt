-- ===== src/DataSource.antt =====
-- The data source of src/data_source/data_source.c; the node that it builds from a value
-- (enqueue_ds_node) is in DataSource/Produce. A `char *` is `none` for NULL, or its characters before
-- the terminator; other pointers are addresses. The two scalar buffers, of which enqueue_ds_node
-- uses one for the place that get_ochar_out reports, are left out.
pub mod Bits
pub mod Settings
pub mod Staging
pub mod Produce
mod Tests
use oly.Prelude.{
  ℕ, zero, suc, ◌+◌, ◌-◌, ◌^◌, Bool, true, false, ◌||◌, Option, none, some, List, [], ◌∷◌, ltb, leb,
  ◌==◌, if◌then◌else◌, Memory, length, get_or,
}
use oly.Prelude.Int.{ℤ, pos}
use oly.Status.{
  Status, is_okay, okay, warn_ds_buffer_default, warn_dsopt_not_used, err_badarg,
  err_ds_option_conflict, err_key_str_too_long, err_no_key_buffer, err_no_object,
}
use oly.Node.{Node, new_oly_node, descend_one_level, ascend_one_level}
use oly.DataSource.Bits.{bit_and, bit_or, int_width}

pub data DataSourceOption : Type 0 where
  file_name connection_string : DataSourceOption

pub data Direction : Type 0 where
  ds_in ds_out : Direction

-- The number of an option; each is smaller than the 64 bits of a long.
abbrev pub option_value : DataSourceOption → ℕ
option_value file_name = 0
option_value connection_string = 1

abbrev pub same_option : DataSourceOption → DataSourceOption → Bool
same_option file_name file_name = true
same_option connection_string connection_string = true
same_option _ _ = false

abbrev pub ds_type_max : ℕ
ds_type_max = 2

abbrev pub CharString : Type 0
CharString = Option (List ℕ)

pub record DataSource (P D : Type 0) : Type 0 where
  pub direction : Direction
  pub ds_type : ℕ
  pub status : Status
  pub required_settings : ℕ
  pub unused_settings : ℕ
  pub locale : CharString
  pub encoding : CharString
  pub filename : CharString
  pub options : DataSourceOption → CharString
  pub max_buffer_size : ℕ
  pub key_staging : Memory
  pub key_stage_max_length : ℕ
  pub sequence : ℤ
  pub boundary : Option ℕ
  pub node : Node P D
  pub data_at : Option ℕ

-- `strncpy`: the characters and then zeros, `n` cells in all.
unfoldable pub strncpy : Memory → List ℕ → ℕ → Memory
strncpy m s n j = if ltb j n then get_or s j 0 else m j

-- Whether `(settings & (unsigned int)pow(2, option)) == option`.
abbrev pub names_option : ℕ → DataSourceOption → Bool
names_option settings o = bit_and int_width settings (2 ^ option_value o) == option_value o

-- The length that `stage_node_key` uses for a key.
abbrev pub key_length : List ℕ → ℕ → ℕ
key_length s n = if n == 0 then length s else n

module _ {P D : Type 0} where
  -- NULL is no object.
  unfoldable pub get_data_source_status : Option (DataSource P D) → Status
  get_data_source_status none = err_no_object
  get_data_source_status (some ds) = ds.status

  unfoldable pub set_ds_option_required :
      DataSource P D → DataSourceOption → Status × DataSource P D
  set_ds_option_required ds o =
      if ltb 64 (option_value o) || names_option ds.unused_settings o
      then (err_ds_option_conflict, ds)
      else (
        okay,
        record ds { required_settings = bit_or int_width ds.required_settings (option_value o) },
      )

  unfoldable pub set_ds_option_unused : DataSource P D → DataSourceOption → Status × DataSource P D
  set_ds_option_unused ds o =
      if ltb 64 (option_value o) || names_option ds.required_settings o
      then (err_ds_option_conflict, ds)
      else (
        okay,
        record ds { unused_settings = bit_or int_width ds.unused_settings (option_value o) },
      )

  -- Whether `(unused_settings & option) == option`.
  abbrev pub is_unused : DataSource P D → DataSourceOption → Bool
  is_unused ds o = bit_and int_width ds.unused_settings (option_value o) == option_value o

  unfoldable pub set_data_option :
      DataSource P D → DataSourceOption → List ℕ → Status × DataSource P D
  set_data_option ds o v =
      if is_unused ds o
      then (warn_dsopt_not_used, ds)
      else (okay, record ds { options = λ p. if same_option p o then some v else ds.options p })

  -- The third argument is what `*status` was.
  unfoldable pub get_data_option : DataSource P D → DataSourceOption → Status → Status × CharString
  get_data_option ds o s = if is_unused ds o then (warn_dsopt_not_used, none) else (s, ds.options o)

  -- `bufsiz` is BUFSIZ of stdio.h. The status of the data source is changed on the default only.
  unfoldable pub get_max_buffer_size : ℕ → DataSource P D → ℕ × DataSource P D
  get_max_buffer_size bufsiz ds =
      if ds.max_buffer_size == 0
      then (bufsiz, record ds { status = warn_ds_buffer_default })
      else (ds.max_buffer_size, ds)

  abbrev buffer_size_set : ℕ → DataSource P D → ℕ → DataSource P D
  buffer_size_set bufsiz ds size =
      if size == 0
      then record ds { status = warn_ds_buffer_default; max_buffer_size = bufsiz }
      else record ds { max_buffer_size = size }

  unfoldable pub set_max_buffer_size : ℕ → DataSource P D → ℕ → Status × DataSource P D
  set_max_buffer_size bufsiz ds size =
      ((buffer_size_set bufsiz ds size).status, buffer_size_set bufsiz ds size)

  -- `key_size` is MAX_KEY_LENGTH. The cells of `ocalloc` are zero, also those that are not set.
  abbrev pub fresh : ℕ → ℕ → ℕ → DataSource P D
  fresh bufsiz key_size ds_type = record {
    direction = ds_in;
    ds_type = ds_type;
    status = okay;
    required_settings = 0;
    unused_settings = 0;
    locale = none;
    encoding = none;
    filename = none;
    options = λ o. none;
    max_buffer_size = bufsiz;
    key_staging = λ j. 0;
    key_stage_max_length = key_size - 1;
    sequence = pos 0;
    boundary = none;
    node = new_oly_node;
    data_at = none;
  }

  -- The last argument is what `*status` was.
  unfoldable pub new_data_source : ℕ → ℕ → ℕ → Status → Status × Option (DataSource P D)
  new_data_source bufsiz key_size ds_type s =
      if is_okay s
      then (if ltb ds_type_max ds_type
          then (err_badarg, none)
          else (okay, some (fresh bufsiz key_size ds_type)))
      else (s, none)

  unfoldable pub set_data_source_direction : DataSource P D → Direction → DataSource P D
  set_data_source_direction ds d = record ds { direction = d }

  unfoldable pub set_data_locale : DataSource P D → CharString → DataSource P D
  set_data_locale ds s = record ds { locale = s }

  unfoldable pub set_data_encoding : DataSource P D → CharString → DataSource P D
  set_data_encoding ds s = record ds { encoding = s }

  unfoldable pub get_data_locale : DataSource P D → CharString
  get_data_locale ds = ds.locale

  unfoldable pub get_data_encoding : DataSource P D → CharString
  get_data_encoding ds = ds.encoding

  unfoldable pub get_data_source_direction : DataSource P D → Status × Direction
  get_data_source_direction ds = (okay, ds.direction)

  unfoldable pub get_ds_data : DataSource P D → Option ℕ
  get_ds_data ds = ds.data_at

  unfoldable pub set_data_filename : DataSource P D → CharString → DataSource P D
  set_data_filename ds s = record ds { filename = s }

  -- The copy of the key, `n` characters and one more; `none` is a write behind the `key_staging`
  -- that was allocated.
  abbrev pub copy_key : DataSource P D → List ℕ → ℕ → Option (Status × DataSource P D)
  copy_key ds s n =
      if ltb ds.key_stage_max_length n
      then none
      else some (ds.status, record ds { key_staging = strncpy ds.key_staging s (n + 1) })

  abbrev pub too_long : DataSource P D → ℕ → DataSource P D
  too_long ds n =
      if leb ds.key_stage_max_length n then record ds { status = err_key_str_too_long } else ds

  -- `none` is an access that C leaves undefined: a read of the NULL key, or the write above. A
  -- length that is too long is noted, and the copy is made all the same.
  unfoldable pub stage_node_key : DataSource P D → CharString → ℕ → Option (Status × DataSource P D)
  stage_node_key ds none n = if (n == 0) || is_okay ds.status then none else some (ds.status, ds)
  stage_node_key ds (some s) n =
      if is_okay ds.status
      then copy_key (too_long ds (key_length s n)) s (key_length s n)
      else some (ds.status, ds)

  unfoldable pub reset_ds_status : DataSource P D → DataSource P D
  reset_ds_status ds = record ds { status = okay }

  unfoldable pub get_boundary : DataSource P D → DataSource P D × Option ℕ
  get_boundary ds = (record ds { status = okay }, ds.boundary)

  unfoldable pub collect_nodes : DataSource P D → Node P D
  collect_nodes ds = ds.node

  unfoldable pub dispense_nodes : DataSource P D → Node P D → DataSource P D
  dispense_nodes ds n = record ds { node = n }

  unfoldable pub dequeue_ds_node : DataSource P D → Status × Node P D
  dequeue_ds_node ds = (ds.status, ds.node)

  unfoldable pub set_ds_data : DataSource P D → Option ℕ → Status × DataSource P D
  set_ds_data ds none = (err_no_object, record ds { data_at = none })
  set_ds_data ds (some p) = (okay, record ds { data_at = some p })

  -- The status of the step goes to the data source, and OLY_OKAY is returned.
  unfoldable pub ds_descend : DataSource P D → Status × DataSource P D
  ds_descend ds =
      let (s, n) = descend_one_level ds.node in (okay, record ds { status = s; node = n })

  -- The status of the step is returned, and that of the data source stays.
  unfoldable pub ds_ascend : DataSource P D → Status × DataSource P D
  ds_ascend ds = let (s, n) = ascend_one_level ds.node in (s, record ds { node = n })
