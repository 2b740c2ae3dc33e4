-- ===== src/Tag.antt =====
-- The tags of src/node/tag.c and src/oly/tag.h: the basic types that a scalar may have.
pub mod Regexps
pub mod Icu
pub mod Check
pub mod Import
pub mod Basic
pub mod Infer
pub mod Agree
pub mod Typed
mod Tests
use oly.Prelude.{ℕ, Option, none, Bool, true, false}
use oly.Prelude.Int.{ℤ}

pub data TagType : Type 0 where
  scalar_null scalar_bool scalar_int scalar_uint scalar_float : TagType
  scalar_plus_infinity scalar_minus_infinity scalar_not_a_number scalar_string : TagType
  alias file_text file_binary complex_map complex_sequence type_unset : TagType

-- The value that the enum gives each member; OLY_TAG_MAX is the number behind the last.
unfoldable pub tag_value : TagType → ℕ
tag_value scalar_null = 0
tag_value scalar_bool = 1
tag_value scalar_int = 2
tag_value scalar_uint = 3
tag_value scalar_float = 4
tag_value scalar_plus_infinity = 5
tag_value scalar_minus_infinity = 6
tag_value scalar_not_a_number = 7
tag_value scalar_string = 8
tag_value alias = 9
tag_value file_text = 10
tag_value file_binary = 11
tag_value complex_map = 12
tag_value complex_sequence = 13
tag_value type_unset = 14

abbrev pub tag_max : ℕ
tag_max = 15

-- The union `value`, by the member that was written last. `P` are pointers to OChar (NULL is
-- `none`), `D` is double; both are left open.
pub data Union (P D : Type 0) : Type 0 where
  string_value : Option P → Union P D
  float_value : D → Union P D
  int_value : ℤ → Union P D
  uint_value : ℕ → Union P D
  bool_value : Bool → Union P D

pub record NodeValue (P D : Type 0) : Type 0 where
  pub value : Union P D
  pub type : TagType
