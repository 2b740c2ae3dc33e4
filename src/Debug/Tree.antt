-- ===== src/Debug/Tree.antt =====
-- flag_res_display, list_array_resources and list_table_resources of src/debug, which print a tree
-- of resources: flag_check chooses by the type of a resource what is shown. What is printed is a
-- list of pieces, one for each call of printf.
pub mod Shown
use oly.Prelude.{
  ℕ, ◌+◌, ◌-◌, Bool, true, false, ◌&&◌, Option, none, some, List, [], ◌∷◌, ◌++◌, ◌==◌,
  if◌then◌else◌,
}
use oly.Prelude.Int.{ℤ}
use oly.Debug.Indent.{level_indent}

pub data ResType : Type 0 where
  ures_none ures_string ures_binary ures_table ures_alias ures_int ures_array ures_int_vector :
      ResType

-- A resource of ICU, as its functions show it. The children have keys, which those of an array do
-- not use.
mutual
  pub data Resource : Type 0 where
    res_none : Resource
    res_string : List ℕ → Resource
    res_binary : Resource
    res_table : Children → Resource
    res_alias : List ℕ → Resource
    res_int : ℤ → Resource
    res_array : Children → Resource
    res_int_vector : ℕ → Resource

  pub data Children : Type 0 where
    no_child : Children
    child : List ℕ → Resource → Children → Children

-- `ures_getType`
abbrev pub res_type : Resource → ResType
res_type res_none = ures_none
res_type (res_string s) = ures_string
res_type res_binary = ures_binary
res_type (res_table cs) = ures_table
res_type (res_alias s) = ures_alias
res_type (res_int n) = ures_int
res_type (res_array cs) = ures_array
res_type (res_int_vector n) = ures_int_vector

pub record ResDispFlag : Type 0 where
  pub all : ℕ
  pub help : ℕ
  pub version : ℕ
  pub only_locale : ℕ
  pub badopt : ℕ
  pub tables : ℕ
  pub arrays : ℕ
  pub strings : ℕ
  pub binaries : ℕ
  pub aliases : ℕ
  pub integers : ℕ
  pub vectors : ℕ

-- `only_locale` stays as it was.
unfoldable pub init_res_disp_flag : ResDispFlag → ResDispFlag
init_res_disp_flag flag = record {
  all = 1;
  help = 0;
  version = 0;
  only_locale = flag.only_locale;
  badopt = 0;
  tables = 0;
  arrays = 0;
  strings = 0;
  binaries = 0;
  aliases = 0;
  integers = 0;
  vectors = 0;
}

-- The flag that the chain of tests in `flag_check` reads for a type; no test is for URES_NONE.
abbrev pub flag_of : ResDispFlag → ResType → ℕ
flag_of flag ures_none = 0
flag_of flag ures_string = flag.strings
flag_of flag ures_binary = flag.binaries
flag_of flag ures_table = flag.tables
flag_of flag ures_alias = flag.aliases
flag_of flag ures_int = flag.integers
flag_of flag ures_array = flag.arrays
flag_of flag ures_int_vector = flag.vectors

unfoldable pub flag_check : ResType → ResDispFlag → ResType
flag_check restype flag =
    if flag.all == 1 then restype else (if flag_of flag restype == 1 then restype else ures_none)

abbrev pub is_none : ResType → Bool
is_none ures_none = true
is_none _ = false

-- What one printf writes; the number of a line of an entry is that of the spaces before it.
pub data Piece : Type 0 where
  text_line : List ℕ → Piece
  binary_line : Piece
  number_line : ℤ → Piece
  size_line : ℕ → Piece
  array_entry : ℕ → ℕ → ResType → Piece
  table_entry : ℕ → List ℕ → ResType → Piece
  blank_line : Piece

-- What was printed, and whether the program has left by exit(1).
pub record Printed : Type 0 where
  pub pieces : List Piece
  pub exited : Bool

abbrev pub printed : List Piece → Printed
printed ps = record { pieces = ps; exited = false }

abbrev pub then_print : Printed → Printed → Printed
then_print a b = if a.exited then a else record { pieces = a.pieces ++ b.pieces; exited = b.exited }

-- The spaces of `level_indent(indent_buffer, BUFSIZ, level)`.
unfoldable pub indentation : ℕ → ℕ → ℕ
unfolding level_indent
indentation bufsiz level = (level_indent (λ j. 0) bufsiz level).indent_ptr

-- `utf8` is ures_getUTF8String into BUFSIZ bytes, `none` for a failure.
module _ (bufsiz : ℕ) (utf8 : List ℕ → Option (List ℕ)) (flag : ResDispFlag) where
  abbrev pub print_text : List ℕ → Printed
  print_text s = elim (utf8 s) [
    | none ↦ record { pieces = []; exited = true }
    | some t ↦ printed (text_line t ∷ [])
  ]

  -- The switch is reached with a type that is not URES_NONE.
  unfoldable pub chosen : ResType → Printed → Printed
  unfolding flag_check
  chosen t p = if is_none (flag_check t flag) then printed [] else p

  unfoldable mutual
    unfolding chosen indentation

    -- The cases of the switch.
    pub display_type : ℕ → Resource → Printed
    display_type level res_none = printed []
    display_type level (res_string s) = print_text s
    display_type level res_binary = printed (binary_line ∷ [])
    display_type level (res_table cs) = list_table_resources (level + 1) cs
    display_type level (res_alias s) = print_text s
    display_type level (res_int n) = printed (number_line n ∷ [])
    display_type level (res_array cs) = list_array_resources (level + 1) 0 cs
    display_type level (res_int_vector n) = printed (size_line n ∷ [])

    -- An entry is printed of every child.
    pub list_table_resources : ℕ → Children → Printed
    list_table_resources level no_child = printed []
    list_table_resources level (child key r cs) =
        then_print (printed (table_entry (indentation bufsiz level) key (res_type r) ∷ []))
          (then_print (chosen (res_type r) (display_type level r)) (list_table_resources level cs))

    -- An entry is printed of a child that is chosen; the loop stands at the index `i`.
    pub list_array_resources : ℕ → ℕ → Children → Printed
    list_array_resources level i no_child = printed (blank_line ∷ [])
    list_array_resources level i (child key r cs) =
        then_print
          (chosen (res_type r) (
            then_print (printed (array_entry (indentation bufsiz level) i (res_type r) ∷ []))
              (chosen (res_type r) (display_type level r))))
          (list_array_resources level (i + 1) cs)

  unfoldable pub flag_res_display : ℕ → Resource → Printed
  unfolding chosen
  flag_res_display level r = chosen (res_type r) (display_type level r)
