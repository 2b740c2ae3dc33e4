-- ===== src/BasicFunctions.antt =====
-- cstr_to_ostr, ostr_to_cstr and count_file_bytes of src/core/basic_functions.c. What u_uastrncpy and
-- u_austrncpy do to the memory is a parameter.
pub mod Copies
mod Tests
use oly.Prelude.{
  ℕ, ◌+◌, ◌-◌, Bool, true, false, ◌&&◌, Option, none, some, List, ltb, if◌then◌else◌, write, Memory,
}
use oly.Status.{Status, okay, err_fileio}

-- A call of ICU that copies a string to an offset of the memory, at most so many cells.
abbrev pub Copy : Type 0
Copy = Memory → ℕ → List ℕ → ℕ → Memory

-- `o` is not NULL, and `c` is `none` for NULL; `none` is a failed assertion, or a read of NULL. The
-- terminator goes to `o + buffer_size`.
unfoldable pub cstr_to_ostr : Copy → Memory → ℕ → ℕ → Option (List ℕ) → Option Memory
cstr_to_ostr copy m o buffer_size none = none
cstr_to_ostr copy m o buffer_size (some c) =
    if ltb 1 buffer_size
    then some (copy (write m (o + buffer_size) 0) o c (buffer_size - 1))
    else none

-- A NULL string is the empty one here.
unfoldable pub ostr_to_cstr : Copy → Memory → ℕ → ℕ → Option (List ℕ) → Option Memory
ostr_to_cstr copy m c buffer_size none =
    if ltb 1 buffer_size then some (write (write m (c + buffer_size) 0) c 0) else none
ostr_to_cstr copy m c buffer_size (some o) =
    if ltb 1 buffer_size
    then some (copy (write m (c + buffer_size) 0) c o (buffer_size - 1))
    else none

-- Whether fgetpos works, and what ftello gives at the end of the file, which is reported all the same.
unfoldable pub count_file_bytes : Bool → ℕ → Status × ℕ
count_file_bytes true size = (okay, size)
count_file_bytes false size = (err_fileio, size)
