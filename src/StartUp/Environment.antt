-- ===== src/StartUp/Environment.antt =====
-- cleanenv and get_home of src/core/init_oly.c. The new environment is one allocation: a table of
-- pointers, NULL behind the last, and the strings behind the table. `table` has the pointers by
-- their index, `memory` the bytes, and a pointer is an offset from the start of the allocation.
pub mod Entries
pub mod Exact
mod Tests
use oly.Prelude.{
  ℕ, ◌+◌, ◌-◌, ◌*◌, Option, none, some, List, [], ◌∷◌, ◌++◌, Memory, length, write, ◌==◌, ltb,
  if◌then◌else◌,
}
use oly.Status.{Status, okay, err_nopwd}
use oly.Boundary.{strncpy_at}

-- "HOME="
abbrev pub home_prefix : List ℕ
home_prefix = b'H' ∷ b'O' ∷ b'M' ∷ b'E' ∷ b'=' ∷ []

-- The string that `get_home` writes for the directory, and the bytes that it allocates for it:
-- `sizeof("HOME=")` is 6.
pub record Home : Type 0 where
  pub room : ℕ
  pub string : List ℕ

unfoldable pub get_home : List ℕ → Home
get_home dir = record { room = length dir + 6 - 1; string = home_prefix ++ dir }

-- `sizeof(char *)`
abbrev pub pointer_size : ℕ
pointer_size = 8

-- The sizes that the first two loops count.
pub record Sizes : Type 0 where
  pub new_size : ℕ
  pub arr_size : ℕ

unfoldable pub count_restricted : List (List ℕ) → Sizes → Sizes
count_restricted [] z = z
count_restricted (var ∷ vars) z =
    count_restricted vars
      (record { new_size = z.new_size + (length var + 1); arr_size = z.arr_size + 1 })

unfoldable pub count_preserved : (List ℕ → Option (List ℕ)) → List (List ℕ) → Sizes → Sizes
count_preserved getenv [] z = z
count_preserved getenv (var ∷ vars) z = count_preserved getenv vars (elim (getenv var) [
  | none ↦ z
  | some value ↦ record {
    new_size = z.new_size + (length var + length value + 2);
    arr_size = z.arr_size + 1;
  }
])

pub record Building : Type 0 where
  pub memory : Memory
  pub table : ℕ → Option ℕ
  pub ptr : ℕ
  pub arr_ptr : ℕ

-- `new_environ[i] = p`
unfoldable pub set_entry : (ℕ → Option ℕ) → ℕ → Option ℕ → ℕ → Option ℕ
set_entry table i p j = if j == i then p else table j

-- `memcpy(ptr, var, len + 1)`
unfoldable pub copy_restricted : List (List ℕ) → Building → Building
copy_restricted [] e = e
copy_restricted (var ∷ vars) e = copy_restricted vars (record {
  memory = strncpy_at e.memory e.ptr var (length var + 1);
  table = set_entry e.table e.arr_ptr (some e.ptr);
  ptr = e.ptr + (length var + 1);
  arr_ptr = e.arr_ptr + 1;
})

-- The name, `=`, and the value with its terminator.
abbrev pub copy_pair : List ℕ → List ℕ → Building → Building
copy_pair var value e = record {
  memory =
      strncpy_at (write (strncpy_at e.memory e.ptr var (length var)) (e.ptr + length var) b'=')
        (e.ptr + length var + 1) value (length value + 1);
  table = set_entry e.table e.arr_ptr (some e.ptr);
  ptr = e.ptr + (length var + length value + 2);
  arr_ptr = e.arr_ptr + 1;
}

unfoldable pub copy_preserved : (List ℕ → Option (List ℕ)) → List (List ℕ) → Building → Building
copy_preserved getenv [] e = e
copy_preserved getenv (var ∷ vars) e =
    copy_preserved getenv vars (elim (getenv var) [ none ↦ e | some value ↦ copy_pair var value e ])

-- `spc_restricted_environ` behind the place for the home directory, which is its first string.
abbrev pub restricted : Home → List (List ℕ) → List (List ℕ)
restricted home rest = home.string ∷ rest

abbrev pub sizes : (List ℕ → Option (List ℕ)) → List (List ℕ) → List (List ℕ) → Sizes
sizes getenv restrict preserve =
    count_preserved getenv preserve
      (count_restricted restrict (record { new_size = 0; arr_size = 1 }))

-- The bytes that are allocated.
abbrev pub allocated_for : Sizes → ℕ
allocated_for z = z.new_size + z.arr_size * pointer_size

abbrev pub built :
    (List ℕ → Option (List ℕ)) → List (List ℕ) → List (List ℕ) → Memory → (ℕ → Option ℕ) → Building
built getenv restrict preserve fresh fresh_table =
    let z = sizes getenv restrict preserve in
    copy_preserved getenv preserve (
      copy_restricted restrict (record {
        memory = fresh;
        table = set_entry fresh_table (z.arr_size - 1) none;
        ptr = z.arr_size * pointer_size;
        arr_ptr = 0;
      }))

-- `cleanenv` behind `get_home`, with what the allocation holds.
unfoldable pub clean_from :
    Home
    → (List ℕ → Option (List ℕ))
    → List (List ℕ)
    → List (List ℕ)
    → Memory
    → (ℕ → Option ℕ)
    → Status × Option Building
clean_from home getenv rest preserve fresh fresh_table =
    (okay, some (built getenv (restricted home rest) preserve fresh fresh_table))

-- `cleanenv`, with the directory of the user if there is one, the old environment, the strings of
-- the two tables, and what the allocation holds. `none` is a write of `get_home` behind its block,
-- which C leaves undefined.
unfoldable pub cleanenv :
    Option (List ℕ)
    → (List ℕ → Option (List ℕ))
    → List (List ℕ)
    → List (List ℕ)
    → Memory
    → (ℕ → Option ℕ)
    → Option (Status × Option Building)
unfolding get_home clean_from
cleanenv none getenv rest preserve fresh fresh_table = some (err_nopwd, none)
cleanenv (some dir) getenv rest preserve fresh fresh_table =
    let home = get_home dir in
    if ltb (length home.string) home.room
    then some (clean_from home getenv rest preserve fresh fresh_table)
    else none
