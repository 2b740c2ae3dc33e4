-- ===== src/StartUp/Locale.antt =====
-- init_locale and init_encoding of src/core/init_oly.c. What uloc_getBaseName does to a buffer is a
-- parameter.
pub mod Stops
mod Tests
use oly.Prelude.{
  ℕ, ◌+◌, ◌<◌, ◌≡◌, Bool, true, false, Option, none, some, List, length, map, ltb, ◌==◌,
  if◌then◌else◌, Memory,
}

-- What a call of uloc_getBaseName does: whether the error code tells a failure, the length that it
-- returns, and the buffer behind it.
pub record Called : Type 0 where
  pub u_failure : Bool
  pub output_size : ℕ
  pub buffer : Memory

-- The call for a locale with the size of the buffer and what is in it.
abbrev pub GetBaseName : Type 0
GetBaseName = List ℕ → ℕ → Memory → Called

-- What `init_locale` returns: a pointer to its own local buffer, or to an allocation.
pub data Located : Type 0 where
  exits : Located
  local_buffer : Memory → Located
  allocated : ℕ → Memory → Located

-- The rest behind the first call, which asks a second time with a cleared buffer of just the size.
unfoldable pub confirm_locale : GetBaseName → List ℕ → Called → Located
confirm_locale get_base_name locale c =
    let d = get_base_name locale c.output_size (λ j. 0) in
    if ltb 0 c.output_size
    then (if c.output_size == d.output_size then allocated c.output_size d.buffer else exits)
    else local_buffer c.buffer

-- `local` is what the local buffer holds.
unfoldable pub init_locale : GetBaseName → ℕ → List ℕ → Memory → Located
unfolding confirm_locale
init_locale get_base_name bufsiz locale local =
    let c = get_base_name locale bufsiz local in
    if c.u_failure then exits else confirm_locale get_base_name locale c

-- `none` is where the program exits; the default is the name that ICU gives.
unfoldable pub init_encoding : Option (List ℕ) → Option (List ℕ) → Option (List ℕ)
init_encoding none default_name = default_name
init_encoding (some preset) default_name = some preset
