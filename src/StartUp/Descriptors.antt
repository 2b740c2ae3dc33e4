-- ===== src/StartUp/Descriptors.antt =====
-- clean_io_open and open_devnull of src/core/init_oly.c, over the table of the open descriptors of
-- the process. What the system answers to fstat and to freopen of a stream is a parameter.
pub mod Repairs
mod Tests
use oly.Prelude.{
  ℕ, zero, suc, ◌+◌, ◌-◌, ◌^◌, ◌%◌, Bool, true, false, Option, none, some, List, [], ◌∷◌, ltb, ◌==◌,
  if◌then◌else◌,
}

-- Which descriptors are open.
abbrev pub Table : Type 0
Table = ℕ → Bool

unfoldable pub set_open : Table → ℕ → Bool → Table
set_open t fd b j = if j == fd then b else t j

-- How fstat ends: with 0, with -1 and EBADF, or with -1 and another error.
pub data Checked : Type 0 where
  stands bad_descriptor fails : Checked

-- `freopen_devnull t fd` is freopen of the stream whose descriptor is `fd`: the descriptor of the
-- stream that it gives, `none` for NULL, and the table behind the call.
pub record System : Type 0 where
  pub fstat : Table → ℕ → Checked
  pub freopen_devnull : Table → ℕ → Option ℕ × Table

-- `f && fileno(f) == fd`
abbrev pub is_at : Option ℕ → ℕ → Bool
is_at none fd = false
is_at (some n) fd = n == fd

unfoldable pub open_devnull : System → ℕ → Table → Bool × Table
open_devnull k fd t =
    if ltb fd 3 then (let (f, u) = k.freopen_devnull t fd in (is_at f fd, u)) else (false, t)

-- A number as an `int`, with 0 for the negative ones, at which the loop ends as well.
abbrev pub as_int : ℕ → ℕ
as_int n = if ltb (n % 2 ^ 32) (2 ^ 31) then n % 2 ^ 32 else 0

-- `fds`: the hard limit as an `int`, or OPEN_MAX if that is -1.
abbrev pub open_limit : ℕ → ℕ → ℕ
open_limit rlim_max open_max =
    if rlim_max % 2 ^ 32 == 2 ^ 32 - 1 then as_int open_max else as_int rlim_max

-- `n` turns of the first loop, from `fd` on; a close of what is not open does nothing.
unfoldable pub close_loop : ℕ → ℕ → Table → Table
close_loop zero fd t = t
close_loop (suc n) fd t = close_loop n (fd + 1) (set_open t fd false)

-- `none` is abort.
abbrev pub repaired : Bool × Table → Option Table
repaired (true, t) = some t
repaired (false, t) = none

unfoldable pub check_std : System → ℕ → Table → Option Table
unfolding open_devnull
check_std k fd t = elim (k.fstat t fd) [
  | stands ↦ some t
  | bad_descriptor ↦ repaired (open_devnull k fd t)
  | fails ↦ none
]

abbrev pub std_fileno : List ℕ
std_fileno = 0 ∷ 1 ∷ 2 ∷ []

-- The second loop.
unfoldable pub check_loop : System → List ℕ → Table → Option Table
unfolding check_std
check_loop k [] t = some t
check_loop k (fd ∷ fds) t = elim (check_std k fd t) [ none ↦ none | some u ↦ check_loop k fds u ]

-- The hard limit is `none` if getrlimit fails.
unfoldable pub clean_io_open : System → Option ℕ → ℕ → Table → Option Table
unfolding close_loop check_loop
clean_io_open k none open_max t = none
clean_io_open k (some rlim_max) open_max t =
    check_loop k std_fileno (close_loop (open_limit rlim_max open_max - 3) 3 t)
