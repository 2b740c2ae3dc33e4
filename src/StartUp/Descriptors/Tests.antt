-- ===== src/StartUp/Descriptors/Tests.antt =====
-- The theorem on clean_io_open at a process whose standard output is closed.
use oly.Prelude.{
  ℕ, zero, suc, ◌+◌, ◌^◌, ◌≤◌, ◌<◌, ◌≡◌, refl, sym, arith, true, false, none, some, inl, inr, ◌⊎◌,
  ◌==◌, not, if◌then◌else◌,
}
use mathlib.Core.Path.{subst}
use native.Mathlib.Decide.{dec_lt}
use oly.StartUp.Descriptors.{
  Table, set_open, stands, bad_descriptor, System, open_limit, clean_io_open,
}
use oly.StartUp.Descriptors.Repairs.{IsPosix, Fault, cleaned, clean_io_open_repairs}

-- The first of `n`, `n` + 1, ... that is not open, after at most `m` that are.
abbrev first_free : Table → ℕ → ℕ → ℕ
first_free t zero n = n
first_free t (suc m) n = if t n then first_free t m (n + 1) else n

abbrev posix : System
posix = record {
  fstat = λ t fd. if t fd then stands else bad_descriptor;
  freopen_devnull = λ t fd. (some (first_free t fd 0), set_open t (first_free t fd 0) true);
}

first_free_lem :
    (t : Table) (m a n : ℕ)
    → a ≤ n
    → n ≤ a + m
    → ((j : ℕ) → j < n → t j ≡ true)
    → t n ≡ false
    → first_free t m a ≡ n
first_free_lem t zero a n le most lower free = omega arith
first_free_lem t (suc m) a n le most lower free = elim (dec_lt a n) [
  | yes lt ↦
      ground
        (arith, lower a lt, first_free_lem t m (a + 1) n (omega arith) (omega arith) lower free)
  | no ge ↦
      let same : a ≡ n = omega arith in
      ground (arith, same, subst (λ x. t x ≡ false) (sym same) free)
]

below : (t : Table) (fd n : ℕ) → t fd ≡ false → ((j : ℕ) → j < n → t j ≡ true) → n ≤ 0 + fd
below t fd n closed lower = elim (dec_lt fd n) [
  | yes lt ↦ ground (arith, closed, lower fd lt)
  | no ge ↦ omega arith
]

abbrev no_output : Table
no_output fd = not (fd == 1)

posix-IsPosix : IsPosix posix
posix-IsPosix = record {
  fstat_open = λ t fd e. inl (ground (arith, e));
  fstat_closed = λ t fd e. ground (arith, e);
  freopen_lowest = λ t fd n closed lower free.
      inr (rw (first_free_lem t fd 0 n (omega arith) (below t fd n closed lower) lower free) refl);
}

clean_io_open_repairs_example :
    ((u : Table) × (clean_io_open posix (some 1024) 256 no_output ≡ some u)
      × ((j : ℕ) → u j ≡ cleaned (open_limit 1024 256) no_output j))
    ⊎ ((clean_io_open posix (some 1024) 256 no_output ≡ none) × Fault posix)
clean_io_open_repairs_example = clean_io_open_repairs posix posix-IsPosix 1024 256 no_output

-- A limit of 2^31 is no limit: as an `int` it is negative, and nothing is closed.
limit_wraps : open_limit (2 ^ 31) 256 ≡ 0
limit_wraps = refl
