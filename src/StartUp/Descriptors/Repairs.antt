-- ===== src/StartUp/Descriptors/Repairs.antt =====
-- What clean_io_open leaves open, over a system that answers as POSIX says.
use oly.Prelude.{
  ℕ, zero, suc, ◌+◌, ◌-◌, ◌<◌, ◌≡◌, ◌⊎◌, refl, arith, true, false, none, some, ltb, leb, ◌||◌, ◌&&◌,
  if◌then◌else◌, Bool-cases, inl, inr,
}
use oly.StartUp.Descriptors.{
  Table, set_open, stands, bad_descriptor, fails, System, open_devnull, open_limit, close_loop,
  check_std, check_loop, std_fileno, clean_io_open,
}

-- fstat fails with EBADF for just the descriptors that are not open, and may fail with another error for
-- one that is; freopen of a stream whose descriptor is not open fails, or gives it the lowest free
-- descriptor.
pub record IsPosix (k : System) : Type 0 where
  pub fstat_open :
      (t : Table) (fd : ℕ) → t fd ≡ true → (k.fstat t fd ≡ stands) ⊎ (k.fstat t fd ≡ fails)
  pub fstat_closed : (t : Table) (fd : ℕ) → t fd ≡ false → k.fstat t fd ≡ bad_descriptor
  pub freopen_lowest :
      (t : Table) (fd n : ℕ)
      → t fd ≡ false
      → ((j : ℕ) → j < n → t j ≡ true)
      → t n ≡ false
      → ((k.freopen_devnull t fd).0 ≡ none) ⊎ (k.freopen_devnull t fd ≡ (some n, set_open t n true))

-- A call of the system fails: fstat of an open descriptor, or freopen of a standard stream that is
-- closed.
abbrev pub Fault : System → Type 0
Fault k =
    (t : Table) × (fd : ℕ) × (fd < 3)
    × (((t fd ≡ true) × (k.fstat t fd ≡ fails))
        ⊎ ((t fd ≡ false) × ((k.freopen_devnull t fd).0 ≡ none)))

-- What is open behind the call: the three standard descriptors, and of the others those that are at
-- the limit or above it and were open.
abbrev pub cleaned : ℕ → Table → Table
cleaned fds t j = ltb j 3 || (leb fds j && t j)

close_loop_lem :
    (n fd : ℕ) (t : Table) (j : ℕ)
    → close_loop n fd t j ≡ (if leb fd j && ltb j (fd + n) then false else t j)
unfolding close_loop set_open
close_loop_lem zero fd t j = ground arith
close_loop_lem (suc n) fd t j = ground (arith, close_loop_lem n (fd + 1) (set_open t fd false) j)

module _ (k : System) (posix : IsPosix k) where
  -- How a step of the second loop ends: its descriptor is open and no other has changed, or the program
  -- aborts for a fault.
  abbrev Verified : ℕ → Table → Type 0
  Verified fd t =
      ((u : Table) × (check_std k fd t ≡ some u) × ((j : ℕ) → u j ≡ set_open t fd true j))
      ⊎ ((check_std k fd t ≡ none) × Fault k)

  check_std_closed :
      (fd : ℕ) (t : Table) → fd < 3 → ((j : ℕ) → j < fd → t j ≡ true) → t fd ≡ false → Verified fd t
  unfolding check_std open_devnull set_open
  check_std_closed fd t lt lower e = elim (posix.freopen_lowest t fd fd e lower e) [
    | inl no_file ↦
        inr (ground (arith, posix.fstat_closed t fd e, no_file, lt), (t, fd, lt, inr (e, no_file)))
    | inr file ↦
        inl (set_open t fd true, ground (arith, posix.fstat_closed t fd e, file, lt), λ j. refl)
  ]

  -- With all lower descriptors open.
  check_std-Verified :
      (fd : ℕ) (t : Table) → fd < 3 → ((j : ℕ) → j < fd → t j ≡ true) → Verified fd t
  unfolding check_std set_open
  check_std-Verified fd t lt lower = elim (Bool-cases (t fd)) [
    | inr e ↦ check_std_closed fd t lt lower e
    | inl e ↦ elim (posix.fstat_open t fd e) [
      | inl good ↦ inl (t, rw (good, check_std) refl, λ j. ground (arith, e))
      | inr bad ↦ inr (rw (bad, check_std) refl, (t, fd, lt, inl (e, bad)))
    ]
  ]

  abbrev opened : Table → Table
  opened t j = ltb j 3 || t j

  -- The three steps, whatever was open before.
  abbrev AllVerified : Table → Type 0
  AllVerified t =
      ((u : Table) × (check_loop k std_fileno t ≡ some u) × ((j : ℕ) → u j ≡ opened t j))
      ⊎ ((check_loop k std_fileno t ≡ none) × Fault k)

  check_loop-AllVerified : (t : Table) → AllVerified t
  unfolding check_loop set_open
  check_loop-AllVerified t = elim (check_std-Verified 0 t (omega arith) (λ j h. ground arith)) [
    | inr (stop, fault) ↦ inr (rw (stop, check_loop) refl, fault)
    | inl (a, a_runs, a_is) ↦
        elim (check_std-Verified 1 a (omega arith) (λ j h. ground (arith, a_is j))) [
          | inr (stop, fault) ↦ inr (rw (a_runs, stop, check_loop) refl, fault)
          | inl (b, b_runs, b_is) ↦
              elim (check_std-Verified 2 b (omega arith) (λ j h. ground (arith, a_is j, b_is j))) [
                | inr (stop, fault) ↦ inr (rw (a_runs, b_runs, stop, check_loop) refl, fault)
                | inl (c, c_runs, c_is) ↦ inl (
                  c,
                  rw (a_runs, b_runs, c_runs, check_loop) refl,
                  λ j. ground (arith, a_is j, b_is j, c_is j),
                )
              ]
        ]
  ]

  -- If getrlimit gives a limit, and fstat and freopen, which may fail, answer as POSIX says: whichever of
  -- the three standard descriptors were closed, behind clean_io_open they are open, and from 3 on only
  -- those are that were open before and are not below the limit; or it aborts, and then a call of
  -- fstat for an open standard descriptor or of freopen for a closed one fails.
  pub clean_io_open_repairs :
      (rlim_max open_max : ℕ) (t : Table)
      → ((u : Table) × (clean_io_open k (some rlim_max) open_max t ≡ some u)
          × ((j : ℕ) → u j ≡ cleaned (open_limit rlim_max open_max) t j))
        ⊎ ((clean_io_open k (some rlim_max) open_max t ≡ none) × Fault k)
  unfolding clean_io_open
  clean_io_open_repairs rlim_max open_max t =
      let fds = open_limit rlim_max open_max in
      elim (check_loop-AllVerified (close_loop (fds - 3) 3 t)) [
        | inl (u, runs, is) ↦
            inl (u, runs, λ j. ground (arith, is j, close_loop_lem (fds - 3) 3 t j))
        | inr stops ↦ inr stops
      ]
