-- ===== src/Config/Main.antt =====
-- load_main_config of src/core/config.c. `home` is the value of HOME, `directories` what strtok_r makes
-- of SYSCONFDIR, which has `sysconf` characters, and `files` the files that can be opened. `*config` is
-- never set, so that only the status is given out.
use oly.Prelude.{
  ℕ, ◌+◌, Bool, true, false, Option, none, some, List, [], ◌∷◌, ◌++◌, ltb, if◌then◌else◌, length,
}
use oly.Status.{Status, is_okay, okay, warn_reinit, err_buffer_overflow, err_config_file_not_found}
use oly.Config.{Config, Event, open_config_item, load_config_file, load_main_defaults, is_not_found}

-- `init_config`, by whether `config_data` is set.
unfoldable pub init_config : Bool → Status
init_config initialised = if initialised then warn_reinit else okay

-- "olyrc"
abbrev pub config_file : List ℕ
config_file = b'o' ∷ b'l' ∷ b'y' ∷ b'r' ∷ b'c' ∷ []

abbrev pub Files : Type 0
Files = List ℕ → Option (Bool × List Event)

pub record Loading : Type 0 where
  pub status : Status
  pub file_loaded : Bool

module _ {P D : Type 0} (bufsiz : ℕ) (convert : List ℕ → Option (List ℕ))
    (names : ℕ → Option (List ℕ)) (files : Files) (config : ℕ → Config P D) where
  -- `fopen`, and the file where the status is still OLY_OKAY: `end` is the status after a bad one.
  unfoldable pub read_file : (Status → Status) → List ℕ → Loading → Option Loading
  unfolding load_config_file
  read_file bad filename l = elim (files filename) [
    | none ↦ some (record l { status = err_config_file_not_found })
    | some f ↦
        if is_okay l.status
        then (elim (load_config_file convert names config f) [
          | none ↦ none
          | some s ↦ some (
              if is_okay s
              then record { status = okay; file_loaded = true }
              else record l { status = bad s })
        ])
        else some l
  ]

  -- The file in the directory of the user: "/." and the name behind the directory, in `filename`.
  unfoldable pub read_home : List ℕ → Loading → Option Loading
  unfolding read_file
  read_home home l =
      if ltb (length home + 7) bufsiz
      then read_file (λ s. err_config_file_not_found) (home ++ (b'/' ∷ b'.' ∷ config_file)) l
      else none

  -- One directory of the path.
  unfoldable pub read_directory : List ℕ → Loading → Option Loading
  unfolding read_file
  read_directory directory l =
      if ltb (length directory + 6) bufsiz
      then read_file (λ s. s) (directory ++ (b'/' ∷ config_file))
          (record l { status = if is_not_found l.status then okay else l.status })
      else none

  unfoldable pub read_path : List (List ℕ) → Loading → Option Loading
  unfolding read_directory
  read_path [] l = some l
  read_path (d ∷ ds) l = elim (read_directory d l) [ none ↦ none | some k ↦ read_path ds k ]

  -- What follows the loops.
  unfoldable pub finish_main_config : Loading → Status
  unfolding load_main_defaults
  finish_main_config l =
      if l.file_loaded
      then okay
      else (if is_okay (load_main_defaults bufsiz config).0
          then err_config_file_not_found
          else okay)

-- The loop that opens the items.
abbrev pub opened_items : {P D : Type 0} → (ℕ → Config P D) → ℕ → Config P D
opened_items fresh j = open_config_item (fresh j)

-- The items as they are allocated are `fresh`.
unfoldable pub load_main_config :
    {P D : Type 0}
    → ℕ
    → (List ℕ → Option (List ℕ))
    → (ℕ → Option (List ℕ))
    → Files
    → (ℕ → Config P D)
    → Bool
    → ℕ
    → Option (List ℕ)
    → List (List ℕ)
    → Option Status
unfolding read_home read_path finish_main_config init_config open_config_item
load_main_config bufsiz convert names files fresh initialised sysconf none directories = none
load_main_config bufsiz convert names files fresh initialised sysconf (some home) directories =
    let s = if ltb bufsiz (sysconf + 1) then err_buffer_overflow else init_config initialised in
    elim (read_home bufsiz convert names files (opened_items fresh) home
      (record { status = s; file_loaded = false })) [
        | none ↦ none
        | some l ↦ elim (read_path bufsiz convert names files (opened_items fresh) directories l) [
          | none ↦ none
          | some k ↦ some (finish_main_config bufsiz convert names files (opened_items fresh) k)
        ]
      ]
