-- ===== src/Config/Load.antt =====
-- What load_main_config reports.
use oly.Prelude.{
  ℕ, zero, suc, ◌+◌, ◌<◌, ◌≡◌, ◌⊎◌, inl, inr, Bool, true, false, ◌||◌, Option, some, none, List, [],
  ◌∷◌, ◌++◌, arith, refl, ◌∙◌, Option-cases, if◌then◌else◌, All, length,
}
use oly.Status.{Status, okay, is_okay, err_config_unknown, err_config_file_not_found}
use oly.Config.{
  Config, Event, load_loop, load_config_file, find_config_item, main_unset, is_unknown,
  is_not_found, stream_end_event, scalar_event, load_main_defaults, defaults_loop, copy_config_item,
  with_item,
}
use oly.Config.Find.{IsNamed, find_config_item-Found}
use oly.Config.Main.{
  Files, Loading, read_file, read_home, read_directory, read_path, finish_main_config,
  load_main_config, config_file, init_config, opened_items,
}

-- Events that come to the end of the stream, as a file that can be parsed has them.
unfoldable pub ends : List Event → Bool
ends [] = false
ends (stream_end_event ∷ es) = true
ends (_ ∷ es) = ends es

abbrev pub Convert : Type 0
Convert = List ℕ → Option (List ℕ)

-- Every scalar before the end of the stream can be converted.
abbrev pub IsConvertible : Convert → List Event → Type 0
IsConvertible convert [] = Unit
IsConvertible convert (stream_end_event ∷ es) = Unit
IsConvertible convert (scalar_event key ∷ es) =
    ((s : List ℕ) × (convert key ≡ some s)) × IsConvertible convert es
IsConvertible convert (_ ∷ es) = IsConvertible convert es

-- A file that is opened has a parser and can be parsed, and its scalars can be converted.
abbrev pub IsReadable : Convert → Files → Type 0
IsReadable convert files =
    (path : List ℕ) (initialised : Bool) (es : List Event)
    → files path ≡ some (initialised, es)
    → (initialised ≡ true) × (ends es ≡ true) × IsConvertible convert es

-- The file can be opened.
abbrev pub opens_one : Files → List ℕ → Bool
opens_one files p = elim (files p) [ none ↦ false | some f ↦ true ]

-- One of the files can be opened.
unfoldable pub opens : Files → List (List ℕ) → Bool
opens files [] = false
opens files (p ∷ ps) = opens_one files p || opens files ps

or_swap : (a b c : Bool) → (a || ((b || false) || c)) ≡ ((b || a) || c)
or_swap true true c = refl
or_swap true false c = refl
or_swap false true c = refl
or_swap false false c = refl

module _ (convert : List ℕ → Option (List ℕ)) (names : ℕ → Option (List ℕ))
    (named : IsNamed names) where
  -- A search never fails otherwise than for an unknown item.
  found :
      (key s : List ℕ)
      → convert key ≡ some s
      → (t : Status) × (j : ℕ) × (find_config_item convert names key ≡ some (t, j))
        × ((if is_unknown t then okay else t) ≡ okay)
  found key s e = elim (find_config_item-Found convert names key s e named) [
    | inl (j, runs, lo, hi, name, first) ↦ (okay, j, runs, refl)
    | inr (runs, rest) ↦ (err_config_unknown, main_unset, runs, refl)
  ]

module _ {P D : Type 0} (convert : List ℕ → Option (List ℕ)) (names : ℕ → Option (List ℕ))
    (named : IsNamed names) where
  load_scalar :
      (config : ℕ → Config P D) (item : ℕ) (key s : List ℕ) (es : List Event)
      → convert key ≡ some s
      → ((item : ℕ) → load_loop convert names config item okay es ≡ some okay)
      → load_loop convert names config item okay (scalar_event key ∷ es) ≡ some okay
  unfolding load_loop is_okay
  load_scalar config item key s es e rest =
      let (t, j, runs, fine) = found convert names named key s e in
      ground (arith, runs, fine, rest j, rest main_unset)

  load_loop-okay :
      (config : ℕ → Config P D) (item : ℕ) (es : List Event)
      → ends es ≡ true
      → IsConvertible convert es
      → load_loop convert names config item okay es ≡ some okay
  unfolding load_loop ends
  load_loop-okay config item [] h g = absurd (ground (arith, h))
  load_loop-okay config item (stream_end_event ∷ es) h g = refl
  load_loop-okay config item (scalar_event key ∷ es) h ((s, e), g) =
      load_scalar config item key s es e (λ item. load_loop-okay config item es h g)
  load_loop-okay config item (_ ∷ es) h g = load_loop-okay config item es h g

  load_config_file-okay :
      (files : Files) (config : ℕ → Config P D) (path : List ℕ) (f : Bool × List Event)
      → IsReadable convert files
      → files path ≡ some f
      → load_config_file convert names config f ≡ some okay
  unfolding load_config_file
  load_config_file-okay files config path (initialised, es) readable e =
      let (ready, closed, good) = readable path initialised es e in
      ground (arith, ready, load_loop-okay config main_unset es closed good)

defaults_loop-okay :
    {P D : Type 0} (bufsiz : ℕ) (config : ℕ → Config P D) (i n : ℕ)
    → (defaults_loop bufsiz config i n).0 ≡ okay
unfolding defaults_loop copy_config_item is_okay
defaults_loop-okay bufsiz config i zero = refl
defaults_loop-okay bufsiz config i (suc n) =
    ground (arith, defaults_loop-okay bufsiz (with_item config i (config i)) (i + 1) n)

abbrev pub home_file : List ℕ → List ℕ
home_file home = home ++ (b'/' ∷ b'.' ∷ config_file)

abbrev pub directory_files : List (List ℕ) → List (List ℕ)
directory_files [] = []
directory_files (d ∷ ds) = (d ++ (b'/' ∷ config_file)) ∷ directory_files ds

module _ {P D : Type 0} (bufsiz : ℕ) (convert : List ℕ → Option (List ℕ))
    (names : ℕ → Option (List ℕ)) (files : Files) (config : ℕ → Config P D) (named : IsNamed names)
    (readable : IsReadable convert files) where
  read_file-Read :
      (bad : Status → Status) (path : List ℕ) (l : Loading)
      → l.status ≡ okay
      → (s : Status) × (read_file bufsiz convert names files config bad path l
          ≡ some (record { status = s; file_loaded = opens files (path ∷ []) || l.file_loaded }))
        × ((s ≡ okay) ⊎ (s ≡ err_config_file_not_found))
  unfolding read_file opens is_okay
  read_file-Read bad path l calm = elim (Option-cases (files path)) [
    | inl e ↦ (err_config_file_not_found, ground (arith, e), inr refl)
    | inr (f, e) ↦ (
      okay,
      ground (
        arith,
        e,
        calm,
        load_config_file-okay convert names named files config path f readable e,
      ),
      inl refl,
    )
  ]

  abbrev IsCalm : Status → Type 0
  IsCalm s = (s ≡ okay) ⊎ (s ≡ err_config_file_not_found)

  -- A missing file before a directory does not keep it from being read.
  calm : (s : Status) → IsCalm s → (if is_not_found s then okay else s) ≡ okay
  calm s (inl e) = ground (arith, e)
  calm s (inr e) = ground (arith, e)

  read_directory-Read :
      (d : List ℕ) (l : Loading)
      → IsCalm l.status
      → length d + 6 < bufsiz
      → (s : Status) × (read_directory bufsiz convert names files config d l
          ≡ some (record {
            status = s;
            file_loaded = opens files ((d ++ (b'/' ∷ config_file)) ∷ []) || l.file_loaded;
          }))
        × IsCalm s
  unfolding read_directory
  read_directory-Read d l ok fits =
      let (s, runs, still) =
        read_file-Read (λ s. s) (d ++ (b'/' ∷ config_file))
          (record l { status = if is_not_found l.status then okay else l.status })
          (calm l.status ok) in
      (s, ground (arith, fits, runs), still)

  -- The directories, one after the other.
  read_path-Read :
      (ds : List (List ℕ)) (l : Loading)
      → IsCalm l.status
      → All (λ d. length d + 6 < bufsiz) ds
      → (k : Loading) × (read_path bufsiz convert names files config ds l ≡ some k)
        × (k.file_loaded ≡ (opens files (directory_files ds) || l.file_loaded))
  unfolding read_path opens
  read_path-Read [] l ok fits = (l, refl, refl)
  read_path-Read (d ∷ ds) l ok fits =
      let (s, runs, still) = read_directory-Read d l ok fits.0 in
      let (k, more, loaded) =
        read_path-Read ds
          (record {
            status = s;
            file_loaded = opens files ((d ++ (b'/' ∷ config_file)) ∷ []) || l.file_loaded;
          })
          still fits.1 in
      (
        k,
        ground (arith, runs, more),
        loaded
            ∙ or_swap (opens files (directory_files ds))
                (opens_one files (d ++ (b'/' ∷ config_file))) l.file_loaded,
      )

  read_home-Read :
      (home : List ℕ)
      → length home + 7 < bufsiz
      → (s : Status) × (read_home bufsiz convert names files config home
            (record { status = okay; file_loaded = false })
          ≡ some (record { status = s; file_loaded = opens files (home_file home ∷ []) || false }))
        × IsCalm s
  unfolding read_home
  read_home-Read home fits =
      let (s, runs, still) =
        read_file-Read (λ s. err_config_file_not_found) (home_file home)
          (record { status = okay; file_loaded = false }) refl in
      (s, ground (arith, fits, runs), still)

-- On the first call, where SYSCONFDIR, the home directory and the directories fit their buffers, every
-- item has a name, and every file that is opened can be parsed and has only scalars that can be
-- converted, load_main_config returns: OLY_OKAY where a file is found in the home directory or in one of the
-- directories, and OLY_ERR_CONFIG_FILE_NOT_FOUND otherwise.
pub load_main_config-finds :
    {P D : Type 0} (bufsiz : ℕ) (convert : List ℕ → Option (List ℕ)) (names : ℕ → Option (List ℕ))
    (files : Files) (fresh : ℕ → Config P D) (sysconf : ℕ) (home : List ℕ)
    (directories : List (List ℕ))
    → IsNamed names
    → IsReadable convert files
    → sysconf < bufsiz
    → length home + 7 < bufsiz
    → All (λ d. length d + 6 < bufsiz) directories
    → load_main_config bufsiz convert names files fresh false sysconf (some home) directories
      ≡ some (
          if opens files (home_file home ∷ directory_files directories)
          then okay
          else err_config_file_not_found)
unfolding load_main_config finish_main_config load_main_defaults init_config is_okay opens read_home
load_main_config-finds bufsiz convert names files fresh sysconf home directories named readable room
      home_fits fits =
    let config = opened_items fresh in
    let (s, runs, still) =
      read_home-Read bufsiz convert names files config named readable home home_fits in
    let (k, more, loaded) =
      read_path-Read bufsiz convert names files config named readable directories
        (record { status = s; file_loaded = opens files (home_file home ∷ []) || false }) still
        fits in
    ground (arith, room, runs, more, loaded, defaults_loop-okay bufsiz config 0 main_unset)
