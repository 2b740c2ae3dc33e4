-- ===== src/Config/Tests.antt =====
-- A configuration in one of two directories, and the theorems at it.
use oly.Prelude.{
  ℕ, ◌≡◌, Bool, true, false, Option, some, none, List, [], ◌∷◌, length, refl, arith, ltb,
  if◌then◌else◌,
}
use mathlib.Core.Path.{subst}
use oly.Status.{okay, err_config_file_not_found}
use oly.Config.{
  Config, Event, find_config_item, main_unset, null_value, stream_start_event, mapping_start_event,
  scalar_event, mapping_end_event, stream_end_event,
}
use oly.Tag.{type_unset}
use oly.Config.Find.{IsNamed, Found, find_config_item-Found}
use oly.Config.Load.{
  IsReadable, IsConvertible, ends, opens, home_file, directory_files, load_main_config-finds,
}
use oly.Config.Main.{Files, load_main_config}

abbrev convert : List ℕ → Option (List ℕ)
convert s = some s

-- The item `k` has the name of the one character `k`.
abbrev names : ℕ → Option (List ℕ)
names k = some (k ∷ [])

names-IsNamed : IsNamed names
names-IsNamed k h = (k ∷ [], refl)

abbrev events : List Event
events =
    stream_start_event
    ∷ mapping_start_event
    ∷ scalar_event (1 ∷ [])
    ∷ scalar_event (7 ∷ [])
    ∷ mapping_end_event
    ∷ stream_end_event
    ∷ []

-- Every path of less than nine characters is a file.
abbrev files : Files
files path = if ltb (length path) 9 then some (true, events) else none

events-ends : ends events ≡ true
unfolding ends
events-ends = refl

parsed :
    (f : Bool × List Event)
    → (true, events) ≡ f
    → (f.0 ≡ true) × (ends f.1 ≡ true) × IsConvertible convert f.1
parsed f e =
    subst (λ g. (g.0 ≡ true) × (ends g.1 ≡ true) × IsConvertible convert g.1) e
      (refl, events-ends, ((1 ∷ [], refl), ((7 ∷ [], refl), tt)))

files-IsReadable : IsReadable convert files
files-IsReadable path initialised es e = parsed (initialised, es) (ground (arith, e))

abbrev fresh : ℕ → Config ℕ ℕ
fresh j = record { value = null_value; min = 7; type = type_unset }

abbrev home : List ℕ
home = b'/' ∷ b'h' ∷ b'o' ∷ []

abbrev directories : List (List ℕ)
directories = (b'/' ∷ b'u' ∷ b's' ∷ b'r' ∷ []) ∷ (b'/' ∷ b'e' ∷ []) ∷ []

load_main_config-finds_example :
    load_main_config 100 convert names files fresh false 7 (some home) directories
    ≡ some (
        if opens files (home_file home ∷ directory_files directories)
        then okay
        else err_config_file_not_found)
load_main_config-finds_example =
    load_main_config-finds 100 convert names files fresh 7 home directories names-IsNamed
      files-IsReadable (omega arith) (omega arith) (omega arith)

find_config_item-Found_example :
    Found names (1 ∷ []) 0 main_unset (find_config_item convert names (1 ∷ []))
find_config_item-Found_example =
    find_config_item-Found convert names (1 ∷ []) (1 ∷ []) refl names-IsNamed
