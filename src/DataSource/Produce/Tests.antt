-- ===== src/DataSource/Produce/Tests.antt =====
-- The theorems on enqueue_ds_node at a source with a key of one character.
use oly.Prelude.{ℕ, ◌+◌, ◌≡◌, List, [], ◌∷◌, map, arith, length, refl, some, get_or}
use oly.Prelude.Int.{pos}
use oly.Status.{warn_node_produced}
use oly.Tag.{scalar_string}
use oly.Node.{Pointee}
use oly.StringBuffer.Layout.{StringAt}
use oly.Boundary.{put_char_in}
use oly.Boundary.Sample.{boundary, latin_1, latin_1-IsBytewise}
use oly.DataSource.{fresh}
use oly.DataSource.Produce.{Producer, enqueue_ds_node}
use oly.DataSource.Produce.Keyed.{IsReady, final, enqueue_ds_node-keyed}
use oly.DataSource.Produce.Records.{Entry, Produces, produce_entry-Produces}
use oly.DataSource.Produce.Faults.{IsUnkeyed, unkeyed, unkeyed_node, enqueue_ds_node-unkeyed_text}

abbrev key : List ℕ
key = b'k' ∷ []

abbrev text : List ℕ
text = b'v' ∷ b'w' ∷ []

abbrev idle : Producer ℕ ℕ
idle = record { source = fresh 8192 512 0; outside = record boundary { ochars = λ j. 0 } }

abbrev staged : Producer ℕ ℕ
staged = record idle { source = record (idle.source) { key_staging = λ j. get_or key j 0 } }

abbrev number : Pointee ℕ
number = record { as_double = 0; as_long = pos 0 }

staged-IsReady : IsReady key text staged
staged-IsReady = record {
  status_okay = refl;
  staged = (refl, refl);
  key_text = omega arith;
  key_some = omega arith;
  key_fits = omega arith;
  text_text = omega arith;
  text_some = omega arith;
  unused = refl;
  small = omega arith;
  c_room = omega arith;
  o_room = omega arith;
}

idle-IsUnkeyed : IsUnkeyed idle
idle-IsUnkeyed = record { status_okay = refl; unstaged = refl }

abbrev finished : Producer ℕ ℕ
finished = final key text staged staged-IsReady number (λ c. c) latin_1 latin_1-IsBytewise

enqueue_ds_node-keyed_example :
    (enqueue_ds_node latin_1 staged (some (number, text)) scalar_string
      ≡ some (warn_node_produced, finished))
    × StringAt finished.outside.ochars 0 (map (λ c. c) key)
    × StringAt finished.outside.ochars (length key + 1) (map (λ c. c) text)
enqueue_ds_node-keyed_example =
    enqueue_ds_node-keyed key text staged staged-IsReady number (λ c. c) latin_1 latin_1-IsBytewise

enqueue_ds_node-unkeyed_text_example :
    enqueue_ds_node latin_1 idle (some (number, text)) scalar_string
    ≡ some (
      warn_node_produced,
      unkeyed latin_1 idle
          (unkeyed_node latin_1 idle scalar_string idle.source.node.depth)
          (put_char_in idle.outside text (length text + 1)).1,
    )
enqueue_ds_node-unkeyed_text_example =
    enqueue_ds_node-unkeyed_text latin_1 idle number text idle-IsUnkeyed refl (omega arith)

-- Two entries, the second with the key and the text of the first the other way round.
abbrev entries : List (Entry ℕ)
entries = (number, key, text) ∷ (number, text, key) ∷ []

produce_entry-Produces_example : Produces (λ c. c) latin_1 latin_1-IsBytewise entries idle
produce_entry-Produces_example =
    produce_entry-Produces (λ c. c) latin_1 latin_1-IsBytewise entries idle refl (omega arith)
      (
        (omega arith, tt),
        omega arith,
        omega arith,
        (omega arith, (omega arith, tt)),
        omega arith,
        omega arith,
        omega arith,
        (
          (omega arith, (omega arith, tt)),
          omega arith,
          omega arith,
          (omega arith, tt),
          omega arith,
          omega arith,
          omega arith,
          tt,
        ),
      )
