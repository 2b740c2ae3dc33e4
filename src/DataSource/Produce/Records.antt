-- ===== src/DataSource/Produce/Records.antt =====
-- Keyed strings that a data source produces one after the other.
use oly.Prelude.{
  ℕ, suc, ◌+◌, ◌^◌, ◌≤◌, ◌<◌, ◌≡◌, refl, arith, none, some, List, [], ◌∷◌, map, length,
  if◌then◌else◌, ◌∙◌, get_or, Memory,
}
use oly.Prelude.Int.{pos, ◌+ℤ◌}
use oly.Status.{is_okay, okay, warn_node_produced}
use oly.Tag.{scalar_string}
use oly.Node.{Pointee}
use oly.StringBuffer.Layout.{StringAt, IsText}
use oly.Boundary.{ToUnicode}
use oly.Boundary.Transfer.{IsBytewise}
use oly.DataSource.{DataSource, stage_node_key, reset_ds_status, strncpy}
use oly.DataSource.Staging.{staged, stage_fits}
use oly.DataSource.Produce.{Producer, Result, enqueue_ds_node}
use oly.DataSource.Produce.Keyed.{IsReady, keyed_node, final, enqueue_ds_node-keyed}

-- The key of a node and the string that is its value, with what the pointer to it reads as.
abbrev pub Entry : Type 0 → Type 0
Entry D = Pointee D × List ℕ × List ℕ

StringAt-strncpy :
    (m : Memory) (s : List ℕ) (i : ℕ) (t : List ℕ)
    → ((j : ℕ) → j ≤ length s → strncpy m t (length t + 1) (i + j) ≡ get_or s j 0)
    → StringAt (strncpy m t (length t + 1)) i s
StringAt-strncpy m [] i t h = ground (arith, h 0)
StringAt-strncpy m (c ∷ cs) i t h =
    (ground (arith, h 0), StringAt-strncpy m cs (i + 1) t (λ j le. ground (arith, h (suc j))))

module _ {D C : Type 0} (f : ℕ → ℕ) (to_unicode : ToUnicode C)
    (bytewise : IsBytewise f to_unicode) where
  -- The calls for one entry: the status is reset, the key staged, and the node built.
  unfoldable pub produce_entry : Entry D → Producer D C → Result D C
  produce_entry (q, key, text) p = elim (stage_node_key (reset_ds_status p.source) (some key) 0) [
    | none ↦ none
    | some (s, d) ↦
        if is_okay s
        then enqueue_ds_node to_unicode (record p { source = d }) (some (q, text)) scalar_string
        else some (s, record p { source = d })
  ]

  -- What the calls for the entries do, one after the other: each returns OLY_WARN_NODE_PRODUCED with
  -- the node of the entry, which has the next id, and whose key and value are where the converted key
  -- and the converted text lie in the boundary.
  abbrev pub Produces : List (Entry D) → Producer D C → Type 0
  Produces [] p = Unit {0}
  Produces ((q, key, text) ∷ es) p =
      (r : Producer D C) × (produce_entry (q, key, text) p ≡ some (warn_node_produced, r))
      × (r.source.node ≡ keyed_node p 0 (length key + 1))
      × (r.source.sequence ≡ p.source.sequence +ℤ pos 1)
      × StringAt r.outside.ochars 0 (map f key)
      × StringAt r.outside.ochars (length key + 1) (map f text)
      × Produces es r

  -- What is needed of the entries: the keys and the texts are texts and not empty, a key is shorter
  -- than its area, and the boundary has room for one entry.
  abbrev pub Fit : ℕ → ℕ → ℕ → List (Entry D) → Type 0
  Fit key_size c_end o_end [] = Unit {0}
  Fit key_size c_end o_end ((q, key, text) ∷ es) =
      IsText key
      × (0 < length key)
      × (length key < key_size)
      × IsText text
      × (0 < length text)
      × (length key + length text + 3 ≤ c_end)
      × (length key + length text + 3 ≤ o_end)
      × Fit key_size c_end o_end es

  abbrev with_key : List ℕ → Producer D C → Producer D C
  with_key key p = record p { source = staged (reset_ds_status p.source) key okay }

  key_staged :
      (key : List ℕ) (ds : DataSource ℕ D)
      → StringAt (staged (reset_ds_status ds) key okay).key_staging 0 key
  unfolding strncpy reset_ds_status
  key_staged key ds = StringAt-strncpy ds.key_staging key 0 key (λ j le. ground arith)

  entry_calls :
      (q : Pointee D) (key text : List ℕ) (p : Producer D C)
      → length key < p.source.key_stage_max_length
      → produce_entry (q, key, text) p
        ≡ enqueue_ds_node to_unicode (with_key key p) (some (q, text)) scalar_string
  unfolding produce_entry reset_ds_status is_okay
  entry_calls q key text p lt =
      rw (stage_fits (reset_ds_status p.source) key refl lt, produce_entry)

  -- Strings with keys, both non-empty C strings, the key shorter than its area and both together with
  -- three cells to spare in either area of the boundary, given one after the other to a data source
  -- whose boundary is cleared and smaller than 2^64, over a converter of single characters: every call returns
  -- OLY_WARN_NODE_PRODUCED with the node of its entry, the ids count up, and the key and the text of
  -- each, converted, are where the node points.
  pub produce_entry-Produces :
      (es : List (Entry D)) (p : Producer D C)
      → p.outside.c_now ≡ 0
      → p.outside.c_end < 2 ^ 64
      → Fit p.source.key_stage_max_length p.outside.c_end p.outside.o_end es
      → Produces es p
  unfolding reset_ds_status
  produce_entry-Produces [] p unused small fit = tt
  produce_entry-Produces ((q, key, text) ∷ es) p unused small
        (key_text, key_some, lt, text_text, text_some, c_room, o_room, fit) =
      let ready : IsReady key text (with_key key p) = record {
        status_okay = refl;
        staged = key_staged key p.source;
        key_text = key_text;
        key_some = key_some;
        key_fits = omega arith;
        text_text = text_text;
        text_some = text_some;
        unused = unused;
        small = small;
        c_room = c_room;
        o_room = o_room;
      } in
      let (runs, key_at, text_at) =
        enqueue_ds_node-keyed key text (with_key key p) ready q f to_unicode bytewise in
      (
        final key text (with_key key p) ready q f to_unicode bytewise,
        entry_calls q key text p lt ∙ runs,
        refl,
        refl,
        key_at,
        text_at,
        produce_entry-Produces es (final key text (with_key key p) ready q f to_unicode bytewise)
            refl small fit,
      )
