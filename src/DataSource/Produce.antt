-- ===== src/DataSource/Produce.antt =====
-- enqueue_ds_node of src/data_source/data_source.c, which builds the next node of a data source from a
-- value, over the boundary that `ds->boundary` points to, which open_ds_boundary has opened. The
-- strings of a node are places in the OChars of that boundary. `internal_scalar` is only where
-- get_ochar_out puts its pointer, and is left out.
pub mod Keyed
pub mod Records
pub mod Faults
mod Tests
use oly.Prelude.{
  ℕ, ◌+◌, Bool, true, false, Option, none, some, List, ◌==◌, if◌then◌else◌, write, length, Memory,
}
use oly.Prelude.Int.{pos, ◌+ℤ◌}
use oly.Status.{Status, is_okay, okay, warn_node_produced, warn_boundary_reset}
use oly.Tag.{TagType, scalar_string, complex_map, complex_sequence}
use oly.Node.{
  Node, Pointee, reset_node, set_node_node_id, set_node_has_key, set_node_key, set_node_value,
  set_node_string_value, descend_one_level,
}
use oly.NodeQueue.{is_string, is_collection}
use oly.Boundary.{
  open_oly_boundary, Boundary, ToUnicode, OCharOut, put_char_in, flush_inbound, get_ochar_out,
  string_length, cells,
}
use oly.DataSource.{DataSource}

pub record Producer (D C : Type 0) : Type 0 where
  pub source : DataSource ℕ D
  pub outside : Boundary C

-- What a `void *` points to: a number, or the characters before a terminator, by the cast.
abbrev pub Value : Type 0 → Type 0
Value D = Option (Pointee D × List ℕ)

abbrev pub pointee : {D : Type 0} → Value D → Option (Pointee D)
pointee none = none
pointee (some (p, s)) = some p

-- How a call ends: the status that is returned and what it leaves; `none` is an access that C leaves
-- undefined.
abbrev pub Result : Type 0 → Type 0 → Type 0
Result D C = Option (Status × Producer D C)

abbrev pub is_reset : Status → Bool
is_reset warn_boundary_reset = true
is_reset _ = false

-- The status that stays of `get_ochar_out`.
abbrev pub kept : Status → Status
kept s = if is_reset s then s else okay

module _ {D C : Type 0} where
  abbrev pub with_status : Producer D C → Status → Producer D C
  with_status p s = record p { source = record (p.source) { status = s } }

  abbrev pub with_node : Producer D C → Node ℕ D → Producer D C
  with_node p n = record p { source = record (p.source) { node = n } }

  -- `HANDLE_STATUS_AND_RETURN(ds->status)` and what follows it.
  unfoldable pub then_okay : Producer D C → (Producer D C → Result D C) → Result D C
  then_okay p k = if is_okay p.source.status then k p else some (p.source.status, p)

  -- `reset_node`, and the id, which is taken from the sequence.
  unfoldable pub renew : Producer D C → Producer D C
  unfolding reset_node set_node_node_id
  renew p = record p {
    source = record (p.source) {
      node = set_node_node_id (reset_node p.source.node) p.source.sequence;
      sequence = p.source.sequence +ℤ pos 1;
      status = okay;
    };
  }

  -- `*(ds->key_staging) != '\0'`
  abbrev pub is_staged : Producer D C → Bool
  is_staged p = if p.source.key_staging 0 == 0 then false else true

  abbrev pub put_string : Producer D C → List ℕ → ℕ → Producer D C
  put_string p s n =
      let (t, b) = put_char_in p.outside s n in
      record { source = record (p.source) { status = t }; outside = b }

  -- The key that is staged goes to the boundary; the cells of `key_staging` are those up to
  -- `key_stage_max_length`.
  unfoldable pub put_staged_key : Producer D C → Option (Producer D C)
  unfolding set_node_has_key
  put_staged_key p =
      if is_staged p
      then (elim (string_length p.source.key_staging 0 (p.source.key_stage_max_length + 1)) [
        | none ↦ none
        | some l ↦ some (
            put_string (with_node p (set_node_has_key p.source.node))
              (cells p.source.key_staging 0 l) l)
      ])
      else some p

  -- The switch: a string goes to the boundary with its terminator, a collection descends.
  abbrev pub descended : Producer D C → Producer D C
  descended p = let (s, n) = descend_one_level p.source.node in with_status (with_node p n) s

  unfoldable pub put_value : Producer D C → Value D → TagType → Option (Producer D C)
  unfolding descend_one_level
  put_value p none scalar_string = none
  put_value p (some (q, s)) scalar_string = some (put_string p s (length s + 1))
  put_value p v complex_map = some (descended p)
  put_value p v complex_sequence = some (descended p)
  put_value p v t = some p

  -- `ds->status = set_node_value(new_node, value, type)`
  unfoldable pub set_value : Producer D C → Value D → TagType → Producer D C
  unfolding set_node_value
  set_value p v t =
      let (s, n) = set_node_value p.source.node (pointee v) t in with_status (with_node p n) s

  unfoldable pub flush_key : ToUnicode C → Bool → Producer D C → Producer D C
  flush_key to_unicode false p = p
  flush_key to_unicode true p =
      let (t, b) = flush_inbound to_unicode p.outside in
      record { source = record (p.source) { status = t }; outside = b }

  -- `get_ochar_out`, its status, and the string for the continuation.
  unfoldable pub take_string : Producer D C → (Option ℕ → Producer D C → Result D C) → Result D C
  unfolding then_okay
  take_string p k = elim (get_ochar_out p.outside) [
    | none ↦ none
    | some r ↦
        then_okay
          (record { source = record (p.source) { status = kept r.status }; outside = r.boundary })
          (k r.next)
  ]

  abbrev pub node_produced : Producer D C → Result D C
  node_produced p = some (warn_node_produced, with_status p warn_node_produced)

  -- The string of a string node.
  unfoldable pub take_value : TagType → Producer D C → Result D C
  unfolding set_node_string_value
  take_value t p =
      if is_string t
      then take_string p
          (λ s q. node_produced (with_node q (set_node_string_value q.source.node s)))
      else node_produced p

  abbrev pub cleared : Producer D C → Producer D C
  cleared p = record p {
    source = record (p.source) { key_staging = write p.source.key_staging 0 0 };
  }

  -- The key of the node, and behind it the string.
  unfoldable pub take_key : TagType → Producer D C → Result D C
  unfolding set_node_key
  take_key t p =
      if is_staged p
      then take_string (cleared p)
          (λ s q. take_value t (with_node q (set_node_key q.source.node s)))
      else take_value t (with_node p (set_node_key p.source.node none))

  -- What follows the switch.
  unfoldable pub complete : ToUnicode C → Value D → TagType → Bool → Producer D C → Result D C
  unfolding then_okay set_value flush_key
  complete to_unicode v t has_string p =
      then_okay (set_value p v t) (λ q. take_key t (flush_key to_unicode has_string q))

  unfoldable pub enqueue_ds_node : ToUnicode C → Producer D C → Value D → TagType → Result D C
  unfolding then_okay
  enqueue_ds_node to_unicode p v t = then_okay p (λ p. elim (put_staged_key (renew p)) [
    | none ↦ none
    | some q ↦ elim (put_value q v t) [
      | none ↦ none
      | some r ↦ complete to_unicode v t (is_staged p) r
    ]
  ])

-- `open_ds_boundary`, with what ICU gives for the encoding of the data source, a converter and its
-- smallest size of a character, and the memory that was allocated.
unfoldable pub open_ds_boundary :
    {D C : Type 0} → DataSource ℕ D → C → ℕ → Memory → Memory → Option (Status × Producer D C)
unfolding open_oly_boundary
open_ds_boundary ds c k fresh ofresh =
    elim (open_oly_boundary c k ds.max_buffer_size fresh ofresh) [
      | none ↦ none
      | some b ↦ some (okay, record { source = record ds { status = okay }; outside = b })
    ]
