-- ===== src/DataSource/Produce/Keyed.antt =====
-- The node that enqueue_ds_node builds of a string with a key, over a converter of single characters.
use oly.Prelude.{
  ℕ, ◌+◌, ◌^◌, ◌≤◌, ◌<◌, ◌≡◌, List, [], ◌∷◌, map, arith, length, ◌∙◌, some, Option, none, sym,
  write, false, true,
}
use mathlib.Core.Path.{subst}
use oly.Prelude.Int.{pos, ◌+ℤ◌}
use oly.Status.{okay, is_okay, warn_node_produced}
use oly.Tag.{scalar_string, string_value}
use oly.Node.{Node, Pointee, set_node_value, set_node_has_key, set_node_key, set_node_string_value}
use oly.StringBuffer.Layout.{IsText, StringAt}
use oly.Boundary.{Boundary, ToUnicode}
use oly.Boundary.Rows.{string_length-StringAt, StringAt-first, cells-StringAt, Rows, length-map}
use oly.Boundary.Transfer.{
  IsBytewise, Carries, after_put, put_fits, after_put-Carries, after_put-Carries_long, flushed,
  after_out, flush_runs, flushed-Rows, get_ochar_out_runs,
}
use oly.DataSource.Produce.{
  Producer, Result, enqueue_ds_node, renew, put_staged_key, put_value, set_value, flush_key,
  take_key, take_value, take_string, then_okay, complete, with_node, cleared, node_produced,
}

-- A string that lies at `o_now` is taken, and the continuation gets its place.
take_string_runs :
    {D C : Type 0} (p : Producer D C) (s : List ℕ) (k : Option ℕ → Producer D C → Result D C)
    → StringAt p.outside.ochars p.outside.o_now s
    → IsText s
    → 0 < length s
    → p.outside.o_now + (length s + 1) < p.outside.o_end
    → take_string p k
      ≡ k (some p.outside.o_now) (record {
        source = record (p.source) { status = okay };
        outside = after_out p.outside (length s);
      })
unfolding take_string then_okay is_okay
take_string_runs p s k at text used room =
    rw (get_ochar_out_runs p.outside s at text used room, take_string)

-- What the call needs: a data source with the status OLY_OKAY, a staged key that is not empty and
-- fits its area, a text that is not empty, a cleared boundary of less than 2^64 bytes, and room there
-- for the key and the text with their terminators and one cell more.
pub record IsReady {D C : Type 0} (key text : List ℕ) (p : Producer D C) : Type 0 where
  pub status_okay : p.source.status ≡ okay
  pub staged : StringAt p.source.key_staging 0 key
  pub key_text : IsText key
  pub key_some : 0 < length key
  pub key_fits : length key ≤ p.source.key_stage_max_length
  pub text_text : IsText text
  pub text_some : 0 < length text
  pub unused : p.outside.c_now ≡ 0
  pub small : p.outside.c_end < 2 ^ 64
  pub c_room : length key + length text + 3 ≤ p.outside.c_end
  pub o_room : length key + length text + 3 ≤ p.outside.o_end

-- The node of a keyed string, with the places of the two strings.
abbrev pub keyed_node : {D C : Type 0} → Producer D C → ℕ → ℕ → Node ℕ D
keyed_node p key_at text_at = record {
  node_id = p.source.sequence;
  value = record { value = string_value (some text_at); type = scalar_string };
  parent_node = none;
  key = some key_at;
  collection_end = false;
  has_key = true;
  depth = p.source.node.depth;
}

module _ {D C : Type 0} (key text : List ℕ) (p : Producer D C) (ready : IsReady key text p)
    (q : Pointee D) where
  abbrev keyed : Producer D C
  keyed = record {
    source = record ((renew p).source) { node = set_node_has_key (renew p).source.node };
    outside = after_put p.outside key (length key);
  }

  key_put : put_staged_key (renew p) ≡ some keyed
  unfolding put_staged_key renew
  key_put = ground (
    arith,
    StringAt-first p.source.key_staging 0 key ready.staged ready.key_text ready.key_some,
    string_length-StringAt p.source.key_staging 0 (p.source.key_stage_max_length + 1) key
        ready.staged ready.key_text (omega (arith, ready.key_fits)),
    cells-StringAt p.source.key_staging 0 key ready.staged,
    put_fits p.outside key (length key) (omega (arith, ready.unused, ready.c_room)) ready.small,
  )

  abbrev filled : Producer D C
  filled = record keyed { outside = after_put keyed.outside text (length text + 1) }

  value_put : put_value keyed (some (q, text)) scalar_string ≡ some filled
  unfolding put_value renew
  value_put = ground (
    arith,
    put_fits keyed.outside text (length text + 1) (omega (arith, ready.unused, ready.c_room))
        ready.small,
  )

  filled-Carries : Carries (key ∷ text ∷ [] ∷ []) filled.outside
  filled-Carries =
      after_put-Carries_long keyed.outside (key ∷ []) text
        (after_put-Carries p.outside [] key
          (record {
            rows = sym ready.unused;
            bounded = omega (arith, ready.unused);
            small = ready.small;
          })
          ready.key_text (omega (arith, ready.unused, ready.c_room)))
        ready.text_text (omega (arith, ready.unused, ready.c_room))

  entered :
      (to_unicode : ToUnicode C)
      → enqueue_ds_node to_unicode p (some (q, text)) scalar_string
        ≡ complete to_unicode (some (q, text)) scalar_string true filled
  unfolding enqueue_ds_node then_okay is_okay
  entered to_unicode = ground (
    arith,
    ready.status_okay,
    StringAt-first p.source.key_staging 0 key ready.staged ready.key_text ready.key_some,
    key_put,
    value_put,
  )

  module _ (f : ℕ → ℕ) (to_unicode : ToUnicode C) (bytewise : IsBytewise f to_unicode) where
    abbrev delivered : Boundary C
    delivered = flushed f to_unicode bytewise filled.outside

    delivered-Rows :
        Rows delivered.ochars 0 filled.outside.c_now (map (map f) (key ∷ text ∷ [] ∷ []))
    delivered-Rows =
        flushed-Rows f to_unicode bytewise filled.outside (key ∷ text ∷ [] ∷ []) filled-Carries.rows

    key_delivered : StringAt delivered.ochars 0 (map f key)
    key_delivered = delivered-Rows.0

    text_delivered : StringAt delivered.ochars (length key + 1) (map f text)
    text_delivered =
        subst (λ r. StringAt delivered.ochars r (map f text)) (omega (arith, length-map f key))
          delivered-Rows.2.0

    abbrev transferred : Producer D C
    transferred = record {
      source = record ((set_value filled (some (q, text)) scalar_string).source) { status = okay };
      outside = delivered;
    }

    completed :
        complete to_unicode (some (q, text)) scalar_string true filled
        ≡ take_key scalar_string transferred
    unfolding complete then_okay is_okay set_value set_node_value flush_key
    completed = ground (
      arith,
      flush_runs f to_unicode bytewise filled.outside (omega arith)
          (omega (arith, ready.unused, ready.o_room)),
    )

    abbrev final_at : ℕ → ℕ → Producer D C
    final_at text_at o_now = record {
      source = record (p.source) {
        node = keyed_node p 0 text_at;
        key_staging = write p.source.key_staging 0 0;
        sequence = p.source.sequence +ℤ pos 1;
        status = warn_node_produced;
      };
      outside = record delivered { o_now = o_now };
    }

    abbrev pub final : Producer D C
    final = final_at (length key + 1) (length key + length text + 2)

    abbrev key_taken : Producer D C
    key_taken = record {
      source = record ((cleared transferred).source) {
        status = okay;
        node = set_node_key transferred.source.node (some 0);
      };
      outside = after_out delivered (length (map f key));
    }

    key_takes : take_key scalar_string transferred ≡ take_value scalar_string key_taken
    unfolding take_key set_value renew
    key_takes = ground (
      arith,
      StringAt-first p.source.key_staging 0 key ready.staged ready.key_text ready.key_some,
      take_string_runs (cleared transferred) (map f key)
          (λ s q. take_value scalar_string (with_node q (set_node_key q.source.node s)))
          key_delivered delivered-Rows.1 (omega (arith, length-map f key, ready.key_some))
          (omega (arith, length-map f key, ready.o_room)),
    )

    text_place : 0 + (length (map f key) + 1) ≡ length key + 1
    text_place = omega (arith, length-map f key)

    o_place :
        0 + (length (map f key) + 1) + (length (map f text) + 1) ≡ length key + length text + 2
    o_place = omega (arith, length-map f key, length-map f text)

    text_takes : take_value scalar_string key_taken ≡ some (warn_node_produced, final)
    unfolding take_value set_node_key set_node_string_value set_value set_node_value renew
        set_node_has_key
    text_takes =
        take_string_runs key_taken (map f text)
          (λ s q. node_produced (with_node q (set_node_string_value q.source.node s)))
          (subst (λ r. StringAt delivered.ochars r (map f text)) (omega (arith, length-map f key))
            text_delivered)
          delivered-Rows.2.1 (omega (arith, length-map f text, ready.text_some))
          (omega (arith, length-map f text, length-map f key, ready.o_room))
        ∙ (λ i. some (warn_node_produced, final_at (text_place i) (o_place i)))

    -- With a converter of single characters and a ready call (the status OLY_OKAY, a cleared boundary of
    -- less than 2^64 bytes, a key and a text that are non-empty C strings, the key no longer than its
    -- area, and both together with three cells to spare in either area of the boundary), OLY_WARN_NODE_PRODUCED is returned, the
    -- node has the next id, and its key and its value point to the converted key and the converted text,
    -- which lie one behind the other in the boundary; the staged key is cleared.
    pub enqueue_ds_node-keyed :
        (enqueue_ds_node to_unicode p (some (q, text)) scalar_string
          ≡ some (warn_node_produced, final))
        × StringAt final.outside.ochars 0 (map f key)
        × StringAt final.outside.ochars (length key + 1) (map f text)
    enqueue_ds_node-keyed =
        (entered to_unicode ∙ (completed ∙ (key_takes ∙ text_takes)), key_delivered, text_delivered)
