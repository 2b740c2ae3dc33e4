-- ===== src/DataSource/Produce/Faults.antt =====
-- What enqueue_ds_node makes of nodes without a key.
use oly.Prelude.{
  ℕ, suc, ◌+◌, ◌-◌, ◌≤◌, ◌<◌, ◌≡◌, ◌⊎◌, List, arith, length, refl, some, none, false, inl, inr, ◌∙◌,
}
use native.Mathlib.Decide.{dec_lt}
use oly.Prelude.Int.{pos, ◌+ℤ◌}
use oly.Status.{okay, is_okay, warn_node_produced, warn_buffer_empty}
use oly.Tag.{TagType, scalar_string, string_value, complex_map}
use oly.Node.{
  Node, Pointee, max_node_depth, descend_one_level, set_node_value, set_node_string_value,
}
use oly.Boundary.{Boundary, ToUnicode, put_char_in, get_ochar_out, string_length}
use oly.DataSource.Produce.{
  Producer, Value, enqueue_ds_node, renew, put_string, put_staged_key, put_value, set_value,
  flush_key, take_key, take_value, take_string, then_okay, complete, descended,
}

module _ {C : Type 0} where
  get_ochar_out_empty :
      (b : Boundary C)
      → b.ochars b.o_now ≡ 0
      → b.o_now ≤ b.o_end
      → get_ochar_out b
        ≡ some (record { status = warn_buffer_empty; next = none; next_len = 0; boundary = b })
  unfolding get_ochar_out string_length
  get_ochar_out_empty b stop room =
      let e : b.o_end + 1 - b.o_now ≡ suc (b.o_end - b.o_now) = omega arith in
      ground (arith, e, stop)

  put_keeps :
      (b : Boundary C) (s : List ℕ) (n : ℕ)
      → ((put_char_in b s n).1.ochars ≡ b.ochars)
        × ((put_char_in b s n).1.o_now ≡ b.o_now)
        × ((put_char_in b s n).1.o_end ≡ b.o_end)
  unfolding put_char_in
  put_keeps b s n = ground arith

-- No key is staged, and the call is not refused at once.
pub record IsUnkeyed {D C : Type 0} (p : Producer D C) : Type 0 where
  pub status_okay : p.source.status ≡ okay
  pub unstaged : p.source.key_staging 0 ≡ 0

module _ {D C : Type 0} (to_unicode : ToUnicode C) (p : Producer D C) where
  none_put : IsUnkeyed p → put_staged_key (renew p) ≡ some (renew p)
  unfolding put_staged_key renew
  none_put u = ground (arith, u.unstaged)

  unkeyed_completes :
      (v : Value D) (t : TagType) (q : Producer D C)
      → IsUnkeyed p
      → put_value (renew p) v t ≡ some q
      → enqueue_ds_node to_unicode p v t ≡ complete to_unicode v t false q
  unfolding enqueue_ds_node then_okay is_okay
  unkeyed_completes v t q u e = ground (arith, u.status_okay, u.unstaged, none_put u, e)

  -- The node of a call without a key: its id, value and depth. The flag `has_key` is what it was.
  abbrev pub unkeyed_node : TagType → ℕ → Node ℕ D
  unkeyed_node t depth = record {
    node_id = p.source.sequence;
    value = record { value = string_value none; type = t };
    parent_node = none;
    key = none;
    collection_end = false;
    has_key = p.source.node.has_key;
    depth = depth;
  }

  abbrev pub unkeyed : Node ℕ D → Boundary C → Producer D C
  unkeyed n b = record {
    source = record (p.source) {
      node = n;
      sequence = p.source.sequence +ℤ pos 1;
      status = warn_node_produced;
    };
    outside = b;
  }

  unkeyed_text :
      (q : Pointee D) (text : List ℕ)
      → put_value (renew p) (some (q, text)) scalar_string
        ≡ some (put_string (renew p) text (length text + 1))
  unfolding put_value
  unkeyed_text q text = refl

  -- With no key staged, the status OLY_OKAY and the OChars at `o_now` used up: the string of a node is
  -- not flushed, and whether it fits the boundary or not, the call returns OLY_WARN_NODE_PRODUCED, with
  -- a null string as the value of the node and the boundary as put_char_in leaves it.
  pub enqueue_ds_node-unkeyed_text :
      (q : Pointee D) (text : List ℕ)
      → IsUnkeyed p
      → p.outside.ochars p.outside.o_now ≡ 0
      → p.outside.o_now ≤ p.outside.o_end
      → enqueue_ds_node to_unicode p (some (q, text)) scalar_string
        ≡ some (
          warn_node_produced,
          unkeyed
              (unkeyed_node scalar_string p.source.node.depth)
              (put_char_in p.outside text (length text + 1)).1,
        )
  unfolding complete set_value set_node_value take_key take_value take_string then_okay is_okay
      renew flush_key set_node_string_value
  enqueue_ds_node-unkeyed_text q text u stop room =
      unkeyed_completes (some (q, text)) scalar_string (put_string (renew p) text (length text + 1))
        u (unkeyed_text q text)
      ∙ ground (
        arith,
        u.unstaged,
        get_ochar_out_empty (put_char_in p.outside text (length text + 1)).1
            (ground (arith, put_keeps p.outside text (length text + 1), stop))
            (ground (arith, put_keeps p.outside text (length text + 1), room)),
      )

  map_put : (v : Value D) → put_value (renew p) v complex_map ≡ some (descended (renew p))
  unfolding put_value
  map_put none = refl
  map_put (some (q, s)) = refl

  -- With no key staged and the status OLY_OKAY, a map returns OLY_WARN_NODE_PRODUCED, with a node that
  -- is one level deeper, and also at the limit of the depth, where the descent is refused and the node
  -- stays as deep as it was.
  enqueue_ds_node-collection :
      IsUnkeyed p
      → ((p.source.node.depth < max_node_depth)
          × (enqueue_ds_node to_unicode p none complex_map
              ≡ some (
                warn_node_produced,
                unkeyed (unkeyed_node complex_map (p.source.node.depth + 1)) p.outside,
              )))
        ⊎ ((max_node_depth ≤ p.source.node.depth)
            × (enqueue_ds_node to_unicode p none complex_map
                ≡ some (
                  warn_node_produced,
                  unkeyed (unkeyed_node complex_map p.source.node.depth) p.outside,
                )))
  unfolding complete set_value set_node_value take_key take_value then_okay is_okay renew flush_key
      descend_one_level
  enqueue_ds_node-collection u = elim (dec_lt p.source.node.depth max_node_depth) [
    | yes lt ↦
        inl (lt, unkeyed_completes none complex_map _ u (map_put _) ∙ ground (arith, u.unstaged))
    | no ge ↦ inr (
      omega arith,
      unkeyed_completes none complex_map _ u (map_put _) ∙ ground (arith, u.unstaged),
    )
  ]
