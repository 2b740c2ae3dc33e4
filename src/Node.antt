-- ===== src/Node.antt =====
-- The nodes of src/node/node.c and src/node/pvt_node.h. A node's `parent_node` is an address of the
-- heap, NULL is `none`; `P` are pointers to OChar and `D` is double, both left open. The fields
-- `anchor`, `key_length` and `value_length` are never used by node.c and are left out.
pub mod Heap
pub mod Depth
pub mod Stack
mod Tests
use oly.Prelude.{ℕ, ◌+◌, ◌-◌, Bool, true, false, Option, none, some, ltb, ◌==◌, if◌then◌else◌}
use oly.Prelude.Int.{ℤ, pos}
use oly.Status.{
  Status, okay, warn_node_has_no_key, err_node_must_have_value, err_node_must_not_have_value,
  err_nodes_too_deep, err_nodes_too_shallow,
}
use oly.Tag.{
  TagType, NodeValue, Union, string_value, float_value, int_value, scalar_string, scalar_float,
  scalar_int, complex_map, complex_sequence, type_unset,
}

pub record Node (P D : Type 0) : Type 0 where
  pub node_id : ℤ
  pub value : NodeValue P D
  pub parent_node : Option ℕ
  pub key : Option P
  pub collection_end : Bool
  pub has_key : Bool
  pub depth : ℕ

abbrev pub max_node_depth : ℕ
max_node_depth = 16

module _ {P D : Type 0} where
  abbrev pub unset : NodeValue P D
  unset = record { value = string_value none; type = type_unset }

  -- What `new_oly_node` stores; `omalloc` exits where there is no memory.
  unfoldable pub new_oly_node : Node P D
  new_oly_node = record {
    node_id = pos 0;
    value = unset;
    parent_node = none;
    key = none;
    collection_end = false;
    has_key = false;
    depth = 0;
  }

  -- `depth` and `has_key` stay.
  unfoldable pub reset_node : Node P D → Node P D
  reset_node n = record n {
    value = unset;
    node_id = pos 0;
    key = none;
    parent_node = none;
    collection_end = false;
  }

  unfoldable pub node_has_key : Node P D → Status
  node_has_key n = if n.has_key then okay else warn_node_has_no_key

  -- `*key_out` is written only where the node has a key (`key_out = NULL` is the local pointer).
  unfoldable pub get_node_key : Node P D → Status × Option (Option P)
  unfolding node_has_key
  get_node_key n = (node_has_key n, if n.has_key then some n.key else none)

  unfoldable pub set_node_key : Node P D → Option P → Node P D
  set_node_key n key = record n { key = key }

  unfoldable pub set_node_string_value : Node P D → Option P → Node P D
  set_node_string_value n p = record n {
    value = record { value = string_value p; type = n.value.type };
  }

  unfoldable pub set_node_node_id : Node P D → ℤ → Node P D
  set_node_node_id n id = record n { node_id = id }

  unfoldable pub get_node_node_id : Node P D → ℤ
  get_node_node_id n = n.node_id

  unfoldable pub set_node_has_key : Node P D → Node P D
  set_node_has_key n = record n { has_key = true }

  unfoldable pub unset_node_has_key : Node P D → Node P D
  unset_node_has_key n = record n { has_key = false }

  -- `*parent` is the parent in either case.
  unfoldable pub get_node_parent : Node P D → Status × Option ℕ
  get_node_parent n = (if ltb n.depth 1 then err_nodes_too_shallow else okay, n.parent_node)

  -- `copy_node`, with the source first: what the destination becomes.
  unfoldable pub copy_node : Node P D → Node P D → Node P D
  copy_node source dest = record dest {
    depth = source.depth;
    node_id = source.node_id;
    key = source.key;
    parent_node = source.parent_node;
    value = source.value;
  }

  -- The test is on the promoted int, which does not wrap.
  unfoldable pub descend_one_level : Node P D → Status × Node P D
  descend_one_level n =
      if ltb max_node_depth (n.depth + 1)
      then (err_nodes_too_deep, n)
      else (okay, record n { depth = n.depth + 1 })

  unfoldable pub ascend_one_level : Node P D → Status × Node P D
  ascend_one_level n =
      if n.depth == 0 then (err_nodes_too_shallow, n) else (okay, record n { depth = n.depth - 1 })

-- What a `void *` points to, read as either of the two types that it is cast to.
pub record Pointee (D : Type 0) : Type 0 where
  pub as_double : D
  pub as_long : ℤ

module _ {P D : Type 0} where
  abbrev with_value : Node P D → Union P D → TagType → Node P D
  with_value n u t = record n { value = record { value = u; type = t } }

  abbrev pub with_type : Node P D → TagType → Node P D
  with_type n t = with_value n n.value.value t

  -- A member of the enum is never out of range, so the test that gives OLY_ERR_ILLEGAL_TAG fails.
  unfoldable pub set_node_value : Node P D → Option (Pointee D) → TagType → Status × Node P D
  set_node_value n (some p) scalar_string = (okay, with_type n scalar_string)
  set_node_value n (some p) scalar_float =
      (okay, with_value n (float_value p.as_double) scalar_float)
  set_node_value n (some p) scalar_int = (okay, with_value n (int_value p.as_long) scalar_int)
  set_node_value n (some p) t = (err_node_must_not_have_value, with_type n t)
  set_node_value n none complex_map = (okay, with_type n complex_map)
  set_node_value n none complex_sequence = (okay, with_type n complex_sequence)
  set_node_value n none t = (err_node_must_have_value, with_type n t)
