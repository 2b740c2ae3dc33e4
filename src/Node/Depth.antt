-- ===== src/Node/Depth.antt =====
-- The depth of a node: descend_one_level, ascend_one_level and set_node_value.
use oly.Prelude.{◌≤◌, ◌<◌, ◌≡◌, ◌⊎◌, ◌↔◌, inl, inr, refl, Option, none, some, List, [], ◌∷◌, arith}
use native.Mathlib.Decide.{dec_lt}
use oly.Status.{Status, okay, err_nodes_too_deep}
use oly.Tag.{TagType, complex_map, complex_sequence, scalar_string, scalar_float, scalar_int}
use oly.Node.{Node, Pointee, max_node_depth, descend_one_level, ascend_one_level, set_node_value}

pub data Move : Type 0 where
  descend ascend : Move

-- What `set_node_value` accepts: a value with the three types that store one, and no value with the
-- two collections.
abbrev pub Accepts : {D : Type 0} → Option (Pointee D) → TagType → Type 0
Accepts (some p) t = (t ≡ scalar_string) ⊎ ((t ≡ scalar_float) ⊎ (t ≡ scalar_int))
Accepts none t = (t ≡ complex_map) ⊎ (t ≡ complex_sequence)

module _ {P D : Type 0} where
  unfoldable pub move : Move → Node P D → Status × Node P D
  move descend n = descend_one_level n
  move ascend n = ascend_one_level n

  unfoldable pub moves : List Move → Node P D → Node P D
  moves [] n = n
  moves (m ∷ ms) n = moves ms (move m n).1

  move_bounded :
      (m : Move) (n : Node P D) → n.depth ≤ max_node_depth → (move m n).1.depth ≤ max_node_depth
  unfolding move descend_one_level ascend_one_level
  move_bounded descend n h = ground arith
  move_bounded ascend n h = ground arith

  -- From a depth of at most 16 no sequence of descents and ascents leads deeper than 16.
  moves_bounded :
      (ms : List Move) (n : Node P D)
      → n.depth ≤ max_node_depth
      → (moves ms n).depth ≤ max_node_depth
  unfolding moves
  moves_bounded [] n h = h
  moves_bounded (m ∷ ms) n h = moves_bounded ms (move m n).1 (move_bounded m n h)

  -- At the limit of 16 and above a descent is refused and leaves the node as it is; otherwise it
  -- succeeds, and the ascent behind it succeeds and brings the node back.
  ascend-descend :
      (n : Node P D)
      → ((max_node_depth ≤ n.depth) × (descend_one_level n ≡ (err_nodes_too_deep, n)))
        ⊎ ((n.depth < max_node_depth)
            × ((descend_one_level n).0 ≡ okay)
            × (ascend_one_level (descend_one_level n).1 ≡ (okay, n)))
  unfolding descend_one_level ascend_one_level
  ascend-descend n = elim (dec_lt n.depth max_node_depth) [
    | yes lt ↦ inr (lt, ground arith, ground arith)
    | no ge ↦ inl (omega arith, ground arith)
  ]

  -- Exactly the accepted pairs of value and type have the status OLY_OKAY; the type is set in any
  -- case.
  set_node_value-Accepts :
      (n : Node P D) (v : Option (Pointee D)) (t : TagType)
      → (((set_node_value n v t).0 ≡ okay) ↔ Accepts v t)
        × ((set_node_value n v t).1.value.type ≡ t)
  unfolding set_node_value
  set_node_value-Accepts n (some p) scalar_string = (ground arith, refl)
  set_node_value-Accepts n (some p) _ = (ground arith, refl)
  set_node_value-Accepts n none complex_map = (ground arith, refl)
  set_node_value-Accepts n none _ = (ground arith, refl)
