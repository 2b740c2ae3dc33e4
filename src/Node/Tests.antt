-- ===== src/Node/Tests.antt =====
-- Runs of the nodes, and the theorems at concrete ones.
use oly.Prelude.{ℕ, ◌≡◌, ◌≤◌, ◌<◌, ◌↔◌, ◌⊎◌, refl, arith, Option, none, some, List, [], ◌∷◌}
use oly.Prelude.Int.{pos}
use oly.Status.{okay, err_nodes_too_deep}
use oly.Tag.{scalar_int}
use oly.Node.{Node, Pointee, descend_one_level}
use oly.Node.Heap.{Heap, push_node, pop_node}
use oly.Node.Stack.{Chain, pop_node-push_node}

abbrev node : Node (List ℕ) ℕ
node = record {
  node_id = pos 7;
  value = record { value = oly.Tag.int_value (pos 3); type = scalar_int };
  parent_node = none;
  key = none;
  collection_end = oly.Prelude.false;
  has_key = oly.Prelude.false;
  depth = 15;
}

abbrev child : Node (List ℕ) ℕ
child = record node { parent_node = some 0; depth = 16 }

-- The node `node` at address 0 and `child` at 1, above it.
abbrev heap : Heap (List ℕ) ℕ
heap = record {
  cell = λ a. elim a [ oly.Prelude.zero ↦ some node | oly.Prelude.suc b ↦ some child ];
  next = 2;
}

abbrev bottom : Chain heap (some 0) (node ∷ [])
bottom = (0, refl, refl, omega arith, refl)

abbrev both : Chain heap (some 1) (child ∷ node ∷ [])
both = (1, refl, refl, omega arith, bottom)

abbrev long_value : Option (Pointee ℕ)
long_value = some (record { as_double = 0; as_long = pos 3 })

a_node_of_depth_16_cannot_descend : (descend_one_level child).0 ≡ err_nodes_too_deep
unfolding descend_one_level
a_node_of_depth_16_cannot_descend = refl

pop_node-push_node_example :
    let (g, top, m) = push_node heap (some 0) node in
    (pop_node g top ≡ some (okay, some 0, top)) × Chain g (some 0) (node ∷ [])
pop_node-push_node_example = pop_node-push_node heap 0 node (node ∷ []) bottom
