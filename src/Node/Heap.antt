-- ===== src/Node/Heap.antt =====
-- The heap of nodes, and the stack that push_node and pop_node of src/node/node.c keep in it.
use oly.Prelude.{ℕ, zero, suc, ◌+◌, true, false, Option, none, some, ◌==◌, if◌then◌else◌}
use oly.Status.{Status, okay, err_nodes_too_shallow}
use oly.Node.{Node, new_oly_node, copy_node}

-- `next` is the address that the next allocation returns.
pub record Heap (P D : Type 0) : Type 0 where
  pub cell : ℕ → Option (Node P D)
  pub next : ℕ

module _ {P D : Type 0} where
  unfoldable pub alloc : Heap P D → Node P D → Heap P D
  alloc h n = record { cell = λ a. if a == h.next then some n else h.cell a; next = h.next + 1 }

  unfoldable pub free : Heap P D → ℕ → Heap P D
  free h p = record h { cell = λ a. if a == p then none else h.cell a }

  -- The parent that `push_node` gives the node.
  unfoldable pub linked : Option ℕ → Node P D → Node P D
  linked none n = n
  linked (some p) n = record n { parent_node = some p }

  -- `push_node(&stack, node)`: the heap, the new stack, and the node, whose parent is set.
  unfoldable pub push_node : Heap P D → Option ℕ → Node P D → Heap P D × Option ℕ × Node P D
  unfolding alloc linked
  push_node h stack node =
      (alloc h (copy_node (linked stack node) new_oly_node), some h.next, linked stack node)

  -- `pop_node` with a `node_out`: the status, the stack and the old top. `none` is a null or
  -- dangling stack.
  abbrev pop_cell : ℕ → Option (Node P D) → Option (Status × Option ℕ × Option ℕ)
  pop_cell p none = none
  pop_cell p (some n) = elim n.parent_node [
    | none ↦ some (err_nodes_too_shallow, some p, none)
    | some q ↦ some (okay, some q, some p)
  ]

  unfoldable pub pop_node : Heap P D → Option ℕ → Option (Status × Option ℕ × Option ℕ)
  pop_node h none = none
  pop_node h (some p) = pop_cell p (h.cell p)

  -- `close_oly_ds_node`: the collections that the node ends go with it. `none` is an access to a
  -- freed or null node, or the end of the fuel.
  unfoldable pub close_oly_ds_node : ℕ → Heap P D → Option ℕ → Option (Heap P D)
  unfolding free
  close_oly_ds_node zero h p = none
  close_oly_ds_node (suc f) h none = none
  close_oly_ds_node (suc f) h (some p) = elim (h.cell p) [
    | none ↦ none
    | some n ↦ elim n.collection_end [
      | false ↦ some (free h p)
      | true ↦ elim (close_oly_ds_node f h n.parent_node) [ none ↦ none | some g ↦ some (free g p) ]
    ]
  ]
