-- ===== src/Node/Stack.antt =====
-- The stack of nodes: what push_node and pop_node do to the chain of parents.
use oly.Prelude.{ℕ, ◌<◌, ◌≡◌, refl, Option, none, some, List, [], ◌∷◌, arith}
use oly.Status.{okay}
use oly.Node.{Node, copy_node, new_oly_node}
use oly.Node.Heap.{Heap, alloc, linked, push_node, pop_node}

module _ {P D : Type 0} where
  -- From the stack pointer the parents lead through the nodes, the top first, to NULL.
  abbrev pub Chain : Heap P D → Option ℕ → List (Node P D) → Type 0
  Chain h stack [] = stack ≡ none
  Chain h stack (n ∷ ns) =
      (p : ℕ) × (stack ≡ some p) × (h.cell p ≡ some n) × (p < h.next) × Chain h n.parent_node ns

  Chain-alloc :
      (h : Heap P D) (m : Node P D) (stack : Option ℕ) (ns : List (Node P D))
      → Chain h stack ns
      → Chain (alloc h m) stack ns
  unfolding alloc
  Chain-alloc h m stack [] c = c
  Chain-alloc h m stack (n ∷ ns) c =
      (c.0, c.1, ground arith, omega arith, Chain-alloc h m n.parent_node ns c.4)

  -- The node that a push stores.
  abbrev pub pushed : Option ℕ → Node P D → Node P D
  pushed stack n = copy_node (linked stack n) new_oly_node

  -- A push puts a copy of the node, linked to the old top, on the chain. On the empty stack the
  -- node keeps the parent it has, which must be NULL for the chain to end there.
  Chain-push_node :
      (h : Heap P D) (stack : Option ℕ) (n : Node P D) (ns : List (Node P D))
      → Chain h stack ns
      → (stack ≡ none → n.parent_node ≡ none)
      → let (g, top, m) = push_node h stack n in Chain g top (pushed stack n ∷ ns)
  unfolding push_node copy_node
  Chain-push_node h none n ns c e = (
    h.next,
    refl,
    ground arith,
    omega arith,
    rw (e refl) (Chain-alloc h (pushed none n) none ns c),
  )
  Chain-push_node h (some p) n ns c e =
      (h.next, refl, ground arith, omega arith, Chain-alloc h (pushed (some p) n) (some p) ns c)

  -- A pop takes the top off a chain of two nodes or more, returns it with OLY_OKAY, and leaves the
  -- chain of the others.
  Chain-pop_node :
      (h : Heap P D) (stack : Option ℕ) (n m : Node P D) (ns : List (Node P D))
      → Chain h stack (n ∷ m ∷ ns)
      → (pop_node h stack ≡ some (okay, n.parent_node, stack)) × Chain h n.parent_node (m ∷ ns)
  unfolding pop_node
  Chain-pop_node h stack n m ns c = (ground arith, c.4)

  -- On a stack that is not empty a pop undoes a push: it returns the pushed copy, and the stack is
  -- the old one, with its chain unchanged.
  pub pop_node-push_node :
      (h : Heap P D) (p : ℕ) (n : Node P D) (ns : List (Node P D))
      → Chain h (some p) ns
      → let (g, top, m) = push_node h (some p) n in
        (pop_node g top ≡ some (okay, some p, top)) × Chain g (some p) ns
  unfolding pop_node push_node copy_node
  pop_node-push_node h p n ns c = (ground arith, Chain-alloc h (pushed (some p) n) (some p) ns c)
