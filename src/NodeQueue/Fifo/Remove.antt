-- ===== src/NodeQueue/Fifo/Remove.antt =====
-- dequeue_from_node_queue against the contents of the queue.
use oly.Prelude.{
  ℕ, zero, suc, ◌+◌, ◌≤◌, ◌<◌, ◌≡◌, ◌≢◌, ◌⊎◌, inl, inr, refl, none, some, [], ◌∷◌, arith, ap, ◌∙◌,
  sym, length,
}
use mathlib.Core.Path.{subst}
use oly.Status.{Status, okay, err_node_queue_empty}
use oly.Node.{Node, copy_node, reset_node}
use oly.NodeQueue.{NodeQueue, Chars, set_slot, dequeue_from_node_queue, next_out, dequeued}
use oly.NodeQueue.Ring.{
  count, slot, count_bounded, slot_ne, next_out-count, next_out_empty_at_end, items, items_cong,
  items-slot,
}
use oly.NodeQueue.Keeps.{Stamp, stamp, stamps, contents, IsRing}

pub add_one : (k : ℕ) → k + 1 ≡ suc k
add_one k = omega arith

length-items : (n o : ℕ) (f : ℕ → Stamp) (j k : ℕ) → length (items n o f j k) ≡ k
unfolding items
length-items n o f j zero = refl
length-items n o f j (suc k) = ap suc (length-items n o f (suc j) k)

module _ {D : Type 0} where
  stamps-reset :
      (q : NodeQueue D) (j : ℕ)
      → j ≢ q.out_at
      → stamps (set_slot q q.out_at (reset_node (q.slots q.out_at))) j ≡ stamps q j
  unfolding set_slot
  stamps-reset q j ne = ground arith

  -- The queue after a dequeue that moved `out` to `o`.
  abbrev pub left : NodeQueue D → ℕ → NodeQueue D
  left q o = record (set_slot q q.out_at (reset_node (q.slots q.out_at))) { out_at = o }

  items-left :
      (q : NodeQueue D) (k : ℕ)
      → IsRing q
      → k < q.capacity
      → items q.capacity q.out_at (stamps q) 1 k
        ≡ items q.capacity
            (slot q.capacity q.out_at 1)
            (stamps (left q (slot q.capacity q.out_at 1)))
            0
            k
  items-left q k v less =
      items_cong q.capacity q.out_at (stamps q) (stamps (left q (slot q.capacity q.out_at 1))) 1 k
        (λ m lo hi. sym (
          stamps-reset q (slot q.capacity q.out_at m)
            (slot_ne q.capacity q.out_at m v.out_bounded (omega arith) (omega arith))))
      ∙ sym (
          items-slot q.capacity q.out_at (stamps (left q (slot q.capacity q.out_at 1))) 0 k
            v.out_bounded (omega arith))

  contents-left :
      (q : NodeQueue D)
      → IsRing q
      → count q.capacity q.in_at (slot q.capacity q.out_at 1) + 1
        ≡ count q.capacity q.in_at q.out_at
      → contents q
        ≡ stamps q (slot q.capacity q.out_at 1) ∷ contents (left q (slot q.capacity q.out_at 1))
  unfolding contents set_slot items
  contents-left q v less =
      let k = count q.capacity q.in_at (slot q.capacity q.out_at 1) in
      ap (items q.capacity q.out_at (stamps q) 0) (sym less ∙ add_one k)
      ∙ ap (λ l. stamps q (slot q.capacity q.out_at 1) ∷ l)
          (items-left q k v (
            omega
              (arith, less, count_bounded q.capacity q.in_at q.out_at v.in_bounded v.out_bounded)))

  pub dequeue_empty :
      (q : NodeQueue D) (out : Node Chars D)
      → next_out q.capacity q.in_at q.out_at ≡ none
      → dequeue_from_node_queue q out ≡ dequeued err_node_queue_empty q q.out_at out
  unfolding dequeue_from_node_queue
  dequeue_empty q out e = rw (e, dequeue_from_node_queue) refl

  pub dequeue_step :
      (q : NodeQueue D) (out : Node Chars D) (o : ℕ)
      → next_out q.capacity q.in_at q.out_at ≡ some o
      → dequeue_from_node_queue q out ≡ dequeued okay q o out
  unfolding dequeue_from_node_queue
  dequeue_step q out o e = rw (e, dequeue_from_node_queue) refl

  -- A node that has all that copy_node is to copy of another one.
  pub record SameNode (n node : Node Chars D) : Type 0 where
    pub depth : node.depth ≡ n.depth
    pub node_id : node.node_id ≡ n.node_id
    pub key : node.key ≡ n.key
    pub parent_node : node.parent_node ≡ n.parent_node
    pub value : node.value ≡ n.value

  -- What a dequeue may give.
  abbrev pub Removed : NodeQueue D → Status × NodeQueue D × Node Chars D → Type 0
  Removed q (s, r, node) =
      ((contents q ≡ []) × (s ≡ err_node_queue_empty) × (contents r ≡ []) × IsRing r)
      ⊎ ((contents q ≡ stamp node ∷ contents r)
          × (s ≡ okay)
          × IsRing r
          × SameNode (q.slots (slot q.capacity q.out_at 1)) node)

  pub contents_none : (q : NodeQueue D) → count q.capacity q.in_at q.out_at ≡ 0 → contents q ≡ []
  unfolding contents items
  contents_none q e = ap (items q.capacity q.out_at (stamps q) 0) e

  Removed-empty :
      (q : NodeQueue D) (out : Node Chars D)
      → IsRing q
      → count q.capacity q.in_at q.out_at ≡ 0
      → Removed q (dequeued err_node_queue_empty q q.out_at out)
  unfolding set_slot
  Removed-empty q out v e = inl (
    contents_none q e,
    refl,
    contents_none (left q q.out_at) e,
    record { in_bounded = v.in_bounded; out_bounded = v.out_bounded },
  )

  Removed-step :
      (q : NodeQueue D) (out : Node Chars D)
      → IsRing q
      → slot q.capacity q.out_at 1 ≤ q.capacity
      → count q.capacity q.in_at (slot q.capacity q.out_at 1) + 1
        ≡ count q.capacity q.in_at q.out_at
      → Removed q (dequeued okay q (slot q.capacity q.out_at 1) out)
  unfolding set_slot copy_node
  Removed-step q out v h less = inr (
    contents-left q v less,
    refl,
    record { in_bounded = v.in_bounded; out_bounded = h },
    record { depth = refl; node_id = refl; key = refl; parent_node = refl; value = refl },
  )

  -- On a queue with both indices within the array, and not both at its end: the oldest node is given
  -- out, with the depth, the id, the key, the parent and the value of its slot, and leaves the queue,
  -- with OLY_OKAY; or the queue is empty, which is reported, and stays empty.
  pub dequeue-contents :
      (q : NodeQueue D) (out : Node Chars D)
      → IsRing q
      → (q.in_at ≢ q.capacity) ⊎ (q.out_at ≢ q.capacity)
      → Removed q (dequeue_from_node_queue q out)
  dequeue-contents q out v ne =
      elim (next_out-count q.capacity q.in_at q.out_at v.in_bounded v.out_bounded ne) [
        | inl empty ↦
            subst (λ r. Removed q r) (sym (dequeue_empty q out empty.0))
              (Removed-empty q out v empty.1)
        | inr more ↦
            subst (λ r. Removed q r) (sym (dequeue_step q out (slot q.capacity q.out_at 1) more.0))
              (Removed-step q out v more.1 more.2)
      ]

  length-contents : (q : NodeQueue D) → length (contents q) ≡ count q.capacity q.in_at q.out_at
  unfolding contents
  length-contents q =
      length-items q.capacity q.out_at (stamps q) 0 (count q.capacity q.in_at q.out_at)

  length-left : (q : NodeQueue D) → q.in_at ≡ q.capacity → length (contents (left q 0)) ≡ q.capacity
  unfolding set_slot count
  length-left q i = ground (arith, i, length-contents (left q 0))

  -- Where both indices stand at the end of the array the queue is empty, yet a dequeue has the
  -- status OLY_OKAY, gives out what slot 0 holds, and leaves a queue that counts as full.
  dequeue_stale :
      (q : NodeQueue D) (out : Node Chars D)
      → q.in_at ≡ q.capacity
      → q.out_at ≡ q.capacity
      → let (s, r, node) = dequeue_from_node_queue q out in
        (contents q ≡ [])
        × (s ≡ okay)
        × (stamp node ≡ stamps q 0)
        × (length (contents r) ≡ q.capacity)
  unfolding copy_node count
  dequeue_stale q out i o =
      rw
        (dequeue_step q out 0 (
          ap (λ k. next_out q.capacity k q.out_at) i
          ∙ ap (next_out q.capacity q.capacity) o
          ∙ (next_out_empty_at_end q.capacity).1))
        (contents_none q (ground (arith, i, o)), refl, refl, length-left q i)
