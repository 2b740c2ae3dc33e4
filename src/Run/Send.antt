-- ===== src/Run/Send.antt =====
-- When the second loop of oly_run ends.
use oly.Prelude.{ℕ, suc, ◌≡◌, ◌≤◌, refl, true, false, Option, none, some, ap, ◌∙◌}
use oly.Status.{Status, okay}
use oly.Node.{Node, copy_node}
use oly.NodeQueue.{NodeQueue, Chars, set_slot, dequeue_from_node_queue, next_out}
use oly.NodeQueue.Keeps.{IsRing}
use oly.NodeQueue.Fifo.Remove.{left, dequeue_empty, dequeue_step}
use oly.DataSource.{dispense_nodes}
use oly.Run.{
  Source, Dispatch, Outcome, undefined, returned, is_queue_empty, dequeued_on, sent, send_loop,
  Wild,
}

-- In every round the pointer happens to point to a node of its own.
abbrev pub HasNodes : {D : Type 0} → Wild D → Type 0
HasNodes {D} wild = (f : ℕ) → (out : Node Chars D) × (wild f ≡ some out)

-- The node that the dequeue leaves behind the pointer: all that is to be copied, and the rest as it was.
abbrev pub written : {D : Type 0} → Option (Node Chars D) → Node Chars D → Node Chars D
written none n = n
written (some out) n = record out {
  depth = n.depth;
  node_id = n.node_id;
  key = n.key;
  parent_node = n.parent_node;
  value = n.value;
}

module _ {D : Type 0} (d : Dispatch D) (wild : Wild D) where
  pub send_stops :
      (f : ℕ) (s : Status) (q : NodeQueue D) (ds : Source D)
      → is_queue_empty s ≡ true
      → send_loop (suc f) d wild s q ds ≡ returned s q ds
  unfolding send_loop
  send_stops f s q ds e = rw (e, send_loop) refl

  -- What a round makes of the result of the dequeue.
  abbrev next_round : ℕ → Source D → Status × NodeQueue D × Node Chars D → Outcome D
  next_round f ds p = dequeued_on p ds (λ r es. send_loop f d wild (d es).0 r (d es).1)

  -- Without a node behind the pointer a round is undefined, whatever the queue holds.
  send_wild :
      (f : ℕ) (s : Status) (q : NodeQueue D) (ds : Source D)
      → is_queue_empty s ≡ false
      → wild f ≡ none
      → send_loop (suc f) d wild s q ds ≡ undefined
  unfolding send_loop sent
  send_wild f s q ds e w = rw (e, w, send_loop) refl

  send_round :
      (f : ℕ) (s : Status) (q : NodeQueue D) (ds : Source D) (out : Node Chars D)
      → is_queue_empty s ≡ false
      → wild f ≡ some out
      → send_loop (suc f) d wild s q ds ≡ next_round f ds (dequeue_from_node_queue q out)
  unfolding send_loop sent
  send_round f s q ds out e w = rw (e, w, send_loop) refl

  pub send_empty :
      (f : ℕ) (s : Status) (q : NodeQueue D) (ds : Source D)
      → HasNodes wild
      → is_queue_empty s ≡ false
      → next_out q.capacity q.in_at q.out_at ≡ none
      → send_loop (suc f) d wild s q ds ≡ returned okay (left q q.out_at) ds
  send_empty f s q ds nodes e n =
      let (out, w) = nodes f in
      send_round f s q ds out e w ∙ ap (next_round f ds) (dequeue_empty q out n)

  -- The data source after the node of a slot is handed to it.
  abbrev pub handed : ℕ → NodeQueue D → Source D → ℕ → Source D
  handed f q ds o = record ds { node = written (wild f) (q.slots o) }

  handed_lem :
      (f : ℕ) (q : NodeQueue D) (ds : Source D) (o : ℕ) (out : Node Chars D)
      → wild f ≡ some out
      → dispense_nodes ds (copy_node (q.slots o) out) ≡ handed f q ds o
  unfolding dispense_nodes copy_node
  handed_lem f q ds o out w = rw w refl

  pub send_step :
      (f : ℕ) (s : Status) (q : NodeQueue D) (ds : Source D) (o : ℕ)
      → HasNodes wild
      → is_queue_empty s ≡ false
      → next_out q.capacity q.in_at q.out_at ≡ some o
      → send_loop (suc f) d wild s q ds
        ≡ send_loop f d wild (d (handed f q ds o)).0 (left q o) (d (handed f q ds o)).1
  send_step f s q ds o nodes e n =
      let (out, w) = nodes f in
      send_round f s q ds out e w
      ∙ (ap (next_round f ds) (dequeue_step q out o n)
          ∙ ap (λ es. send_loop f d wild (d es).0 (left q o) (d es).1) (handed_lem f q ds o out w))

  -- The queue that a step leaves.
  pub left-IsRing : (q : NodeQueue D) (o : ℕ) → IsRing q → o ≤ q.capacity → IsRing (left q o)
  unfolding set_slot
  left-IsRing q o v h = record { in_bounded = v.in_bounded; out_bounded = h }
