-- ===== src/Run/Receive.antt =====
-- How the first loop of oly_run ends.
use oly.Prelude.{ℕ, zero, suc, ◌≡◌, ◌≢◌, refl, inl, inr, true, false, Bool-cases, arith, none, some}
use oly.Status.{Status, is_okay, okay, err_nodes_too_shallow}
use oly.NodeQueue.{NodeQueue, Ended, enqueue_to_node_queue}
use oly.DataSource.{collect_nodes}
use oly.Run.{
  Source, Dispatch, Outcome, out_of_fuel, undefined, returned, leaves, is_shallow, produced,
  received, dispatched, receive_loop,
}

shallow : (s : Status) → is_shallow s ≡ true → s ≡ err_nodes_too_shallow
shallow err_nodes_too_shallow e = refl
shallow _ e = absurd (cc)

not_okay : (s : Status) → is_okay s ≡ false → s ≢ okay
unfolding is_okay
not_okay okay e = absurd (cc)
not_okay _ e = ground arith

module _ {D : Type 0} where
  -- The only way on is the code for a collection that ends above the top, and every return has an
  -- error or a warning.
  abbrev pub LeavesShallow : Outcome D → Type 0
  LeavesShallow out_of_fuel = Unit
  LeavesShallow undefined = Unit
  LeavesShallow (returned s q ds) = s ≢ okay
  LeavesShallow (leaves s q ds) = s ≡ err_nodes_too_shallow

  received-LeavesShallow :
      (e : Ended D) (ds : Source D) (k : NodeQueue D → Outcome D)
      → ((q : NodeQueue D) → LeavesShallow (k q))
      → LeavesShallow (received e ds k)
  unfolding received
  received-LeavesShallow none ds k h = ground arith
  received-LeavesShallow (some (s, q)) ds k h = elim (Bool-cases (is_shallow s)) [
    | inl up ↦ rw up (shallow s up)
    | inr other ↦ elim (Bool-cases (is_okay s)) [
      | inl good ↦ rw (other, good) (h q)
      | inr bad ↦ rw (other, bad) (not_okay s bad)
    ]
  ]

  dispatched-LeavesShallow :
      (t : Status) (q : NodeQueue D) (ds : Source D) (k : NodeQueue D → Outcome D)
      → ((r : NodeQueue D) → LeavesShallow (k r))
      → LeavesShallow (dispatched t q ds k)
  unfolding dispatched
  dispatched-LeavesShallow t q ds k h = elim (Bool-cases (is_okay (produced t))) [
    | inl good ↦
        rw good (received-LeavesShallow (enqueue_to_node_queue q (collect_nodes ds)) ds k h)
    | inr bad ↦ rw bad (not_okay (produced t) bad)
  ]

  -- The first loop goes on to the sending only where an enqueue reported OLY_ERR_NODES_TOO_SHALLOW;
  -- where it returns from oly_run instead, the status is not OLY_OKAY. So neither a full queue nor a
  -- full buffer, which the condition of the loop waits for, ever leads to the sending.
  pub receive_loop-LeavesShallow :
      (f : ℕ) (d : Dispatch D) (q : NodeQueue D) (ds : Source D)
      → LeavesShallow (receive_loop f d okay q ds)
  unfolding receive_loop
  receive_loop-LeavesShallow zero d q ds = ground arith
  receive_loop-LeavesShallow (suc f) d q ds =
      dispatched-LeavesShallow (d ds).0 q (d ds).1 (λ r. receive_loop f d okay r (d ds).1)
        (λ r. receive_loop-LeavesShallow f d r (d ds).1)
