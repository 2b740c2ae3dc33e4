-- ===== src/Run.antt =====
-- oly_run of src/core/oly_run.c: the loop that takes nodes from the inbound data source to the queue,
-- and the loop that takes them to the outbound one. The function pointers of the two data sources,
-- which their formats set, are parameters. Both loops run on fuel, and each says so where it is
-- used up. The printing is left out.
pub mod Send
pub mod Receive
pub mod Deliver
mod Tests
use oly.Prelude.{ℕ, zero, suc, Bool, true, false, ◌||◌, Option, none, some, if◌then◌else◌}
use oly.Status.{
  Status, is_okay, okay, warn_node_produced, err_node_queue_full, err_node_queue_empty,
  err_buffer_overflow, err_nodes_too_shallow,
}
use oly.Node.{Node}
use oly.NodeQueue.{NodeQueue, Chars, Ended, enqueue_to_node_queue, dequeue_from_node_queue}
use oly.DataSource.{DataSource, collect_nodes, dispense_nodes}

abbrev pub is_queue_empty : Status → Bool
is_queue_empty err_node_queue_empty = true
is_queue_empty _ = false

-- The two codes that the condition of the first loop names.
abbrev pub is_room_error : Status → Bool
is_room_error err_node_queue_full = true
is_room_error err_buffer_overflow = true
is_room_error _ = false

abbrev pub is_shallow : Status → Bool
is_shallow err_nodes_too_shallow = true
is_shallow _ = false

-- `if (status == OLY_WARN_NODE_PRODUCED) status = OLY_OKAY`
abbrev pub produced : Status → Status
produced warn_node_produced = okay
produced s = s

abbrev pub Source : Type 0 → Type 0
Source D = DataSource Chars D

-- `(*ds->dispatch)(ds)`
abbrev pub Dispatch : Type 0 → Type 0
Dispatch D = Source D → Status × Source D

-- How a loop ends: without fuel, with an access that C leaves undefined or an assertion that fails,
-- with a return from `oly_run`, or by going on behind the loop.
pub data Outcome (D : Type 0) : Type 0 where
  out_of_fuel : Outcome D
  undefined : Outcome D
  returned : Status → NodeQueue D → Source D → Outcome D
  leaves : Status → NodeQueue D → Source D → Outcome D

-- What the pointer `out_node` happens to point to, by the rounds that are left.
abbrev pub Wild : Type 0 → Type 0
Wild D = ℕ → Option (Node Chars D)

module _ {D : Type 0} where
  -- `oly_receive` with its result `e`, the `break`, the return on a bad status, and the next round `k`.
  unfoldable pub received : Ended D → Source D → (NodeQueue D → Outcome D) → Outcome D
  received none ds k = undefined
  received (some (s, q)) ds k =
      if is_shallow s then leaves s q ds else (if is_okay s then k q else returned s q ds)

  -- The body of the first loop behind the call of the dispatch function, which gave `t`.
  unfoldable pub dispatched :
      Status → NodeQueue D → Source D → (NodeQueue D → Outcome D) → Outcome D
  dispatched t q ds k =
      if is_okay (produced t)
      then received (enqueue_to_node_queue q (collect_nodes ds)) ds k
      else returned (produced t) q ds

  -- The first loop; the third argument is `status`.
  unfoldable pub receive_loop : ℕ → Dispatch D → Status → NodeQueue D → Source D → Outcome D
  receive_loop zero d s q ds = out_of_fuel
  receive_loop (suc f) d s q ds =
      if is_room_error s
      then leaves s q ds
      else dispatched (d ds).0 q (d ds).1 (λ r. receive_loop f d okay r (d ds).1)

  -- What `oly_send` and its caller make of the result of the dequeue: the return, or the next round `k`.
  abbrev pub dequeued_on :
      Status × NodeQueue D × Node Chars D
      → Source D
      → (NodeQueue D → Source D → Outcome D)
      → Outcome D
  dequeued_on (t, r, n) ds k =
      if is_queue_empty t then returned okay r ds else k r (dispense_nodes ds n)

  -- `oly_send`. Nothing sets its pointer `out_node`, through which the dequeue copies a node whatever its
  -- status: the first argument is what the pointer happens to point to, a node apart from all others,
  -- or `none` for anything else.
  unfoldable pub sent :
      Option (Node Chars D)
      → NodeQueue D
      → Source D
      → (NodeQueue D → Source D → Outcome D)
      → Outcome D
  sent none q ds k = undefined
  sent (some out) q ds k = dequeued_on (dequeue_from_node_queue q out) ds k

  -- The second loop.
  unfoldable pub send_loop : ℕ → Dispatch D → Wild D → Status → NodeQueue D → Source D → Outcome D
  unfolding sent
  send_loop zero d wild s q ds = out_of_fuel
  send_loop (suc f) d wild s q ds =
      if is_queue_empty s
      then returned s q ds
      else sent (wild f) q ds (λ r es. send_loop f d wild (d es).0 r (d es).1)

  abbrev pub send_after : ℕ → Dispatch D → Wild D → Source D → Outcome D → Outcome D
  send_after fuel d wild out_ds (leaves s q ds) = send_loop fuel d wild s q out_ds
  send_after fuel d wild out_ds other = other

  -- `oly_run`, with the fuel of either loop.
  unfoldable pub oly_run :
      ℕ → ℕ → Dispatch D → Dispatch D → Wild D → NodeQueue D → Source D → Source D → Outcome D
  oly_run fuel_in fuel_out d_in d_out wild q in_ds out_ds =
      send_after fuel_out d_out wild out_ds (receive_loop fuel_in d_in okay q in_ds)
