-- ===== src/Run/Deliver.antt =====
-- What the second loop of oly_run delivers.
use oly.Prelude.{ℕ, zero, suc, List, [], ◌∷◌}
use oly.Status.{Status}
use oly.Node.{Node}
use oly.NodeQueue.{NodeQueue, Chars}
use oly.NodeQueue.Ring.{count, items}
use oly.Run.{Source, Dispatch, Wild}
use oly.Run.Send.{written}

module _ {D : Type 0} (d : Dispatch D) (wild : Wild D) where
  -- The data source after the nodes are handed to it one by one, each followed by its dispatch
  -- function; the number is that of the rounds.
  unfoldable pub fed : ℕ → Source D → List (Node Chars D) → Source D
  fed f ds [] = ds
  fed zero ds (n ∷ ns) = ds
  fed (suc f) ds (n ∷ ns) = fed f (d (record ds { node = written (wild f) n })).1 ns

  -- The nodes in the queue, the oldest first.
  unfoldable pub queued : NodeQueue D → List (Node Chars D)
  queued q = items q.capacity q.out_at q.slots 0 (count q.capacity q.in_at q.out_at)
