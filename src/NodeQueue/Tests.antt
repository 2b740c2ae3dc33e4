-- ===== src/NodeQueue/Tests.antt =====
-- Runs of the node queue, and the theorems at concrete ones.
use oly.Prelude.{ℕ, ◌≡◌, ◌<◌, ◌⊎◌, inl, refl, arith, false, none, some, []}
use oly.Prelude.Int.{pos}
use oly.Status.{err_node_queue_full}
use oly.Tag.{scalar_int, int_value}
use oly.Node.{Node}
use oly.StringBuffer.{open_string_buffer}
use oly.NodeQueue.{NodeQueue, Chars, enqueue_to_node_queue, dequeue_from_node_queue}
use oly.Prelude.{List, ◌∷◌}
use oly.NodeQueue.{outside, store_key}
use oly.NodeQueue.Keys.{KeyStored, store_key-KeyStored}
use oly.StringBuffer.Fifo.Run.{open_string_buffer-IsFree}
use oly.StringBuffer.Layout.{IsText}
use oly.NodeQueue.Ring.{count}
use oly.NodeQueue.Keeps.{IsRing}
use oly.NodeQueue.Fifo.Add.{Added, enqueue-Added}
use oly.NodeQueue.Fifo.Remove.{Removed, dequeue-contents}

abbrev node : ℕ → Node Chars ℕ
node k = record {
  node_id = pos k;
  value = record { value = int_value (pos k); type = scalar_int };
  parent_node = none;
  key = none;
  collection_end = false;
  has_key = false;
  depth = 1;
}

-- A queue of 4 slots behind slot 0, with two nodes in slots 2 and 3.
abbrev queue : NodeQueue ℕ
queue = record {
  slots = node;
  capacity = 4;
  in_at = 3;
  out_at = 1;
  stack = none;
  heap = record { cell = λ a. none; next = 0 };
  strings = open_string_buffer 64 (λ j. 0);
}

abbrev at_end : NodeQueue ℕ
at_end = record queue { in_at = 4; out_at = 4 }

abbrev queue-IsRing : IsRing queue
queue-IsRing = record { in_bounded = omega arith; out_bounded = omega arith }

two_nodes_are_in_the_queue : count 4 3 1 ≡ 2
unfolding count
two_nodes_are_in_the_queue = refl

enqueue-Added_example :
    ((count 4 3 1 ≡ 4) × (enqueue_to_node_queue queue (node 9) ≡ some (err_node_queue_full, queue)))
    ⊎ ((count 4 3 1 < 4) × Added queue (node 9) (enqueue_to_node_queue queue (node 9)))
enqueue-Added_example = enqueue-Added queue (node 9) queue-IsRing

dequeue-contents_example : Removed queue (dequeue_from_node_queue queue (node 0))
dequeue-contents_example = dequeue-contents queue (node 0) queue-IsRing (inl (omega arith))

abbrev key : List ℕ
key = b'k' ∷ []

key-IsText : IsText key
key-IsText = ground arith

-- The node that has just come in has a key of the caller's.
abbrev keyed : NodeQueue ℕ
keyed = record queue { slots = λ j. record (node j) { key = some (outside key) } }

store_key-KeyStored_example : KeyStored keyed key [] (store_key keyed)
store_key-KeyStored_example =
    store_key-KeyStored keyed key []
      (open_string_buffer-IsFree 64 (λ j. 0) (omega arith) (omega arith)).0
      (open_string_buffer-IsFree 64 (λ j. 0) (omega arith) (omega arith)).1 refl key-IsText
      (ground arith) (omega arith)
