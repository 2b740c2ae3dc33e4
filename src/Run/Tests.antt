-- ===== src/Run/Tests.antt =====
-- The theorems on oly_run at a queue of four slots.
use oly.Prelude.{ℕ, arith, false, none, some}
use oly.Prelude.Int.{pos}
use oly.Status.{Status, okay, warn_node_produced}
use oly.Tag.{scalar_int, int_value}
use oly.Node.{Node}
use oly.StringBuffer.{open_string_buffer}
use oly.NodeQueue.{NodeQueue, Chars}
use oly.NodeQueue.Keeps.{IsRing}
use oly.DataSource.{fresh}
use oly.Run.{Source, Dispatch, Wild, receive_loop}
use oly.Run.Receive.{LeavesShallow, receive_loop-LeavesShallow}

abbrev node : ℕ → Node Chars ℕ
node k = record {
  node_id = pos k;
  value = record { value = int_value (pos k); type = scalar_int };
  parent_node = none;
  key = none;
  collection_end = false;
  has_key = false;
  depth = 1;
}

abbrev wild : Wild ℕ
wild k = some (node 0)

abbrev queue : NodeQueue ℕ
queue = record {
  slots = node;
  capacity = 4;
  in_at = 3;
  out_at = 1;
  stack = none;
  heap = record { cell = λ a. none; next = 0 };
  strings = open_string_buffer 64 (λ j. 0);
}

abbrev at_end : NodeQueue ℕ
at_end = record queue { in_at = 4 }

abbrev source : Source ℕ
source = fresh 8192 512 0

abbrev dispatch : Dispatch ℕ
dispatch ds = (warn_node_produced, ds)

abbrev queue-IsRing : IsRing queue
queue-IsRing = record { in_bounded = omega arith; out_bounded = omega arith }

abbrev at_end-IsRing : IsRing at_end
at_end-IsRing = record { in_bounded = omega arith; out_bounded = omega arith }

receive_loop-LeavesShallow_example : LeavesShallow (receive_loop 5 dispatch okay queue source)
receive_loop-LeavesShallow_example = receive_loop-LeavesShallow 5 dispatch queue source
