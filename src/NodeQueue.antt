-- ===== src/NodeQueue.antt =====
-- The node queue of src/node/node_queue.c: a ring of nodes, a stack of the collections that are
-- open, and a string buffer for the keys and strings. `in` and `out` are indices from
-- `queue_start`, and `queue_end` is `capacity`; the slots are those from 0 to `capacity`.
pub mod Ring
pub mod Keeps
pub mod Fifo
pub mod Keys
mod Tests
use oly.Prelude.{
  ℕ, zero, suc, ◌+◌, ◌-◌, ◌/◌, Bool, true, false, ◌&&◌, ◌||◌, not, Option, none, some, List, [],
  ◌∷◌, ltb, leb, ◌==◌, if◌then◌else◌, Memory, length,
}
use oly.Status.{Status, is_okay, okay, err_node_queue_full, err_node_queue_empty}
use oly.Tag.{
  TagType, NodeValue, Union, string_value, float_value, int_value, uint_value, bool_value,
  scalar_string, complex_map, complex_sequence,
}
use oly.StringBuffer.{
  StringBuffer, Enqueued, reserve_string_buffer, enqueue_to_string_buffer, open_string_buffer,
}
use oly.Node.{Node, copy_node, reset_node}
use oly.Node.Heap.{Heap, push_node, pop_node}

-- A pointer to OChar: a string of the caller, a place in the string buffer, or the local `result`
-- that no call has set.
pub data Chars : Type 0 where
  outside : List ℕ → Chars
  inside : ℕ → Chars
  unset : Chars

pub record NodeQueue (D : Type 0) : Type 0 where
  pub slots : ℕ → Node Chars D
  pub capacity : ℕ
  pub in_at : ℕ
  pub out_at : ℕ
  pub stack : Option ℕ
  pub heap : Heap Chars D
  pub strings : StringBuffer

-- Where `q->in` goes, or `none` for OLY_ERR_NODE_QUEUE_FULL. The arguments are `queue_end`, `in`
-- and `out`.
unfoldable pub next_in : ℕ → ℕ → ℕ → Option ℕ
next_in n i o =
    if (leb o i && ltb i n) || (ltb i o && not (i + 1 == o))
    then some (i + 1)
    else (if i == n && not (o == 0) then some 0 else none)

-- Where `q->out` goes, or `none` for OLY_ERR_NODE_QUEUE_EMPTY.
unfoldable pub next_out : ℕ → ℕ → ℕ → Option ℕ
next_out n i o =
    if ltb o i || (ltb i o && ltb o n) then some (o + 1) else (if o == n then some 0 else none)

-- How a call ends: the status and the queue; `none` is an access that C leaves undefined or an
-- assertion that fails.
abbrev pub Ended : Type 0 → Type 0
Ended D = Option (Status × NodeQueue D)

abbrev pub is_collection : TagType → Bool
is_collection complex_sequence = true
is_collection complex_map = true
is_collection _ = false

abbrev pub is_string : TagType → Bool
is_string scalar_string = true
is_string _ = false

module _ {D : Type 0} where
  unfoldable pub set_slot : NodeQueue D → ℕ → Node Chars D → NodeQueue D
  set_slot q i n = record q { slots = λ j. if j == i then n else q.slots j }

  -- `HANDLE_STATUS_AND_RETURN` and what follows it.
  unfoldable pub and_then : Ended D → (NodeQueue D → Ended D) → Ended D
  and_then none k = none
  and_then (some (s, q)) k = if is_okay s then k q else some (s, q)

  -- `if (q->in->depth > prev->depth)`
  unfoldable pub open_collection : NodeQueue D → ℕ → Ended D
  open_collection q prev =
      if ltb (q.slots prev).depth (q.slots q.in_at).depth
      then (let (h, top, n) = push_node q.heap q.stack (q.slots q.in_at) in
          some (okay, record (set_slot q q.in_at n) { heap = h; stack = top }))
      else some (okay, q)

  -- One round of the loop below.
  abbrev pub pop_once : NodeQueue D → ℕ → Ended D
  pop_once q prev = elim (pop_node q.heap q.stack) [
    | none ↦ none
    | some (s, top, popped) ↦ some (
      s,
      record (set_slot q prev (record (q.slots prev) { collection_end = true })) { stack = top },
    )
  ]

  -- `while (q->in->depth < depth)`, by the rounds that are left.
  unfoldable pub close_collections : ℕ → NodeQueue D → ℕ → Ended D
  close_collections zero q prev = some (okay, q)
  close_collections (suc rounds) q prev =
      and_then (pop_once q prev) (λ r. close_collections rounds r prev)

  -- `q->stack->parent_node`
  abbrev pub parent_of : Option (Node Chars D) → Option (Option ℕ)
  parent_of none = none
  parent_of (some n) = some n.parent_node

  abbrev pub stack_parent : NodeQueue D → Option (Option ℕ)
  stack_parent q = elim q.stack [ none ↦ none | some p ↦ parent_of (q.heap.cell p) ]

  unfoldable pub set_parent : NodeQueue D → Ended D
  set_parent q =
      let n = q.slots q.in_at in
      if is_collection n.value.type
      then (elim (stack_parent q) [
        | none ↦ none
        | some p ↦ some (okay, set_slot q q.in_at (record n { parent_node = p }))
      ])
      else some (okay, set_slot q q.in_at (record n { parent_node = q.stack }))

-- The string at a place of the buffer, up to its terminator; the fuel is the cells before
-- `buffer_end`, which holds one.
unfoldable pub string_at : Memory → ℕ → ℕ → List ℕ
string_at m p zero = []
string_at m p (suc fuel) =
    let rest = string_at m (p + 1) fuel in if m p == 0 then [] else m p ∷ rest

abbrev pub chars_of : StringBuffer → Chars → Option (List ℕ)
chars_of b (outside s) = some s
chars_of b (inside p) = some (string_at b.memory p (b.buffer_end - p))
chars_of b unset = none

abbrev pub place : Option ℕ → Chars
place none = unset
place (some p) = inside p

-- `reserve_string_buffer`, its return on a bad status, `enqueue_to_string_buffer`: the status, the
-- buffer, and `result` where the second call was made.
abbrev pub enqueue_now : StringBuffer → List ℕ → Option (Status × StringBuffer × Option Chars)
enqueue_now b s = elim (enqueue_to_string_buffer b s) [
  | none ↦ none
  | some e ↦ some (e.status, e.buffer, some (place e.result))
]

unfoldable pub store_string :
    StringBuffer → ℕ → List ℕ → Option (Status × StringBuffer × Option Chars)
store_string b size s = elim (reserve_string_buffer b size) [
  | none ↦ none
  | some (status, c) ↦ elim (is_okay status) [
    | true ↦ enqueue_now c s
    | false ↦ some (status, c, none)
  ]
]

module _ {D : Type 0} where
  abbrev pub with_key : NodeQueue D → Option Chars → NodeQueue D
  with_key q none = q
  with_key q (some p) = set_slot q q.in_at (record (q.slots q.in_at) { key = some p })

  -- The key is set before the status of the enqueue is looked at.
  abbrev pub key_stored : NodeQueue D → Option (Status × StringBuffer × Option Chars) → Ended D
  key_stored q none = none
  key_stored q (some (s, b, p)) = some (s, with_key (record q { strings = b }) p)

  abbrev pub store_key_of : NodeQueue D → Option (List ℕ) → Ended D
  store_key_of q none = none
  store_key_of q (some s) = key_stored q (store_string q.strings (length s + 2) s)

  unfoldable pub store_key : NodeQueue D → Ended D
  store_key q = elim ((q.slots q.in_at).key) [
    | none ↦ some (okay, q)
    | some k ↦ store_key_of q (chars_of q.strings k)
  ]

  abbrev pub with_string : NodeQueue D → Option Chars → NodeQueue D
  with_string q none = q
  with_string q (some p) = set_slot q q.in_at (record (q.slots q.in_at) {
    value = record { value = string_value (some p); type = (q.slots q.in_at).value.type };
  })

  -- The value is set behind the status.
  abbrev pub string_stored : NodeQueue D → Option (Status × StringBuffer × Option Chars) → Ended D
  string_stored q none = none
  string_stored q (some (s, b, p)) =
      some (
        s,
        if is_okay s then with_string (record q { strings = b }) p else record q { strings = b },
      )

  abbrev pub store_value_of : NodeQueue D → Option (List ℕ) → Ended D
  store_value_of q none = none
  store_value_of q (some s) = string_stored q (store_string q.strings (length s) s)

  -- The pointer in a value; another member, or NULL, is no string to measure.
  abbrev pub pointer_of : StringBuffer → Union Chars D → Option (List ℕ)
  pointer_of b (string_value (some p)) = chars_of b p
  pointer_of b _ = none

  unfoldable pub store_value : NodeQueue D → Ended D
  store_value q =
      let v = (q.slots q.in_at).value in
      if is_string v.type then store_value_of q (pointer_of q.strings v.value) else some (okay, q)

  -- `enqueue_to_node_queue` behind the step of `in` and the copy; `prev` is the old `in`.
  unfoldable pub place_node : NodeQueue D → ℕ → Ended D
  place_node q prev = and_then (open_collection q prev) λ q.
      and_then (close_collections ((q.slots prev).depth - (q.slots q.in_at).depth) q prev)
        λ q. and_then (set_parent q) λ q. and_then (store_key q) store_value

  unfoldable pub enqueue_to_node_queue : NodeQueue D → Node Chars D → Ended D
  enqueue_to_node_queue q n = elim (next_in q.capacity q.in_at q.out_at) [
    | none ↦ some (err_node_queue_full, q)
    | some i ↦ place_node (set_slot (record q { in_at = i }) i (copy_node n (q.slots i))) q.in_at
  ]

  -- The status, the queue and `*node_out`. The copy and the reset are made in any case.
  abbrev pub dequeued :
      Status → NodeQueue D → ℕ → Node Chars D → Status × NodeQueue D × Node Chars D
  dequeued s q o out = (
    s,
    record (set_slot q q.out_at (reset_node (q.slots q.out_at))) { out_at = o },
    copy_node (q.slots o) out,
  )

  unfoldable pub dequeue_from_node_queue :
      NodeQueue D → Node Chars D → Status × NodeQueue D × Node Chars D
  dequeue_from_node_queue q out = elim (next_out q.capacity q.in_at q.out_at) [
    | none ↦ dequeued err_node_queue_empty q q.out_at out
    | some o ↦ dequeued okay q o out
  ]

  -- `open_node_queue`: `size` is the configured size in bytes, `node_size` is sizeof(OlyNode), and
  -- the slots are what `omalloc` returns.
  unfoldable pub open_node_queue : ℕ → ℕ → (ℕ → Node Chars D) → Heap Chars D → Memory → NodeQueue D
  open_node_queue size node_size fresh heap memory = record {
    slots = fresh;
    capacity = size / node_size;
    in_at = 0;
    out_at = 0;
    stack = none;
    heap = heap;
    strings = open_string_buffer size memory;
  }
