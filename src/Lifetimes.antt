-- ===== src/Lifetimes.antt =====
-- What the functions that open and close allocate and free: the string buffer of
-- src/core/string_buffer.c, the node queue of src/node/node_queue.c with its stack, and the data source
-- and its boundary of src/data_source. Of each structure there are the blocks that it points to;
-- `live` has the blocks that are allocated, and the converters of ICU count as bundles.
pub mod Balance
mod Tests
use oly.Prelude.{ℕ, zero, suc, ◌+◌, ◌==◌, if◌then◌else◌, Option, none, some, List, [], ◌∷◌}
use oly.Resources.{Blocks, allocate, release, ures_close, with_bundle}

pub record StringBufferBlocks : Type 0 where
  pub strbuf : ℕ
  pub buffer_start : ℕ

-- `stack` is the copy of a node that is on top, and `parents` has the `parent_node` of the copies.
pub record NodeQueueBlocks : Type 0 where
  pub queue : ℕ
  pub queue_start : ℕ
  pub stack : Option ℕ
  pub parents : ℕ → Option ℕ
  pub string_buffer : StringBufferBlocks

pub record BoundaryBlocks : Type 0 where
  pub bind : ℕ
  pub c_start : ℕ
  pub converter : ℕ

pub record DataSourceBlocks : Type 0 where
  pub ds : ℕ
  pub locale : Option ℕ
  pub encoding : Option ℕ
  pub options : List (Option ℕ)
  pub key_staging : ℕ
  pub external_scalar : ℕ
  pub internal_scalar : ℕ
  pub boundary : Option BoundaryBlocks
  pub node : ℕ

-- `free` and `OFREE`, with what follows; `none` is a free that C leaves undefined.
abbrev pub free_then : ℕ → Blocks → (Blocks → Option Blocks) → Option Blocks
free_then a h k = elim (release a h) [ none ↦ none | some h ↦ k h ]

abbrev pub free_some_then : Option ℕ → Blocks → (Blocks → Option Blocks) → Option Blocks
free_some_then none h k = k h
free_some_then (some a) h k = free_then a h k

unfoldable pub open_buffer : Blocks → StringBufferBlocks × Blocks
open_buffer h =
    let (a, h) = allocate h in
    let (b, h) = allocate h in (record { strbuf = a; buffer_start = b }, h)

unfoldable pub close_string_buffer : StringBufferBlocks → Blocks → Option Blocks
close_string_buffer b h = free_then b.buffer_start h (λ h. release b.strbuf h)

-- With what the memory of the copies to come holds.
unfoldable pub open_queue : (ℕ → Option ℕ) → Blocks → NodeQueueBlocks × Blocks
unfolding open_buffer
open_queue parents h =
    let (q, h) = allocate h in
    let (s, h) = allocate h in
    let (b, h) = open_buffer h in
    (record { queue = q; queue_start = s; stack = none; parents = parents; string_buffer = b }, h)

-- The parent that `push_node` gives a node: the stack, or its own where there is none.
abbrev pub link : Option ℕ → Option ℕ → Option ℕ
link none own = own
link (some p) own = some p

-- `push_node` of a node with its own parent: the copy gets the parent of the node.
unfoldable pub push_copy : NodeQueueBlocks → Option ℕ → Blocks → NodeQueueBlocks × Blocks
push_copy q own h =
    let (a, h) = allocate h in
    (
      record q { stack = some a; parents = λ j. if j == a then link q.stack own else q.parents j },
      h,
    )

-- The loop of `close_node_queue`, on fuel, which is `none` where it is used up; the copies on the stack
-- have no `collection_end`, which `copy_node` does not copy.
unfoldable pub close_stack :
    ℕ → (ℕ → Option ℕ) → Option ℕ → Blocks → (Blocks → Option Blocks) → Option Blocks
close_stack zero parents stack h k = none
close_stack (suc f) parents none h k = k h
close_stack (suc f) parents (some a) h k =
    free_then a h (λ h. close_stack f parents (parents a) h k)

-- What follows the loop.
abbrev pub close_rest : NodeQueueBlocks → Blocks → Option Blocks
close_rest q h =
    free_then q.queue_start h (λ h. elim (close_string_buffer q.string_buffer h) [
      | none ↦ none
      | some h ↦ release q.queue h
    ])

unfoldable pub close_node_queue : ℕ → NodeQueueBlocks → Blocks → Option Blocks
unfolding close_stack close_string_buffer
close_node_queue f q h = close_stack f q.parents q.stack h (λ h. close_rest q h)

unfoldable pub new_source : Blocks → DataSourceBlocks × Blocks
new_source h =
    let (ds, h) = allocate h in
    let (key, h) = allocate h in
    let (external, h) = allocate h in
    let (internal, h) = allocate h in
    let (node, h) = allocate h in
    (
      record {
        ds = ds;
        locale = none;
        encoding = none;
        options = none ∷ none ∷ [];
        key_staging = key;
        external_scalar = external;
        internal_scalar = internal;
        boundary = none;
        node = node;
      },
      h,
    )

-- `open_ds_boundary`, with the converter that ICU opens.
unfoldable pub open_source_boundary : ℕ → DataSourceBlocks → Blocks → DataSourceBlocks × Blocks
open_source_boundary converter d h =
    let (bind, h) = allocate h in
    let (c, h) = allocate h in
    (
      record d { boundary = some (record { bind = bind; c_start = c; converter = converter }) },
      with_bundle (some converter) h,
    )

unfoldable pub close_oly_boundary : BoundaryBlocks → Blocks → Option Blocks
close_oly_boundary b h = elim (ures_close (some b.converter) h) [
  | none ↦ none
  | some h ↦ free_then b.c_start h (λ h. release b.bind h)
]

abbrev pub free_options : List (Option ℕ) → Blocks → (Blocks → Option Blocks) → Option Blocks
free_options [] h k = k h
free_options (o ∷ os) h k = free_some_then o h (λ h. free_options os h k)

abbrev pub close_some_boundary :
    Option BoundaryBlocks → Blocks → (Blocks → Option Blocks) → Option Blocks
close_some_boundary none h k = k h
close_some_boundary (some b) h k = elim (close_oly_boundary b h) [ none ↦ none | some h ↦ k h ]

unfoldable pub close_data_source : DataSourceBlocks → Blocks → Option Blocks
unfolding close_oly_boundary
close_data_source d h = free_options d.options h (λ h. free_some_then d.locale h (λ h.
    free_some_then d.encoding h (λ h. close_some_boundary d.boundary h (λ h. release d.ds h))))
