-- ===== src/Lifetimes/Balance.antt =====
-- Which blocks are left when what was opened is closed.
use oly.Prelude.{
  ℕ, zero, suc, ◌+◌, ◌≡◌, ◌≢◌, ◌<◌, ◌==◌, if◌then◌else◌, ◌∙◌, sym, refl, arith, ap, All, length,
  Option, none, some, List, [], ◌∷◌, ◌++◌,
}
use mathlib.Core.Path.{subst}
use oly.Resources.{Blocks, release}
use oly.Lifetimes.{
  close_rest, link, NodeQueueBlocks, free_then, open_buffer, close_string_buffer, open_queue,
  push_copy, close_stack, close_node_queue, new_source, open_source_boundary, close_oly_boundary,
  close_data_source,
}

release_head :
    (a : ℕ) (l : List ℕ) (h : Blocks)
    → release a (record h { live = a ∷ l }) ≡ some (record h { live = l })
release_head a l h = ground arith

-- The blocks that are reached from the stack by the parents, the top first.
abbrev Chain : (ℕ → Option ℕ) → Option ℕ → List ℕ → Type 0
Chain parents stack [] = stack ≡ none
Chain parents stack (a ∷ s) = (stack ≡ some a) × Chain parents (parents a) s

-- A chain of the blocks that were allocated last.
close_stack_frees :
    (s l : List ℕ) (f : ℕ) (parents : ℕ → Option ℕ) (stack : Option ℕ) (h : Blocks)
    (k : Blocks → Option Blocks)
    → Chain parents stack s
    → length s < f
    → close_stack f parents stack (record h { live = s ++ l }) k ≡ k (record h { live = l })
unfolding close_stack
close_stack_frees s l zero parents stack h k c less = absurd (omega (arith, less))
close_stack_frees [] l (suc f) parents stack h k c less = rw (c, close_stack) refl
close_stack_frees (a ∷ s) l (suc f) parents stack h k c less =
    rw (c.0, close_stack, release_head a (s ++ l) h, free_then)
      (close_stack_frees s l f parents (parents a) h k c.1 (omega arith))

-- So many pushes as there are nodes, by their own parents.
unfoldable pub pushes : List (Option ℕ) → NodeQueueBlocks → Blocks → NodeQueueBlocks × Blocks
unfolding push_copy
pushes [] q h = (q, h)
pushes (own ∷ os) q h = let (r, k) = push_copy q own h in pushes os r k

-- The queue `p` with the blocks `s` on its stack, allocated behind those of `base`.
record Stacked (p : NodeQueueBlocks) (base : Blocks) (s : List ℕ) (q : NodeQueueBlocks) (h : Blocks)
    : Type 0 where
  chain : Chain q.parents q.stack s
  fresh : All (λ a. a < h.next) s
  live : h.live ≡ s ++ base.live
  bundles : h.bundles ≡ base.bundles
  queue : q.queue ≡ p.queue
  queue_start : q.queue_start ≡ p.queue_start
  string_buffer : q.string_buffer ≡ p.string_buffer

fresh_frame : (s : List ℕ) (n : ℕ) → All (λ a. a < n) s → All (λ a. a < n + 1) s
fresh_frame [] n h = tt
fresh_frame (a ∷ s) n h = (omega (arith, h.0), fresh_frame s n h.1)

Chain_frame :
    (s : List ℕ) (n : ℕ) (parents : ℕ → Option ℕ) (stack p : Option ℕ)
    → All (λ a. a < n) s
    → Chain parents stack s
    → Chain (λ j. if j == n then p else parents j) stack s
Chain_frame [] n parents stack p h c = c
Chain_frame (a ∷ s) n parents stack p h c =
    let same : (if a == n then p else parents a) ≡ parents a = ground (arith, h.0) in
    (
      c.0,
      subst (λ t. Chain (λ j. if j == n then p else parents j) t s) (sym same)
          (Chain_frame s n parents (parents a) p h.1 c.1),
    )

push_copy-Stacked :
    (p : NodeQueueBlocks) (base : Blocks) (s : List ℕ) (q : NodeQueueBlocks) (own : Option ℕ)
    (h : Blocks)
    → Stacked p base s q h
    → link q.stack own ≡ q.stack
    → let (r, k) = push_copy q own h in Stacked p base (h.next ∷ s) r k
unfolding push_copy
push_copy-Stacked p base s q own h v linked =
    let top : (if h.next == h.next then link q.stack own else q.parents h.next) ≡ q.stack =
      ground (arith, linked) in
    record {
      chain = (
        refl,
        subst (λ t. Chain (λ j. if j == h.next then link q.stack own else q.parents j) t s)
            (sym top) (Chain_frame s h.next q.parents q.stack (link q.stack own) v.fresh v.chain),
      );
      fresh = (omega arith, fresh_frame s h.next v.fresh);
      live = ap (λ l. h.next ∷ l) v.live;
      bundles = v.bundles;
      queue = v.queue;
      queue_start = v.queue_start;
      string_buffer = v.string_buffer;
    }

-- The first of the nodes has no parent of its own where the stack is empty.
abbrev pub First : Option ℕ → List (Option ℕ) → Type 0
First stack [] = Unit
First stack (own ∷ os) = link stack own ≡ stack

First-some : (a : ℕ) (os : List (Option ℕ)) → First (some a) os
First-some a [] = tt
First-some a (own ∷ os) = refl

pushes-Stacked :
    (p : NodeQueueBlocks) (base : Blocks) (os : List (Option ℕ)) (s : List ℕ) (q : NodeQueueBlocks)
    (h : Blocks)
    → Stacked p base s q h
    → First q.stack os
    → (t : List ℕ) × (length t ≡ length os + length s)
      × Stacked p base t (pushes os q h).0 (pushes os q h).1
unfolding pushes push_copy
pushes-Stacked p base [] s q h v first = (s, omega arith, v)
pushes-Stacked p base (own ∷ os) s q h v first =
    let (r, k) = push_copy q own h in
    let (t, size, w) =
      pushes-Stacked p base os (h.next ∷ s) r k (push_copy-Stacked p base s q own h v first)
        (First-some h.next os) in
    (t, omega (arith, size), w)

-- What follows the loop, over the blocks of the queue alone.
close_rest_frees :
    (n : ℕ) (l : List ℕ) (h : Blocks) (q : NodeQueueBlocks)
    → q.queue ≡ n
    → q.queue_start ≡ n + 1
    → q.string_buffer ≡ record { strbuf = n + 1 + 1; buffer_start = n + 1 + 1 + 1 }
    → close_rest q (record h { live = (n + 1 + 1 + 1) ∷ (n + 1 + 1) ∷ (n + 1) ∷ n ∷ l })
      ≡ some (record h { live = l })
unfolding close_string_buffer
close_rest_frees n l h q a b c =
    (λ i.
      close_rest (record q { queue = a i; queue_start = b i; string_buffer = c i })
        (record h { live = (n + 1 + 1 + 1) ∷ (n + 1 + 1) ∷ (n + 1) ∷ n ∷ l }))
    ∙ ground arith

-- A node queue that is opened, gets any number of nodes on its stack, the first of which has no parent
-- of its own, and is closed with a round more than these: the parents lead through the stack, every
-- block that was allocated for the queue is freed once, and no other, with its string buffer and its
-- stack.
pub close_node_queue-open_queue :
    (parents : ℕ → Option ℕ) (os : List (Option ℕ)) (f : ℕ) (h : Blocks)
    → First none os
    → length os < f
    → let (q, k) = open_queue parents h in
      let (r, l) = pushes os q k in
      (m : Blocks) × (close_node_queue f r l ≡ some m) × (m.live ≡ h.live) × (m.bundles ≡ h.bundles)
unfolding open_queue open_buffer close_node_queue
close_node_queue-open_queue parents os f h first rounds =
    let q : NodeQueueBlocks = (open_queue parents h).0 in
    let k : Blocks = (open_queue parents h).1 in
    let (t, size, v) =
      pushes-Stacked q k os [] q k
        (record {
          chain = refl;
          fresh = tt;
          live = refl;
          bundles = refl;
          queue = refl;
          queue_start = refl;
          string_buffer = refl;
        })
        first in
    let r = (pushes os q k).0 in
    let l = (pushes os q k).1 in
    (
      record l { live = h.live },
      (λ i. close_stack f r.parents r.stack (record l { live = v.live i }) (λ h. close_rest r h))
          ∙ (close_stack_frees t k.live f r.parents r.stack l (λ h. close_rest r h) v.chain
                (omega (arith, size))
              ∙ close_rest_frees h.next h.live l r v.queue v.queue_start v.string_buffer),
      refl,
      v.bundles,
    )

-- A node with a parent of its own that comes first makes the closing free that parent, too: where it is
-- no block that is allocated, this is undefined.
close_stack_strays :
    (p f : ℕ) (q : NodeQueueBlocks) (h : Blocks)
    → q.stack ≡ none
    → p ≢ h.next
    → release p h ≡ none
    → let (r, k) = push_copy q (some p) h in close_node_queue f r k ≡ none
unfolding push_copy close_node_queue close_stack
close_stack_strays p zero q h e other gone = refl
close_stack_strays p (suc zero) q h e other gone = ground (arith, e)
close_stack_strays p (suc (suc f)) q h e other gone = ground (arith, e, gone, other)

-- A data source that is opened with a boundary and closed again: the converter is closed and its own
-- block and the two of the boundary are freed; the blocks of the staged key, of the two scalars and
-- of the node are left, and no other.
pub close_data_source-new_source :
    (converter : ℕ) (h : Blocks)
    → let (d, k) = new_source h in
      let (e, l) = open_source_boundary converter d k in
      (m : Blocks) × (close_data_source e l ≡ some m)
      × (m.bundles ≡ h.bundles)
      × (m.live ≡ d.node ∷ d.internal_scalar ∷ d.external_scalar ∷ d.key_staging ∷ h.live)
unfolding new_source open_source_boundary close_data_source close_oly_boundary
close_data_source-new_source converter h = (
  record h {
    next = h.next + 1 + 1 + 1 + 1 + 1 + 1 + 1;
    live =
        (h.next + 1 + 1 + 1 + 1) ∷ (h.next + 1 + 1 + 1) ∷ (h.next + 1 + 1) ∷ (h.next + 1) ∷ h.live;
  },
  ground arith,
  refl,
  refl,
)
