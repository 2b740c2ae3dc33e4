-- ===== src/NodeQueue/Fifo/Add.antt =====
-- enqueue_to_node_queue against the contents of the queue.
use oly.Tag.{TagType}
use oly.Prelude.{Bool, true, not, ◌&&◌}
use oly.NodeQueue.{is_collection, is_string}
use oly.Prelude.{
  ℕ, ◌+◌, ◌≤◌, ◌<◌, ◌≡◌, ◌≢◌, ◌⊎◌, inl, inr, refl, none, some, [], ◌∷◌, ◌++◌, arith, ap, ◌∙◌, sym,
}
use mathlib.Core.Path.{ap₂, subst}
use oly.Status.{Status, is_okay, okay, err_node_queue_full}
use oly.Node.{Node, copy_node}
use oly.NodeQueue.{
  NodeQueue, Chars, Ended, set_slot, place_node, enqueue_to_node_queue, next_in, and_then,
  open_collection, close_collections, set_parent, store_key, store_value,
}
use oly.NodeQueue.Ring.{count, slot, slot_injective, next_in-count, items, items_cong, items_snoc}
use oly.NodeQueue.Keeps.{
  stamp, stamps, contents, IsRing, Keeps, KeepsEnded, undefined, returned, KeepsEnded-place_node,
}

-- Neither a collection nor a string.
abbrev pub is_plain : TagType → Bool
is_plain t = not (is_collection t) && not (is_string t)

module _ {D : Type 0} where
  -- How a call that adds a node may end: with an undefined access, or with the node behind the
  -- others.
  pub data Added (q : NodeQueue D) (n : Node Chars D) : Ended D → Type 0 where
    no_result : Added q n none
    added :
        {s : Status} {r : NodeQueue D}
        → IsRing r
        → contents r ≡ contents q ++ (stamp n ∷ [])
        → Added q n (some (s, r))

  contents-Keeps : (q r : NodeQueue D) → Keeps q r → contents r ≡ contents q
  unfolding contents
  contents-Keeps q r k =
      rw (k.capacity, k.out_kept, k.in_kept)
        (items_cong q.capacity q.out_at (stamps r) (stamps q) 0 (count q.capacity q.in_at q.out_at)
          (λ m lo hi. k.stamps_kept (slot q.capacity q.out_at m)))

  -- The queue after `in` has stepped and the node is copied.
  abbrev pub stepped : NodeQueue D → Node Chars D → ℕ → NodeQueue D
  stepped q n i = set_slot (record q { in_at = i }) i (copy_node n (q.slots i))

  stamps-stepped_new :
      (q : NodeQueue D) (n : Node Chars D) (i : ℕ) → stamps (stepped q n i) i ≡ stamp n
  unfolding set_slot copy_node
  stamps-stepped_new q n i = ground arith

  stamps-stepped_old :
      (q : NodeQueue D) (n : Node Chars D) (i j : ℕ) → j ≢ i → stamps (stepped q n i) j ≡ stamps q j
  unfolding set_slot copy_node
  stamps-stepped_old q n i j ne = ground arith

  contents-stepped :
      (q : NodeQueue D) (n : Node Chars D) (i : ℕ)
      → IsRing q
      → i ≡ slot q.capacity q.out_at (count q.capacity q.in_at q.out_at + 1)
      → count q.capacity i q.out_at ≡ count q.capacity q.in_at q.out_at + 1
      → count q.capacity q.in_at q.out_at < q.capacity
      → contents (stepped q n i) ≡ contents q ++ (stamp n ∷ [])
  unfolding contents set_slot
  contents-stepped q n i v at grows free =
      let c = q.capacity in
      let o = q.out_at in
      let k = count c q.in_at o in
      let f = stamps (stepped q n i) in
      ap (items c o f 0) (grows ∙ omega arith)
      ∙ items_snoc c o f 0 k
      ∙ ap₂ ◌++◌
          (items_cong c o f (stamps q) 0 k (λ m lo hi.
            stamps-stepped_old q n i (slot c o m) (λ e.
              slot_injective c o m (k + 1) v.out_bounded (omega arith) (omega arith) (e ∙ at))))
          (ap (λ s. s ∷ [])
            (ap f (ap (slot c o) (omega arith) ∙ sym at) ∙ stamps-stepped_new q n i))

  stepped-IsRing :
      (q : NodeQueue D) (n : Node Chars D) (i : ℕ)
      → IsRing q
      → i ≤ q.capacity
      → IsRing (stepped q n i)
  unfolding set_slot
  stepped-IsRing q n i v h = record { in_bounded = h; out_bounded = v.out_bounded }

  Added-KeepsEnded :
      (q p : NodeQueue D) (n : Node Chars D) (e : Ended D)
      → IsRing p
      → contents p ≡ contents q ++ (stamp n ∷ [])
      → KeepsEnded p e
      → Added q n e
  Added-KeepsEnded q p n e v c undefined = no_result
  Added-KeepsEnded q p n e v c (returned {r = r} k) =
      added
        (record {
          in_bounded = ground (arith, k.in_kept, k.capacity, v.in_bounded);
          out_bounded = ground (arith, k.out_kept, k.capacity, v.out_bounded);
        })
        (contents-Keeps p r k ∙ c)

  enqueue_full :
      (q : NodeQueue D) (n : Node Chars D)
      → next_in q.capacity q.in_at q.out_at ≡ none
      → enqueue_to_node_queue q n ≡ some (err_node_queue_full, q)
  unfolding enqueue_to_node_queue
  enqueue_full q n e = rw (e, enqueue_to_node_queue) refl

  enqueue_free :
      (q : NodeQueue D) (n : Node Chars D) (i : ℕ)
      → next_in q.capacity q.in_at q.out_at ≡ some i
      → enqueue_to_node_queue q n ≡ place_node (stepped q n i) q.in_at
  unfolding enqueue_to_node_queue
  enqueue_free q n i e = rw (e, enqueue_to_node_queue) refl

  Added-stepped :
      (q : NodeQueue D) (n : Node Chars D) (i : ℕ)
      → IsRing q
      → i ≤ q.capacity
      → contents (stepped q n i) ≡ contents q ++ (stamp n ∷ [])
      → Added q n (place_node (stepped q n i) q.in_at)
  Added-stepped q n i v h c =
      Added-KeepsEnded q (stepped q n i) n (place_node (stepped q n i) q.in_at)
        (stepped-IsRing q n i v h) c (KeepsEnded-place_node (stepped q n i) q.in_at)

  -- On a queue with both indices within the array: a full queue refuses a node and stays as it is.
  -- Otherwise, where the call ends at all, the node is behind the others, with its id, depth and
  -- type, whatever the status of the call: also where the strings of the node found no room.
  pub enqueue-Added :
      (q : NodeQueue D) (n : Node Chars D)
      → IsRing q
      → ((count q.capacity q.in_at q.out_at ≡ q.capacity)
          × (enqueue_to_node_queue q n ≡ some (err_node_queue_full, q)))
        ⊎ ((count q.capacity q.in_at q.out_at < q.capacity) × Added q n (enqueue_to_node_queue q n))
  enqueue-Added q n v =
      elim (next_in-count q.capacity q.in_at q.out_at v.in_bounded v.out_bounded) [
        | inl full ↦ inl (full.1, enqueue_full q n full.0)
        | inr free ↦
            (let i = slot q.capacity q.in_at 1 in
              inr (
                free.4,
                subst (λ e. Added q n e) (sym (enqueue_free q n i free.0))
                    (Added-stepped q n i v free.1 (contents-stepped q n i v free.2 free.3 free.4)),
              ))
      ]

  abbrev pub parented : NodeQueue D → NodeQueue D
  parented q = set_slot q q.in_at (record (q.slots q.in_at) { parent_node = q.stack })

  store_scalar :
      (q : NodeQueue D)
      → is_plain (q.slots q.in_at).value.type ≡ true
      → (q.slots q.in_at).key ≡ none
      → and_then (set_parent q) (λ r. and_then (store_key r) store_value) ≡ some (okay, parented q)
  unfolding set_parent store_key store_value and_then set_slot is_okay
  store_scalar q t k = ground (arith, t, k)

  place_scalar :
      (q : NodeQueue D) (prev : ℕ)
      → is_plain (q.slots q.in_at).value.type ≡ true
      → (q.slots q.in_at).key ≡ none
      → (q.slots q.in_at).depth ≡ (q.slots prev).depth
      → place_node q prev ≡ some (okay, parented q)
  unfolding place_node open_collection close_collections and_then is_okay
  place_scalar q prev t k d = ground (arith, t, k, d, store_scalar q t k)

  at_scalar :
      (q : NodeQueue D) (n : Node Chars D) (i : ℕ)
      → is_plain n.value.type ≡ true
      → n.key ≡ none
      → n.depth ≡ (q.slots q.in_at).depth
      → (is_plain ((stepped q n i).slots (stepped q n i).in_at).value.type ≡ true)
        × (((stepped q n i).slots (stepped q n i).in_at).key ≡ none)
        × (((stepped q n i).slots (stepped q n i).in_at).depth
            ≡ ((stepped q n i).slots q.in_at).depth)
  unfolding set_slot copy_node
  at_scalar q n i t k d = (ground (arith, t), ground (arith, k), ground (arith, d))

  -- On a queue with both indices within the array: a scalar that is not a string, without a key and
  -- of the depth of the node before it, is stored with OLY_OKAY and the top of the stack for its
  -- parent, unless the queue is full.
  enqueue_scalar :
      (q : NodeQueue D) (n : Node Chars D)
      → IsRing q
      → count q.capacity q.in_at q.out_at < q.capacity
      → is_plain n.value.type ≡ true
      → n.key ≡ none
      → n.depth ≡ (q.slots q.in_at).depth
      → enqueue_to_node_queue q n ≡ some (okay, parented (stepped q n (slot q.capacity q.in_at 1)))
  enqueue_scalar q n v free t k d =
      elim (next_in-count q.capacity q.in_at q.out_at v.in_bounded v.out_bounded) [
        | inl full ↦ absurd (omega (arith, full.1))
        | inr step ↦
            enqueue_free q n (slot q.capacity q.in_at 1) step.0
            ∙ place_scalar (stepped q n (slot q.capacity q.in_at 1)) q.in_at
                (at_scalar q n (slot q.capacity q.in_at 1) t k d).0
                (at_scalar q n (slot q.capacity q.in_at 1) t k d).1
                (at_scalar q n (slot q.capacity q.in_at 1) t k d).2
      ]
