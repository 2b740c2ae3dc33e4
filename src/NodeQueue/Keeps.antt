-- ===== src/NodeQueue/Keeps.antt =====
-- The steps of enqueue_to_node_queue behind the copy leave the ring and the stamps of the nodes
-- alone.
use oly.Prelude.{
  ℕ, zero, suc, ◌+◌, ◌-◌, ◌≤◌, ◌≡◌, inl, inr, refl, Option, none, some, List, arith, ◌∙◌, true,
  Bool-cases, ltb, length,
}
use oly.Prelude.Int.{ℤ}
use oly.Status.{Status, is_okay, okay}
use oly.Tag.{TagType, string_value}
use oly.StringBuffer.{StringBuffer}
use oly.Node.{Node}
use oly.Node.Heap.{Heap, linked, push_node, pop_node}
use oly.NodeQueue.{
  NodeQueue, Chars, Ended, set_slot, and_then, open_collection, pop_once, close_collections,
  set_parent, store_string, store_key, store_value, place_node, is_collection, is_string,
  stack_parent, with_key, key_stored, store_key_of, chars_of, with_string, string_stored,
  store_value_of, pointer_of,
}
use oly.NodeQueue.Ring.{count, items}

-- What a node keeps on its way through the queue.
abbrev pub Stamp : Type 0
Stamp = ℤ × ℕ × TagType

module _ {D : Type 0} where
  abbrev pub stamp : Node Chars D → Stamp
  stamp n = (n.node_id, n.depth, n.value.type)

  abbrev pub stamps : NodeQueue D → ℕ → Stamp
  stamps q j = stamp (q.slots j)

  -- The stamps of the nodes in the queue, the oldest first.
  unfoldable pub contents : NodeQueue D → List Stamp
  contents q = items q.capacity q.out_at (stamps q) 0 (count q.capacity q.in_at q.out_at)

  pub record IsRing (q : NodeQueue D) : Type 0 where
    pub in_bounded : q.in_at ≤ q.capacity
    pub out_bounded : q.out_at ≤ q.capacity

  -- A step that leaves the ring and the stamps of its nodes alone.
  pub record Keeps (q r : NodeQueue D) : Type 0 where
    pub capacity : r.capacity ≡ q.capacity
    pub in_kept : r.in_at ≡ q.in_at
    pub out_kept : r.out_at ≡ q.out_at
    pub stamps_kept : (j : ℕ) → stamps r j ≡ stamps q j

  pub data KeepsEnded (q : NodeQueue D) : Ended D → Type 0 where
    undefined : KeepsEnded q none
    returned : {s : Status} {r : NodeQueue D} → Keeps q r → KeepsEnded q (some (s, r))

  Keeps-refl : (q : NodeQueue D) → Keeps q q
  Keeps-refl q = record {
    capacity = refl;
    in_kept = refl;
    out_kept = refl;
    stamps_kept = λ j. refl;
  }

  Keeps-trans : (p q r : NodeQueue D) → Keeps p q → Keeps q r → Keeps p r
  Keeps-trans p q r k l = record {
    capacity = l.capacity ∙ k.capacity;
    in_kept = l.in_kept ∙ k.in_kept;
    out_kept = l.out_kept ∙ k.out_kept;
    stamps_kept = λ j. l.stamps_kept j ∙ k.stamps_kept j;
  }

  KeepsEnded-trans : (p q : NodeQueue D) (e : Ended D) → Keeps p q → KeepsEnded q e → KeepsEnded p e
  KeepsEnded-trans p q e k undefined = undefined
  KeepsEnded-trans p q e k (returned {r = r} l) = returned (Keeps-trans p q r k l)

  KeepsEnded-and_then :
      (q : NodeQueue D) (e : Ended D) (f : NodeQueue D → Ended D)
      → KeepsEnded q e
      → ((r : NodeQueue D) → KeepsEnded r (f r))
      → KeepsEnded q (and_then e f)
  unfolding and_then
  KeepsEnded-and_then q e f undefined next = undefined
  KeepsEnded-and_then q e f (returned {s = s} {r = r} k) next = elim (Bool-cases (is_okay s)) [
    | inl good ↦ rw good (KeepsEnded-trans q r (f r) k (next r))
    | inr bad ↦ rw bad (returned k)
  ]

  -- A write of a node with the same stamp.
  Keeps-set_slot :
      (q : NodeQueue D) (i : ℕ) (n : Node Chars D) → stamp n ≡ stamps q i → Keeps q (set_slot q i n)
  unfolding set_slot
  Keeps-set_slot q i n e = record {
    capacity = refl;
    in_kept = refl;
    out_kept = refl;
    stamps_kept = λ j. ground arith;
  }

  Keeps-other :
      (q r : NodeQueue D) (h : Heap Chars D) (t : Option ℕ) (b : StringBuffer)
      → Keeps q r
      → Keeps q (record r { heap = h; stack = t; strings = b })
  Keeps-other q r h t b k = record {
    capacity = k.capacity;
    in_kept = k.in_kept;
    out_kept = k.out_kept;
    stamps_kept = k.stamps_kept;
  }

  stamp-linked : (stack : Option ℕ) (n : Node Chars D) → stamp (linked stack n) ≡ stamp n
  unfolding linked
  stamp-linked none n = refl
  stamp-linked (some p) n = refl

  KeepsEnded-open_collection : (q : NodeQueue D) (prev : ℕ) → KeepsEnded q (open_collection q prev)
  unfolding open_collection push_node set_slot
  KeepsEnded-open_collection q prev =
      elim (Bool-cases (ltb (q.slots prev).depth (q.slots q.in_at).depth)) [
        | inl deeper ↦ rw deeper (
            returned (
              Keeps-other q (set_slot q q.in_at (linked q.stack (q.slots q.in_at))) _ _ q.strings (
                Keeps-set_slot q q.in_at (linked q.stack (q.slots q.in_at))
                  (stamp-linked q.stack (q.slots q.in_at)))))
        | inr same ↦ rw same (returned (Keeps-refl q))
      ]

  popped :
      (q : NodeQueue D) (prev : ℕ) (o : Option (Status × Option ℕ × Option ℕ))
      → KeepsEnded q (elim o [
        | none ↦ none
        | some (s, top, old) ↦ some (
          s,
          record (set_slot q prev (record (q.slots prev) { collection_end = true })) {
            stack = top;
          },
        )
      ])
  unfolding set_slot
  popped q prev none = undefined
  popped q prev (some (s, top, old)) = returned (
      Keeps-other q (set_slot q prev (record (q.slots prev) { collection_end = true })) q.heap top
        q.strings (Keeps-set_slot q prev (record (q.slots prev) { collection_end = true }) refl))

  KeepsEnded-close_collections :
      (rounds : ℕ) (q : NodeQueue D) (prev : ℕ) → KeepsEnded q (close_collections rounds q prev)
  unfolding close_collections
  KeepsEnded-close_collections zero q prev = returned (Keeps-refl q)
  KeepsEnded-close_collections (suc rounds) q prev =
      KeepsEnded-and_then q (pop_once q prev) (λ r. close_collections rounds r prev)
        (popped q prev (pop_node q.heap q.stack)) (λ r. KeepsEnded-close_collections rounds r prev)

  with_parent :
      (q : NodeQueue D) (p : Option (Option ℕ))
      → KeepsEnded q (elim p [
        | none ↦ none
        | some a ↦ some (okay, set_slot q q.in_at (record (q.slots q.in_at) { parent_node = a }))
      ])
  with_parent q none = undefined
  with_parent q (some a) =
      returned (Keeps-set_slot q q.in_at (record (q.slots q.in_at) { parent_node = a }) refl)

  KeepsEnded-set_parent : (q : NodeQueue D) → KeepsEnded q (set_parent q)
  unfolding set_parent
  KeepsEnded-set_parent q = elim (Bool-cases (is_collection (q.slots q.in_at).value.type)) [
    | inl c ↦ rw c (with_parent q (stack_parent q))
    | inr c ↦ rw c (with_parent q (some q.stack))
  ]

  Keeps-with_key :
      (q : NodeQueue D) (b : StringBuffer) (p : Option Chars)
      → Keeps q (with_key (record q { strings = b }) p)
  unfolding set_slot
  Keeps-with_key q b none = Keeps-other q q q.heap q.stack b (Keeps-refl q)
  Keeps-with_key q b (some p) =
      Keeps-other q (set_slot q q.in_at (record (q.slots q.in_at) { key = some p })) q.heap q.stack
        b (Keeps-set_slot q q.in_at (record (q.slots q.in_at) { key = some p }) refl)

  KeepsEnded-key_stored :
      (q : NodeQueue D) (o : Option (Status × StringBuffer × Option Chars))
      → KeepsEnded q (key_stored q o)
  KeepsEnded-key_stored q none = undefined
  KeepsEnded-key_stored q (some (s, b, p)) = returned (Keeps-with_key q b p)

  KeepsEnded-store_key_of :
      (q : NodeQueue D) (t : Option (List ℕ)) → KeepsEnded q (store_key_of q t)
  KeepsEnded-store_key_of q none = undefined
  KeepsEnded-store_key_of q (some t) =
      KeepsEnded-key_stored q (store_string q.strings (length t + 2) t)

  KeepsEnded-with_key :
      (q : NodeQueue D) (k : Option Chars)
      → KeepsEnded q
          (elim k [ none ↦ some (okay, q) | some c ↦ store_key_of q (chars_of q.strings c) ])
  KeepsEnded-with_key q none = returned (Keeps-refl q)
  KeepsEnded-with_key q (some c) = KeepsEnded-store_key_of q (chars_of q.strings c)

  KeepsEnded-store_key : (q : NodeQueue D) → KeepsEnded q (store_key q)
  unfolding store_key
  KeepsEnded-store_key q = KeepsEnded-with_key q (q.slots q.in_at).key

  Keeps-with_string :
      (q : NodeQueue D) (b : StringBuffer) (p : Option Chars)
      → Keeps q (with_string (record q { strings = b }) p)
  unfolding set_slot
  Keeps-with_string q b none = Keeps-other q q q.heap q.stack b (Keeps-refl q)
  Keeps-with_string q b (some p) =
      let n = record (q.slots q.in_at) {
        value = record { value = string_value (some p); type = (q.slots q.in_at).value.type };
      } in
      Keeps-other q (set_slot q q.in_at n) q.heap q.stack b (Keeps-set_slot q q.in_at n refl)

  KeepsEnded-string_stored :
      (q : NodeQueue D) (o : Option (Status × StringBuffer × Option Chars))
      → KeepsEnded q (string_stored q o)
  KeepsEnded-string_stored q none = undefined
  KeepsEnded-string_stored q (some (s, b, p)) = elim (Bool-cases (is_okay s)) [
    | inl good ↦ rw good (returned (Keeps-with_string q b p))
    | inr bad ↦ rw bad (returned (Keeps-other q q q.heap q.stack b (Keeps-refl q)))
  ]

  KeepsEnded-store_value_of :
      (q : NodeQueue D) (t : Option (List ℕ)) → KeepsEnded q (store_value_of q t)
  KeepsEnded-store_value_of q none = undefined
  KeepsEnded-store_value_of q (some t) =
      KeepsEnded-string_stored q (store_string q.strings (length t) t)

  KeepsEnded-store_value : (q : NodeQueue D) → KeepsEnded q (store_value q)
  unfolding store_value
  KeepsEnded-store_value q = elim (Bool-cases (is_string (q.slots q.in_at).value.type)) [
    | inl s ↦
        rw s (KeepsEnded-store_value_of q (pointer_of q.strings (q.slots q.in_at).value.value))
    | inr s ↦ rw s (returned (Keeps-refl q))
  ]

  pub KeepsEnded-place_node : (q : NodeQueue D) (prev : ℕ) → KeepsEnded q (place_node q prev)
  unfolding place_node
  KeepsEnded-place_node q prev =
      KeepsEnded-and_then q (open_collection q prev) _ (KeepsEnded-open_collection q prev) λ q.
        KeepsEnded-and_then q
          (close_collections ((q.slots prev).depth - (q.slots q.in_at).depth) q prev) _
          (KeepsEnded-close_collections ((q.slots prev).depth - (q.slots q.in_at).depth) q prev)
          λ q. KeepsEnded-and_then q (set_parent q) _ (KeepsEnded-set_parent q) λ q.
            KeepsEnded-and_then q (store_key q) store_value (KeepsEnded-store_key q)
              λ q. KeepsEnded-store_value q
