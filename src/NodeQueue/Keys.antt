-- ===== src/NodeQueue/Keys.antt =====
-- The key of a node that enters the queue, and the string buffer that it is stored in.
use oly.Prelude.{
  ℕ, ◌+◌, ◌<◌, ◌^◌, ◌≡◌, ◌≢◌, inl, inr, refl, Option, none, some, List, [], ◌∷◌, ◌++◌, arith,
  length, sym,
}
use mathlib.Core.Path.{subst}
use oly.Status.{Status, is_okay, okay, err_buffer_overflow}
use oly.StringBuffer.{StringBuffer, reserve_string_buffer, enqueue_to_string_buffer, write_pointer}
use oly.StringBuffer.Layout.{IsText, StringAt}
use oly.StringBuffer.Inv.{IsValid, Stands}
use oly.StringBuffer.Inv.Reserve.{Reserved, reserve-Granted}
use oly.StringBuffer.Fifo.Put.{taken, enqueue_snoc}
use oly.StringBuffer.Fifo.Run.Calls.{IsFree}
use oly.NodeQueue.{
  NodeQueue, Chars, outside, inside, Ended, set_slot, store_string, store_key, with_key,
}

-- How storing a string in a buffer that stands for `q` may end.
pub data Stores (s : List ℕ) (q : List (List ℕ))
    : Option (Status × StringBuffer × Option Chars) → Type 0 where
  stored :
      {b : StringBuffer} {p : ℕ}
      → IsFree b
      → Stands b (q ++ (s ∷ []))
      → StringAt b.memory p s
      → Stores s q (some (okay, b, some (inside p)))
  no_room :
      {b : StringBuffer} → IsFree b → Stands b q → Stores s q (some (err_buffer_overflow, b, none))

store_string-taken :
    (b c : StringBuffer) (n : ℕ) (s : List ℕ)
    → reserve_string_buffer b n ≡ some (okay, c)
    → enqueue_to_string_buffer c s ≡ some (taken c n s)
    → store_string b n s ≡ some (okay, (taken c n s).buffer, some (inside (write_pointer c)))
unfolding store_string is_okay
store_string-taken b c n s e f = ground (arith, e, f)

store_string_overflow :
    (b c : StringBuffer) (n : ℕ) (s : List ℕ)
    → reserve_string_buffer b n ≡ some (err_buffer_overflow, c)
    → store_string b n s ≡ some (err_buffer_overflow, c, none)
unfolding store_string is_okay
store_string_overflow b c n s e = ground (arith, e)

Stores-taken :
    (b c : StringBuffer) (s : List ℕ) (q : List (List ℕ))
    → reserve_string_buffer b (length s + 2) ≡ some (okay, c)
    → IsValid c
    → Reserved (length s + 2) c
    → Stands c q
    → IsText s
    → s ≢ []
    → Stores s q (store_string b (length s + 2) s)
Stores-taken b c s q e v res h t ne =
    let got =
      enqueue_snoc c (length s + 2) s q v res h t ne (omega arith) (omega arith)
        (omega (arith, res.fits)) in
    subst (λ r. Stores s q r) (sym (store_string-taken b c (length s + 2) s e got.0))
      (stored (record { valid = got.1; free = got.4 }) got.2 got.3)

-- On a valid buffer with no reservation.
Stores-store_string :
    (b : StringBuffer) (s : List ℕ) (q : List (List ℕ))
    → IsFree b
    → Stands b q
    → IsText s
    → s ≢ []
    → length s + 3 < 2 ^ 64
    → Stores s q (store_string b (length s + 2) s)
Stores-store_string b s q f h t ne less =
    let (status, c, e, g, h', spare) =
      reserve-Granted b (length s + 2) q f.valid f.free h (omega (arith, less)) in
    elim (g.outcome) [
      | inl good ↦ Stores-taken b c s q (rw (← good.0) e) g.valid good.1 h' t ne
      | inr bad ↦
          subst (λ r. Stores s q r)
            (sym (store_string_overflow b c (length s + 2) s (rw (← bad.0) e)))
            (no_room (record { valid = g.valid; free = bad.1 }) h')
    ]

module _ {D : Type 0} where
  -- How the step for the key may end: the key is at the end of the buffer's queue and the node
  -- points to it there; or the buffer has no room, and its queue and the node are as they were.
  pub data KeyStored (q : NodeQueue D) (s : List ℕ) (ks : List (List ℕ)) : Ended D → Type 0 where
    key_appended :
        (b : StringBuffer) (p : ℕ)
        → IsFree b
        → Stands b (ks ++ (s ∷ []))
        → StringAt b.memory p s
        → KeyStored q s ks (some (okay, with_key (record q { strings = b }) (some (inside p))))
    key_refused :
        (b : StringBuffer)
        → IsFree b
        → Stands b ks
        → KeyStored q s ks (some (err_buffer_overflow, record q { strings = b }))

  KeyStored-Stores :
      (q : NodeQueue D) (s : List ℕ) (ks : List (List ℕ))
      (r : Option (Status × StringBuffer × Option Chars))
      → Stores s ks r
      → KeyStored q s ks (oly.NodeQueue.key_stored q r)
  KeyStored-Stores q s ks r (stored {b = b} {p = p} f h at) = key_appended b p f h at
  KeyStored-Stores q s ks r (no_room {b = b} f h) = key_refused b f h

  store_key-outside :
      (q : NodeQueue D) (s : List ℕ)
      → (q.slots q.in_at).key ≡ some (outside s)
      → store_key q ≡ oly.NodeQueue.key_stored q (store_string q.strings (length s + 2) s)
  unfolding store_key
  store_key-outside q s e = rw (e, store_key) refl

  -- The key of a node that enters, a non-empty C string of the caller of less than 2^64 - 3 OChars, over
  -- a valid buffer with no reservation: the step returns, with no assertion failed. Either the key is at the end of the
  -- buffer's queue and the node points to it, with OLY_OKAY, or the buffer has no room for it,
  -- which is reported, and its queue is as it was.
  pub store_key-KeyStored :
      (q : NodeQueue D) (s : List ℕ) (ks : List (List ℕ))
      → IsFree q.strings
      → Stands q.strings ks
      → (q.slots q.in_at).key ≡ some (outside s)
      → IsText s
      → s ≢ []
      → length s + 3 < 2 ^ 64
      → KeyStored q s ks (store_key q)
  store_key-KeyStored q s ks f h e t ne less =
      subst (λ r. KeyStored q s ks r) (sym (store_key-outside q s e))
        (KeyStored-Stores q s ks (store_string q.strings (length s + 2) s)
          (Stores-store_string q.strings s ks f h t ne less))
