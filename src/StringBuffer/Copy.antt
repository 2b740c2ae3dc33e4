-- ===== src/StringBuffer/Copy.antt =====
-- The two copy loops: where they stop, what they write, what they leave alone.
use oly.Prelude.{
  ℕ, zero, suc, ◌+◌, ◌≤◌, ◌<◌, ◌≡◌, ◌≢◌, ◌⊎◌, inl, List, [], ◌∷◌, Memory, write, write_self, arith,
  length, ◌∙◌, sym,
}
use mathlib.Core.Path.{subst}
use oly.StringBuffer.{copy_in, copy_out}
use oly.StringBuffer.Layout.{IsText, StringAt}

-- `copy_in` stops behind the terminator where the string fits.
pub copy_in-copier :
    (m : Memory) (p e : ℕ) (s : List ℕ)
    → IsText s
    → p + length s < e
    → (copy_in m p e s).1 ≡ p + length s + 1
unfolding copy_in
copy_in-copier m p e [] t h = omega arith
copy_in-copier m p e (c ∷ cs) t h = ground (arith, copy_in-copier (write m p c) (p + 1) e cs)

-- It never leaves the reservation, however long the string is.
pub copy_in_bounds :
    (m : Memory) (p e : ℕ) (s : List ℕ)
    → p < e
    → (p < (copy_in m p e s).1) × ((copy_in m p e s).1 ≤ e)
unfolding copy_in
copy_in_bounds m p e [] h = omega arith
copy_in_bounds m p e (c ∷ cs) h = ground (arith, copy_in_bounds (write m p c) (p + 1) e cs)

-- It changes no cell but those from the start up to `copier`.
pub copy_in_outside :
    (m : Memory) (p e : ℕ) (s : List ℕ) (q : ℕ)
    → (q < p) ⊎ ((copy_in m p e s).1 ≤ q)
    → p < e
    → (copy_in m p e s).0 q ≡ m q
unfolding copy_in write
copy_in_outside m p e [] q h lt = ground arith
copy_in_outside m p e (c ∷ cs) q h lt =
    ground (
      arith,
      copy_in_bounds (write m p c) (p + 1) e cs,
      copy_in_outside (write m p c) (p + 1) e cs q,
    )

copy_in-cons :
    (m : Memory) (p e c : ℕ) (cs : List ℕ)
    → c ≢ 0
    → p + 1 < e
    → copy_in m p e (c ∷ cs) ≡ copy_in (write m p c) (p + 1) e cs
unfolding copy_in
copy_in-cons m p e c cs n h = ground arith

pub copy_in-StringAt :
    (m : Memory) (p e : ℕ) (s : List ℕ)
    → IsText s
    → p + length s < e
    → StringAt (copy_in m p e s).0 p s
unfolding copy_in
copy_in-StringAt m p e [] t h = write_self m p 0
copy_in-StringAt m p e (c ∷ cs) t h =
    subst (λ r. StringAt r.0 p (c ∷ cs)) (sym (copy_in-cons m p e c cs t.0 (omega arith)))
      (
        copy_in_outside (write m p c) (p + 1) e cs p (inl (omega arith)) (omega arith)
            ∙ write_self m p c,
        copy_in-StringAt (write m p c) (p + 1) e cs t.1 (omega arith),
      )

-- `copy_out` brings out the whole string where the rounds suffice.
pub copy_out-copier :
    (m : Memory) (p : ℕ) (d : Memory) (k room : ℕ) (s : List ℕ)
    → StringAt m p s
    → IsText s
    → length s ≤ room
    → (copy_out m p d k room).1 ≡ k + length s + 1
unfolding copy_out
copy_out-copier m p d k zero [] at t h = omega arith
copy_out-copier m p d k (suc room) [] at t h = ground arith
copy_out-copier m p d k zero (c ∷ cs) at t h = absurd (omega arith)
copy_out-copier m p d k (suc room) (c ∷ cs) at t h =
    ground (arith, copy_out-copier m (p + 1) (write d k (m p)) (k + 1) room cs)

-- Where they do not suffice, it stops after the last round.
pub copy_out_short :
    (m : Memory) (p : ℕ) (d : Memory) (k room : ℕ) (s : List ℕ)
    → StringAt m p s
    → IsText s
    → room < length s
    → (copy_out m p d k room).1 ≡ k + room + 1
unfolding copy_out
copy_out_short m p d k room [] at t h = absurd (omega arith)
copy_out_short m p d k zero (c ∷ cs) at t h = omega arith
copy_out_short m p d k (suc room) (c ∷ cs) at t h =
    ground (arith, copy_out_short m (p + 1) (write d k (m p)) (k + 1) room cs)

-- It writes only the cells that `copier` passes, and `room` bounds them.
pub copy_out_outside :
    (m : Memory) (p : ℕ) (d : Memory) (k room q : ℕ)
    → (q < k) ⊎ (k + room < q)
    → (copy_out m p d k room).0 q ≡ d q
unfolding copy_out write
copy_out_outside m p d k zero q h = ground arith
copy_out_outside m p d k (suc room) q h =
    ground (arith, copy_out_outside m (p + 1) (write d k (m p)) (k + 1) room q)

copy_out-cons :
    (m : Memory) (p : ℕ) (d : Memory) (k room : ℕ)
    → m p ≢ 0
    → copy_out m p d k (suc room) ≡ copy_out m (p + 1) (write d k (m p)) (k + 1) room
unfolding copy_out
copy_out-cons m p d k room n = ground arith

pub copy_out-StringAt :
    (m : Memory) (p : ℕ) (d : Memory) (k room : ℕ) (s : List ℕ)
    → StringAt m p s
    → IsText s
    → length s ≤ room
    → StringAt (copy_out m p d k room).0 k s
unfolding copy_out
copy_out-StringAt m p d k zero [] at t h = write_self d k (m p) ∙ at
copy_out-StringAt m p d k (suc room) [] at t h = ground (arith, write_self d k (m p))
copy_out-StringAt m p d k zero (c ∷ cs) at t h = absurd (omega arith)
copy_out-StringAt m p d k (suc room) (c ∷ cs) at t h =
    subst (λ r. StringAt r.0 k (c ∷ cs))
      (sym (copy_out-cons m p d k room (λ z. t.0 (sym at.0 ∙ z))))
      (
        copy_out_outside m (p + 1) (write d k (m p)) (k + 1) room k (inl (omega arith))
            ∙ write_self d k (m p)
            ∙ at.0,
        copy_out-StringAt m (p + 1) (write d k (m p)) (k + 1) room cs at.1 t.1 (omega arith),
      )
