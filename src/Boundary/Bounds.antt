-- ===== src/Boundary/Bounds.antt =====
-- No sequence of calls leaves the two areas of a boundary.
use oly.Prelude.{
  ℕ, zero, suc, ◌+◌, ◌-◌, ◌^◌, ◌≤◌, ◌<◌, ◌≡◌, List, [], ◌∷◌, arith, length, refl, Option, none,
  some, Memory, ◌==◌, Bool-cases, inl, inr,
}
use oly.Boundary.{
  Boundary, ToUnicode, put_char_in, flush_inbound, clear_boundary, get_ochar_out, string_length,
  strncpy_at, write_list, given_out, cells,
}

pub record IsOpen {C : Type 0} (b : Boundary C) : Type 0 where
  pub c_bounded : b.c_now ≤ b.c_end
  pub o_bounded : b.o_now ≤ b.o_end
  pub small : b.c_end < 2 ^ 63
  pub c_stop : b.chars (b.c_end + 1) ≡ 0
  pub o_stop : b.ochars b.o_end ≡ 0

pub data Call : Type 0 where
  put : List ℕ → ℕ → Call
  flush_in : Call
  clear : Call
  read : Call

-- ICU writes no more than the room of the target.
abbrev pub WithinRoom : {C : Type 0} → ToUnicode C → Type 0
WithinRoom {C} to_unicode =
    (c : C) (s : List ℕ) (room : ℕ) → length ((to_unicode c s room).output) ≤ room

string_length-stop :
    (m : Memory) (p k n : ℕ)
    → m (p + k) ≡ 0
    → k < n
    → (l : ℕ) × (string_length m p n ≡ some l) × (l ≤ k)
unfolding string_length
string_length-stop m p k zero stop h = absurd (omega arith)
string_length-stop m p zero (suc n) stop h = (0, ground (arith, stop), omega arith)
string_length-stop m p (suc k) (suc n) stop h =
    let (l, e, le) = string_length-stop m (p + 1) k n (ground (arith, stop)) (omega arith) in
    elim (Bool-cases (m p == 0)) [
      | inl here ↦ (0, ground (arith, here), omega arith)
      | inr on ↦ (suc l, ground (arith, on, e), omega arith)
    ]

module _ {C : Type 0} (to_unicode : ToUnicode C) where
  unfoldable pub call : Call → Boundary C → Option (Boundary C)
  call (put s n) b = some (put_char_in b s n).1
  call flush_in b = some (flush_inbound to_unicode b).1
  call clear b = some (clear_boundary b).1
  call read b = elim (get_ochar_out b) [ none ↦ none | some r ↦ some r.boundary ]

  unfoldable pub calls : List Call → Boundary C → Option (Boundary C)
  calls [] b = some b
  calls (k ∷ ks) b = elim (call k b) [ none ↦ none | some b' ↦ calls ks b' ]

module _ {C : Type 0} (to_unicode : ToUnicode C) (within : WithinRoom to_unicode) where
  put-IsOpen : (b : Boundary C) (s : List ℕ) (n : ℕ) → IsOpen b → IsOpen (put_char_in b s n).1
  unfolding put_char_in strncpy_at
  put-IsOpen b s n v = ground arith

  flush_in-IsOpen : (b : Boundary C) → IsOpen b → IsOpen (flush_inbound to_unicode b).1
  unfolding flush_inbound write_list
  flush_in-IsOpen b v = ground (arith, within b.converter (cells b.chars 0 b.c_now) b.o_end)

  read-IsOpen :
      (b : Boundary C)
      → IsOpen b
      → (b' : Boundary C) × (call to_unicode read b ≡ some b') × IsOpen b'
  unfolding call get_ochar_out
  read-IsOpen b v =
      let (l, e, le) =
        string_length-stop b.ochars b.o_now (b.o_end - b.o_now) (b.o_end + 1 - b.o_now)
          (ground (arith, v.o_stop, v.o_bounded)) (omega (arith, v.o_bounded)) in
      ((given_out b l).boundary, ground (arith, e), ground (arith, le))

  call-IsOpen :
      (k : Call) (b : Boundary C)
      → IsOpen b
      → (b' : Boundary C) × (call to_unicode k b ≡ some b') × IsOpen b'
  unfolding call clear_boundary
  call-IsOpen (put s n) b v = (_, refl, put-IsOpen b s n v)
  call-IsOpen flush_in b v = (_, refl, flush_in-IsOpen b v)
  call-IsOpen clear b v = (_, refl, ground arith)
  call-IsOpen read b v = read-IsOpen b v

  -- With a converter that keeps to the room it is given, every sequence of calls on an open boundary
  -- returns, and leaves the pointers within their areas and the terminators behind both in place.
  pub calls-IsOpen :
      (ks : List Call) (b : Boundary C)
      → IsOpen b
      → (b' : Boundary C) × (calls to_unicode ks b ≡ some b') × IsOpen b'
  unfolding calls
  calls-IsOpen [] b v = (b, refl, v)
  calls-IsOpen (k ∷ ks) b v =
      let (m, e, w) = call-IsOpen k b v in
      let (b', f, w') = calls-IsOpen ks m w in (b', ground (arith, e, f), w')
