-- ===== src/Prelude/Mem.antt =====
-- Memory of OChars (or bytes) as a function of the offset from the start of an allocation.
use Prim.Native.Nat.{ℕ}
use mathlib.Core.Path.{◌≡◌}
use mathlib.Core.Logic.{◌≢◌}
use native.Mathlib.Omega.{arith}
use oly.Prelude.Tests.{◌==◌, if◌then◌else◌}

abbrev pub Memory : Type 0
Memory = ℕ → ℕ

unfoldable pub write : Memory → ℕ → ℕ → Memory
write m p v q = if q == p then v else m q

pub write_self : (m : Memory) (p v : ℕ) → write m p v p ≡ v
unfolding write
write_self m p v = ground arith

pub write_ne : (m : Memory) (p v q : ℕ) → q ≢ p → write m p v q ≡ m q
unfolding write
write_ne m p v q h = ground arith
