-- ===== src/StringBuffer/Fifo/Run.antt =====
-- Sequences of calls against an abstract queue of strings. A string is put in as node_queue.c puts
-- in a key: a reservation of two OChars more than the string, then the string.
pub mod Calls
use oly.Prelude.{
  ℕ, ◌+◌, ◌≤◌, ◌<◌, ◌^◌, ◌≡◌, ◌≢◌, inl, inr, refl, Option, none, some, List, [], ◌∷◌, ◌++◌, arith,
  length, Memory, ◌∙◌, sym, ap, All,
}
use mathlib.Core.Path.{subst}
use native.Mathlib.Decide.{dec_lt}
use oly.Status.{Status, okay, err_buffer_overflow, warn_buffer_empty}
use oly.StringBuffer.{
  StringBuffer, space_available, reserve_string_buffer, enqueue_to_string_buffer,
  dequeue_from_string_buffer, open_string_buffer,
}
use oly.StringBuffer.Layout.{IsText, StringAt}
use oly.StringBuffer.Inv.{IsValid, Stands, room}
use oly.StringBuffer.Inv.Space.{space_available_unused}
use oly.StringBuffer.Inv.Reserve.{Reserved, reserve-Granted}
use oly.StringBuffer.Fifo.Put.{taken, enqueue_snoc}
use oly.StringBuffer.Fifo.Take.{
  dequeue_cons, dequeue_overflow, dequeue_nil, empty_of_nil, reserve-dequeue, buffer_end-dequeue,
}
use oly.StringBuffer.Fifo.Run.Calls.{
  Queue, Op, put, get, Reply, put_key, blank, call, Spec, accepts, refuses, gives, small, empty,
  Specs, done, step, IsFree, IsCall,
}

-- A call on a buffer that stands for `q`: it returns, as the abstract queue may.
record Simulates (b : StringBuffer) (q : Queue) (o : Op) : Type 0 where
  reply : Reply
  buffer : StringBuffer
  queue : Queue
  returns : call b o ≡ some (reply, buffer)
  spec : Spec q o reply queue
  free : IsFree buffer
  stands : Stands buffer queue
  space : reply.space ≡ (space_available b).1
  limit : buffer.buffer_end ≡ b.buffer_end

buffer_end-taken :
    (c : StringBuffer) (n : ℕ) (s : List ℕ) → (taken c n s).buffer.buffer_end ≡ c.buffer_end
buffer_end-taken c n s = ground arith

-- The space at an empty queue.
space_at_nil :
    (b : StringBuffer) (q : Queue)
    → IsValid b
    → Stands b q
    → q ≡ []
    → (space_available b).1 + 1 ≡ b.buffer_end
space_at_nil b q v h e =
    let z = empty_of_nil b h.0 h.1 v h.2 (sym e ∙ h.4) in space_available_unused b v z.0 z.1

put_key_okay :
    (b c : StringBuffer) (s : List ℕ) (q : Queue)
    → reserve_string_buffer b (length s + 2) ≡ some (okay, c)
    → IsValid c
    → Reserved (length s + 2) c
    → Stands c q
    → IsText s
    → s ≢ []
    → room c ≡ (space_available b).1
    → c.buffer_end ≡ b.buffer_end
    → Simulates b q (put s)
unfolding call put_key
put_key_okay b c s q e v res h t ne spare limit =
    let fits : length s + 2 ≤ room c = omega (arith, res.fits) in
    let got = enqueue_snoc c (length s + 2) s q v res h t ne (omega arith) (omega arith) fits in
    record {
      reply = record { status = okay; dest = blank; space = (space_available b).1 };
      buffer = (taken c (length s + 2) s).buffer;
      queue = q ++ (s ∷ []);
      returns = ground (arith, e, got.0);
      spec =
          accepts q s (record { status = okay; dest = blank; space = (space_available b).1 }) refl
            (omega (arith, res.fits, spare));
      free = record { valid = got.1; free = got.4 };
      stands = got.2;
      space = refl;
      limit = buffer_end-taken c (length s + 2) s ∙ limit;
    }

put_key_overflow :
    (b c : StringBuffer) (s : List ℕ) (q : Queue)
    → reserve_string_buffer b (length s + 2) ≡ some (err_buffer_overflow, c)
    → IsValid c
    → c.reserve_start ≡ none
    → Stands c q
    → room c ≡ (space_available b).1
    → room c < length s + 2 + 1
    → c.buffer_end ≡ b.buffer_end
    → Simulates b q (put s)
unfolding call put_key
put_key_overflow b c s q e v f h spare short limit = record {
  reply = record { status = err_buffer_overflow; dest = blank; space = (space_available b).1 };
  buffer = c;
  queue = q;
  returns = ground (arith, e);
  spec =
      refuses q s
        (record { status = err_buffer_overflow; dest = blank; space = (space_available b).1 }) refl
        (omega (arith, short, spare));
  free = record { valid = v; free = f };
  stands = h;
  space = refl;
  limit = limit;
}

call-put :
    (b : StringBuffer) (q : Queue) (s : List ℕ)
    → IsFree b
    → Stands b q
    → IsCall (put s)
    → Simulates b q (put s)
call-put b q s f h t =
    let (status, c, e, g, h', spare) =
      reserve-Granted b (length s + 2) q f.valid f.free h (omega (arith, t.2)) in
    elim (g.outcome) [
      | inl good ↦ put_key_okay b c s q (rw (← good.0) e) g.valid good.1 h' t.0 t.1 spare g.same.1
      | inr bad ↦ put_key_overflow b c s q (rw (← bad.0) e) g.valid bad.1 h' spare bad.2 g.same.1
    ]

abbrev reply_of : StringBuffer → Memory → ℕ → Reply
reply_of b d size =
    let r = dequeue_from_string_buffer b d size in
    record { status = r.status; dest = r.dest; space = (space_available b).1 }

call-get :
    (b : StringBuffer) (q : Queue) (d : Memory) (size : ℕ)
    → IsFree b
    → Stands b q
    → Simulates b q (get d size)
unfolding call
call-get b [] d size f h =
    let out = dequeue_nil b d size f.valid h in
    record {
      reply = reply_of b d size;
      buffer = (dequeue_from_string_buffer b d size).buffer;
      queue = [];
      returns = refl;
      spec = empty d size (reply_of b d size) out.0;
      free = record { valid = out.3; free = reserve-dequeue b d size ∙ f.free };
      stands = out.4;
      space = refl;
      limit = buffer_end-dequeue b d size;
    }
call-get b (s ∷ q) d size f h = elim (dec_lt size (length s + 3)) [
  | no enough ↦
      (let out = dequeue_cons b d size s q f.valid h (omega arith) in
        record {
          reply = reply_of b d size;
          buffer = (dequeue_from_string_buffer b d size).buffer;
          queue = q;
          returns = refl;
          spec = gives s q d size (reply_of b d size) out.0 out.2 (omega arith);
          free = record { valid = out.3; free = reserve-dequeue b d size ∙ f.free };
          stands = out.4;
          space = refl;
          limit = buffer_end-dequeue b d size;
        })
  | yes short ↦
      (let out = dequeue_overflow b d size s q f.valid h short in
        record {
          reply = reply_of b d size;
          buffer = (dequeue_from_string_buffer b d size).buffer;
          queue = s ∷ q;
          returns = refl;
          spec = small s q d size (reply_of b d size) out.0 short;
          free = record {
            valid = subst IsValid (sym out.3) f.valid;
            free = reserve-dequeue b d size ∙ f.free;
          };
          stands = subst (λ c. Stands c (s ∷ q)) (sym out.3) h;
          space = refl;
          limit = buffer_end-dequeue b d size;
        })
]

call-Simulates :
    (b : StringBuffer) (q : Queue) (o : Op) → IsFree b → Stands b q → IsCall o → Simulates b q o
call-Simulates b q (put s) f h t = call-put b q s f h t
call-Simulates b q (get d size) f h t = call-get b q d size f h

unfoldable pub run : StringBuffer → List Op → Option (List Reply × StringBuffer)
run b [] = some ([], b)
run b (o ∷ os) = elim (call b o) [
  | none ↦ none
  | some (r, c) ↦ elim (run c os) [ none ↦ none | some (rs, d) ↦ some (r ∷ rs, d) ]
]

run_cons :
    (b c d : StringBuffer) (o : Op) (os : List Op) (r : Reply) (rs : List Reply)
    → call b o ≡ some (r, c)
    → run c os ≡ some (rs, d)
    → run b (o ∷ os) ≡ some (r ∷ rs, d)
unfolding run
run_cons b c d o os r rs e f = ground (arith, e, f)

-- Every sequence of calls on a valid buffer with no reservation, whose `put`s are non-empty C strings of
-- less than 2^64 - 3 OChars, returns with no assertion failed, and answers as a first-in first-out
-- queue of strings, from the queue that the buffer stands for to the one that it stands for at the
-- end: a `put` joins the end where the space that space_available finds is three OChars more than the
-- string at least, and is refused as an overflow elsewhere; a `get` takes the oldest string where the
-- destination has three OChars more than it, and leaves it, as an overflow, elsewhere; an empty queue
-- is reported, and at it the space is all OChars of the buffer but one.
pub run_refines :
    (os : List Op) (b : StringBuffer) (q : Queue)
    → IsFree b
    → Stands b q
    → All IsCall os
    → (rs : List Reply) × (c : StringBuffer) × (q' : Queue) × (run b os ≡ some (rs, c))
      × Specs b.buffer_end q os rs q'
      × Stands c q'
unfolding run
run_refines [] b q f h t = ([], b, q, refl, done q, h)
run_refines (o ∷ os) b q f h t =
    let s : Simulates b q o = call-Simulates b q o f h t.0 in
    let (rs, c, q', e, specs, h') = run_refines os s.buffer s.queue s.free s.stands t.1 in
    (
      s.reply ∷ rs,
      c,
      q',
      run_cons b s.buffer c o os s.reply rs s.returns e,
      step s.spec (λ none_left. ap (λ k. k + 1) s.space ∙ space_at_nil b q f.valid h none_left)
          (subst (λ n. Specs n s.queue os rs q') s.limit specs),
      h',
    )

-- A new buffer of 2 OChars or more (and of less than 2^62) is valid, has no reservation and stands
-- for the empty queue.
pub open_string_buffer-IsFree :
    (n : ℕ) (fresh : Memory)
    → 2 ≤ n
    → n ≤ 2 ^ 62
    → IsFree (open_string_buffer n fresh) × Stands (open_string_buffer n fresh) []
unfolding open_string_buffer
open_string_buffer-IsFree n fresh lo hi =
    (record { valid = ground arith; free = refl }, ([], [], refl, refl, refl))
