-- ===== src/Boundary.antt =====
-- The boundary buffers of src/data_source/boundary.c, between the encoding of a data source and the
-- UTF-16 of ICU. Both buffers lie in one allocation: `chars` are its bytes by their offset from
-- `c_start`, `ochars` its OChars by their index from `o_start`. Boundary/Layout shows that the two
-- areas do not meet. The converter is ICU's: its state is `C`, and its two functions are parameters.
pub mod Layout
pub mod Rows
pub mod Transfer
pub mod RoundTrip
pub mod Bounds
pub mod Sample
mod Tests
use oly.Prelude.{
  ℕ, zero, suc, ◌+◌, ◌-◌, ◌*◌, ◌/◌, ◌%◌, ◌^◌, Bool, true, false, ◌&&◌, Option, none, some, List, [],
  ◌∷◌, ltb, leb, ◌==◌, if◌then◌else◌, Memory, get_or, length,
}
use oly.Status.{Status, okay, warn_buffer_empty, warn_boundary_reset, err_buffer_overflow, err_lib}
use oly.StringBuffer.{size_diff}

-- `c_start` and `o_start` are 0.
pub record Boundary (C : Type 0) : Type 0 where
  pub chars : Memory
  pub ochars : Memory
  pub c_now : ℕ
  pub c_end : ℕ
  pub o_now : ℕ
  pub o_end : ℕ
  pub converter : C

-- What ICU answers to a call of `ucnv_toUnicode` or `ucnv_fromUnicode`: the state of the converter,
-- what was written to the target, and whether `u_status` is a failure.
pub record Converted (C : Type 0) : Type 0 where
  pub converter : C
  pub output : List ℕ
  pub failed : Bool

-- A conversion takes the converter, the whole of the source and the room of the target. The one that
-- writes the outside encoding also takes whether `u_status` was a failure before.
abbrev pub ToUnicode : Type 0 → Type 0
ToUnicode C = C → List ℕ → ℕ → Converted C

abbrev pub FromUnicode : Type 0 → Type 0
FromUnicode C = Bool → C → List ℕ → ℕ → Converted C

-- `max_characters`, with the smallest size of a character and the size that is asked for.
abbrev pub max_characters : ℕ → ℕ → ℕ
max_characters k size = size / (k + 2)

-- The size of the allocation.
abbrev pub allocated : ℕ → ℕ → ℕ
allocated k size = (max_characters k size * 2 - 2) + (max_characters k size * k - k) + k + 2

abbrev pub c_end_at : ℕ → ℕ → ℕ
c_end_at k size = max_characters k size * k - k * 2

-- The byte at which the OChars begin.
abbrev pub o_start_at : ℕ → ℕ → ℕ
o_start_at k size = c_end_at k size + k + 1

abbrev pub o_end_at : ℕ → ℕ → ℕ
o_end_at k size = max_characters k size - 2

-- The four assertions.
abbrev pub sizes_agree : ℕ → ℕ → Bool
sizes_agree k size =
    (o_end_at k size == c_end_at k size / k)
    && ltb (2 * o_end_at k size + c_end_at k size) size
    && (2 * o_end_at k size % 2 == 0)
    && (c_end_at k size % k == 0)

-- The boundary that is set up.
abbrev pub opened : {C : Type 0} → C → ℕ → ℕ → Memory → Memory → Boundary C
opened c k size fresh ofresh = record {
  chars = λ j. if ltb (c_end_at k size) j && ltb j (o_start_at k size) then 0 else fresh j;
  ochars =
      λ j. if leb (o_end_at k size) j && ltb (o_start_at k size + 2 * j) size then 0 else ofresh j;
  c_now = 0;
  c_end = c_end_at k size;
  o_now = 0;
  o_end = o_end_at k size;
  converter = c;
}

-- `open_oly_boundary` with the converter that ICU opened, its smallest size of a character, the
-- size, and the memory that `omalloc` returned. With fewer than two characters the ends lie before
-- the starts, and the second loop clears bytes up to `size`: both are writes outside of the
-- allocation, `none`, as is an assertion that fails.
unfoldable pub open_oly_boundary : {C : Type 0} → C → ℕ → ℕ → Memory → Memory → Option (Boundary C)
open_oly_boundary c k size fresh ofresh =
    if ltb (max_characters k size) 2
    then none
    else (if ltb (allocated k size) size
        then none
        else (if sizes_agree k size then some (opened c k size fresh ofresh) else none))

-- `strncpy` to the offset `p`: the characters and then zeros, `n` cells in all.
unfoldable pub strncpy_at : Memory → ℕ → List ℕ → ℕ → Memory
strncpy_at m p s n j = if leb p j && ltb j (p + n) then get_or s (j - p) 0 else m j

-- What a conversion writes from the start of its target.
unfoldable pub write_list : Memory → List ℕ → Memory
write_list m s j = if ltb j (length s) then get_or s j 0 else m j

-- `n` cells from `p` on.
unfoldable pub cells : Memory → ℕ → ℕ → List ℕ
cells m p zero = []
cells m p (suc n) = m p ∷ cells m (p + 1) n

-- `u_strlen` and `strlen` over at most `n` cells; `none` is a string that goes on behind them.
unfoldable pub string_length : Memory → ℕ → ℕ → Option ℕ
string_length m p zero = none
string_length m p (suc n) =
    let rest = string_length m (p + 1) n in
    if m p == 0 then some 0 else (elim rest [ none ↦ none | some l ↦ some (suc l) ])

module _ {C : Type 0} where
  unfoldable pub put_char_in : Boundary C → List ℕ → ℕ → Status × Boundary C
  put_char_in b s len = if leb (size_diff b.c_end b.c_now) len then (err_buffer_overflow, b) else (
    okay,
    record b {
      chars = (λ j. if j == b.c_now + len then 0 else strncpy_at b.chars b.c_now s len j);
      c_now = b.c_now + len + 1;
    },
  )

  -- The inbound characters are those up to `c_now`; the pointers return to the start if ICU
  -- reports no failure. What it wrote before a failure stays.
  abbrev pub with_ochars : Boundary C → Converted C → Boundary C
  with_ochars b r = record b { ochars = write_list b.ochars r.output; converter = r.converter }

  unfoldable pub flush_inbound : ToUnicode C → Boundary C → Status × Boundary C
  flush_inbound to_unicode b =
      if b.c_now == 0
      then (warn_buffer_empty, b)
      else (let r = to_unicode b.converter (cells b.chars 0 b.c_now) b.o_end in
          if r.failed
          then (err_lib, with_ochars b r)
          else (okay, record (with_ochars b r) { c_now = 0; o_now = 0 }))

  -- The pointers stay, whatever ICU reports.
  abbrev pub outbound : Boundary C → Converted C → Status × Boundary C
  outbound b r = (
    if r.failed then err_lib else okay,
    record b { chars = write_list b.chars r.output; converter = r.converter },
  )

  -- The end of the source is `o_now` and as many OChars more as the C string at `c_now` is long.
  -- The cells that may be read are those up to the first one behind `c_end`, which is cleared when the
  -- boundary is opened, and `none` is also a source that goes on behind the OChars. `u_status` is not
  -- set before the call: the Boolean is whether its old content reads as a failure.
  unfoldable pub flush_outbound : FromUnicode C → Bool → Boundary C → Option (Status × Boundary C)
  flush_outbound from_unicode unset b =
      elim (string_length b.chars b.c_now (b.c_end + 2 - b.c_now)) [
        | none ↦ none
        | some l ↦
            if b.o_now + l == 0
            then some (warn_buffer_empty, b)
            else (if ltb (b.o_end + 1) (b.o_now + l)
                then none
                else some (
                    outbound b
                      (from_unicode unset b.converter (cells b.ochars 0 (b.o_now + l)) b.c_end)))
      ]

  unfoldable pub clear_boundary : Boundary C → Status × Boundary C
  clear_boundary b = (okay, record b { c_now = 0; o_now = 0 })

  -- `u_memcpy(source->o_start, dest, limit)`: the first argument of `u_memcpy` is where it writes.
  unfoldable pub copy_ochar_buffer : Boundary C → Memory → ℕ → Status × Boundary C
  copy_ochar_buffer b dest limit =
      (okay, record b { ochars = λ j. if ltb j limit then dest j else b.ochars j })

  unfoldable pub get_boundary_out_start : Boundary C → Status × ℕ
  get_boundary_out_start b = (okay, 0)

-- What a read gives out: the status, `*next`, `*next_len` and the boundary.
pub record OCharOut (C : Type 0) : Type 0 where
  pub status : Status
  pub next : Option ℕ
  pub next_len : ℕ
  pub boundary : Boundary C

module _ {C : Type 0} where
  -- The branches behind the call of `u_strlen`, which gave `l`.
  abbrev pub given_out : Boundary C → ℕ → OCharOut C
  given_out b l =
      if l == 0
      then record { status = warn_buffer_empty; next = none; next_len = 0; boundary = b }
      else (if ltb (b.o_now + (l + 1)) b.o_end
          then record {
            status = okay;
            next = some b.o_now;
            next_len = l + 1;
            boundary = record b { o_now = b.o_now + (l + 1) };
          }
          else record { status = warn_boundary_reset; next = none; next_len = 0; boundary = b })

  -- The cells that may be read are those up to `o_end`; `none` is a string that goes on behind them.
  unfoldable pub get_ochar_out : Boundary C → Option (OCharOut C)
  get_ochar_out b = elim (string_length b.ochars b.o_now (b.o_end + 1 - b.o_now)) [
    | none ↦ none
    | some l ↦ some (given_out b l)
  ]
