-- ===== src/StartUp/Environment/Exact.antt =====
-- The environment that cleanenv builds fills its allocation exactly.
use oly.Prelude.{
  ℕ, ◌+◌, ◌-◌, ◌*◌, ◌≤◌, ◌<◌, ◌≡◌, ◌≢◌, List, [], ◌∷◌, ◌++◌, Memory, arith, length, All, refl, ◌∙◌,
  sym, ap, Option, Option-cases, inl, inr, some, none, get_or, length-append, write,
}
use native.Mathlib.Decide.{dec_lt, ℕ_discrete}
use mathlib.Core.List.{append_assoc, append-nil}
use mathlib.Core.Path.{subst, subst₂}
use oly.Status.{okay}
use oly.StringBuffer.Layout.{IsText}
use oly.Boundary.{strncpy_at}
use oly.Boundary.Rows.{Rows, total, Rows-total, Rows-frame, Rows-snoc, StringAt-of, get_or-length}
use oly.StartUp.Environment.Entries.{
  preserved, Points, IsEnvironment, count_restricted-total, count_preserved-total, name_at,
  equals_at, value_at, IsText-append, total-append,
}
use oly.StartUp.Environment.{
  Building, count_restricted, copy_restricted, copy_preserved, copy_pair, set_entry, sizes,
  allocated_for, built, cleanenv, clean_from, get_home, home_prefix, pointer_size,
}

-- What is built so far: the strings `ss` from `start` on, with their pointers, and the NULL at
-- `last`.
record Holds (start last : ℕ) (ss : List (List ℕ)) (e : Building) : Type 0 where
  rows : Rows e.memory start e.ptr ss
  points : Points e.table 0 start ss
  counted : e.arr_ptr ≡ length ss
  stop : e.table last ≡ none

set_entry_ne :
    (table : ℕ → Option ℕ) (i j : ℕ) (p : Option ℕ) → j ≢ i → set_entry table i p j ≡ table j
unfolding set_entry
set_entry_ne table i j p h = ground arith

Points-snoc :
    (table : ℕ → Option ℕ) (i p j q : ℕ) (ss : List (List ℕ)) (s : List ℕ)
    → j ≡ i + length ss
    → q ≡ p + total ss
    → Points table i p ss
    → Points (set_entry table j (some q)) i p (ss ++ (s ∷ []))
unfolding set_entry
Points-snoc table i p j q [] s e f h = (ground (arith, e, f), tt)
Points-snoc table i p j q (t ∷ ss) s e f h = (
  ground (arith, e, h.0),
  Points-snoc table (i + 1) (p + length t + 1) j q ss s (omega arith) (omega arith) h.1,
)

-- One string more, of which memory holds the characters and the terminator at `ptr`.
Holds-snoc :
    (start last : ℕ) (ss : List (List ℕ)) (s : List ℕ) (e e' : Building)
    → Holds start last ss e
    → length ss < last
    → IsText s
    → ((r : ℕ) → r < e.ptr → e'.memory r ≡ e.memory r)
    → ((j : ℕ) → j < length s → e'.memory (e.ptr + j) ≡ get_or s j 0)
    → e'.memory (e.ptr + length s) ≡ 0
    → e'.table ≡ set_entry e.table e.arr_ptr (some e.ptr)
    → e'.ptr ≡ e.ptr + length s + 1
    → e'.arr_ptr ≡ e.arr_ptr + 1
    → Holds start last (ss ++ (s ∷ [])) e'
Holds-snoc start last ss s e e' held room text below at stop table ptr arr = record {
  rows = rw ptr (
      Rows-snoc e'.memory start e.ptr ss s
        (Rows-frame e.memory e'.memory start e.ptr ss (λ r lo hi. below r hi) held.rows)
        (StringAt-of e'.memory e.ptr s at stop) text);
  points = rw table (
      Points-snoc e.table 0 start e.arr_ptr e.ptr ss s (omega (arith, held.counted))
        (sym (Rows-total e.memory start e.ptr ss held.rows)) held.points);
  counted = omega (arith, held.counted, length-append ss (s ∷ []));
  stop =
      rw table (
        set_entry_ne e.table e.arr_ptr last (some e.ptr) (omega (arith, held.counted)) ∙ held.stop);
}

copy_restricted-Holds :
    (start last : ℕ) (vars ss : List (List ℕ)) (e : Building)
    → Holds start last ss e
    → length ss + length vars ≤ last
    → All IsText vars
    → Holds start last (ss ++ vars) (copy_restricted vars e)
unfolding copy_restricted strncpy_at
copy_restricted-Holds start last [] ss e held room texts = rw append-nil held
copy_restricted-Holds start last (var ∷ vars) ss e held room texts =
    let e' : Building = record {
      memory = strncpy_at e.memory e.ptr var (length var + 1);
      table = set_entry e.table e.arr_ptr (some e.ptr);
      ptr = e.ptr + (length var + 1);
      arr_ptr = e.arr_ptr + 1;
    } in
    rw (append_assoc ss (var ∷ []) vars) at (
      copy_restricted-Holds start last vars (ss ++ (var ∷ [])) e'
        (Holds-snoc start last ss var e e' held (omega arith) texts.0 (λ r hr. ground arith)
          (λ j hj. ground arith) (ground (arith, get_or-length var (length var))) refl (omega arith)
          refl)
        (omega (arith, length-append ss (var ∷ []))) texts.1)

copy_pair-Holds :
    (start last : ℕ) (ss : List (List ℕ)) (var value : List ℕ) (e : Building)
    → Holds start last ss e
    → length ss < last
    → IsText var
    → IsText value
    → Holds start last (ss ++ ((var ++ (b'=' ∷ value)) ∷ [])) (copy_pair var value e)
unfolding strncpy_at write
copy_pair-Holds start last ss var value e held room text values =
    Holds-snoc start last ss (var ++ (b'=' ∷ value)) e (copy_pair var value e) held room
      (IsText-append var (b'=' ∷ value) text (omega arith, values)) (λ r hr. ground arith)
      (λ j hj. elim (dec_lt j (length var)) [
        | yes lt ↦ ground (arith, name_at var (b'=' ∷ value) j lt, lt)
        | no ge ↦ elim (ℕ_discrete j (length var)) [
          | yes same ↦ ground (arith, equals_at var value j same, same)
          | no past ↦
              let k = j - length var - 1 in
              let place : e.ptr + j - (e.ptr + length var + 1) ≡ k = omega arith in
              ground (
                arith,
                value_at var value j k (omega arith),
                hj,
                place,
                length-append var (b'=' ∷ value),
              )
        ]
      ])
      (ground (arith, length-append var (b'=' ∷ value), get_or-length value (length value))) refl
      (omega (arith, length-append var (b'=' ∷ value))) refl

module _ (getenv : List ℕ → Option (List ℕ)) (var : List ℕ) (vars : List (List ℕ))
    (e : Building) where
  preserved_unset : getenv var ≡ none → preserved getenv (var ∷ vars) ≡ preserved getenv vars
  unfolding preserved
  preserved_unset h = ground (arith, h)

  preserved_set :
      (value : List ℕ)
      → getenv var ≡ some value
      → preserved getenv (var ∷ vars) ≡ (var ++ (b'=' ∷ value)) ∷ preserved getenv vars
  unfolding preserved
  preserved_set value h = ground (arith, h)

  copy_unset :
      getenv var ≡ none → copy_preserved getenv (var ∷ vars) e ≡ copy_preserved getenv vars e
  unfolding copy_preserved
  copy_unset h =
      ap
        (λ o. copy_preserved getenv vars (elim o [ none ↦ e | some value ↦ copy_pair var value e ]))
        h

  copy_set :
      (value : List ℕ)
      → getenv var ≡ some value
      → copy_preserved getenv (var ∷ vars) e ≡ copy_preserved getenv vars (copy_pair var value e)
  unfolding copy_preserved
  copy_set value h =
      ap
        (λ o. copy_preserved getenv vars (elim o [ none ↦ e | some value ↦ copy_pair var value e ]))
        h

copy_preserved-Holds :
    (getenv : List ℕ → Option (List ℕ)) (start last : ℕ) (vars ss : List (List ℕ)) (e : Building)
    → IsEnvironment getenv
    → Holds start last ss e
    → length ss + length (preserved getenv vars) ≤ last
    → All IsText vars
    → Holds start last (ss ++ preserved getenv vars) (copy_preserved getenv vars e)
unfolding copy_preserved preserved
copy_preserved-Holds getenv start last [] ss e env held room texts = rw append-nil held
copy_preserved-Holds getenv start last (var ∷ vars) ss e env held room texts =
    elim (Option-cases (getenv var)) [
      | inl unset ↦
          subst₂ (λ xs b. Holds start last (ss ++ xs) b)
            (sym (preserved_unset getenv var vars e unset))
            (sym (copy_unset getenv var vars e unset))
            (copy_preserved-Holds getenv start last vars ss e env held
              (rw (preserved_unset getenv var vars e unset) at room) texts.1)
      | inr (value, set) ↦
          let s = var ++ (b'=' ∷ value) in
          let more : length ss + length (s ∷ preserved getenv vars) ≤ last =
            rw (preserved_set getenv var vars e value set) at room in
          subst₂ (λ xs b. Holds start last xs b)
            (append_assoc ss (s ∷ []) (preserved getenv vars)
              ∙ ap (λ xs. ss ++ xs) (sym (preserved_set getenv var vars e value set)))
            (sym (copy_set getenv var vars e value set))
            (copy_preserved-Holds getenv start last vars (ss ++ (s ∷ [])) (copy_pair var value e)
              env
              (copy_pair-Holds start last ss var value e held (omega arith) texts.0
                (env var value set))
              (omega (arith, length-append ss (s ∷ []))) texts.1)
    ]

-- An allocation of `bytes` that is an environment of the strings `ss`: they lie one behind the other
-- from the end of the table to the end of the allocation, and the table has their places in order and
-- NULL in its last entry.
pub record IsExact (ss : List (List ℕ)) (bytes : ℕ) (e : Building) : Type 0 where
  pub rows : Rows e.memory ((length ss + 1) * pointer_size) bytes ss
  pub points : Points e.table 0 ((length ss + 1) * pointer_size) ss
  pub stop : e.table (length ss) ≡ none

module _ (getenv : List ℕ → Option (List ℕ)) (restrict preserve : List (List ℕ)) (fresh : Memory)
    (fresh_table : ℕ → Option ℕ) where
  sizes_lem :
      let z = sizes getenv restrict preserve in
      let ss = restrict ++ preserved getenv preserve in
      (z.arr_size ≡ length ss + 1) × (z.new_size ≡ total ss)
  sizes_lem = omega (
    arith,
    count_preserved-total getenv preserve
        (count_restricted restrict (record { new_size = 0; arr_size = 1 })),
    count_restricted-total restrict (record { new_size = 0; arr_size = 1 }),
    length-append restrict (preserved getenv preserve),
    total-append restrict (preserved getenv preserve),
  )

  built-Holds :
      IsEnvironment getenv
      → All IsText restrict
      → All IsText preserve
      → let z = sizes getenv restrict preserve in
        Holds
          (z.arr_size * pointer_size)
          (z.arr_size - 1)
          (restrict ++ preserved getenv preserve)
          (built getenv restrict preserve fresh fresh_table)
  unfolding set_entry
  built-Holds env texts names =
      let z = sizes getenv restrict preserve in
      let e : Building = record {
        memory = fresh;
        table = set_entry fresh_table (z.arr_size - 1) none;
        ptr = z.arr_size * pointer_size;
        arr_ptr = 0;
      } in
      copy_preserved-Holds getenv (z.arr_size * pointer_size) (z.arr_size - 1) preserve restrict
        (copy_restricted restrict e) env
        (copy_restricted-Holds (z.arr_size * pointer_size) (z.arr_size - 1) restrict [] e
          (record { rows = refl; points = tt; counted = refl; stop = ground arith })
          (omega (arith, sizes_lem, length-append restrict (preserved getenv preserve))) texts)
        (omega (arith, sizes_lem, length-append restrict (preserved getenv preserve))) names

  built-IsExact :
      IsEnvironment getenv
      → All IsText restrict
      → All IsText preserve
      → IsExact
          (restrict ++ preserved getenv preserve)
          (allocated_for (sizes getenv restrict preserve))
          (built getenv restrict preserve fresh fresh_table)
  built-IsExact env texts names =
      let z = sizes getenv restrict preserve in
      let e = built getenv restrict preserve fresh fresh_table in
      let ss = restrict ++ preserved getenv preserve in
      let h = built-Holds env texts names in
      let full : e.ptr ≡ allocated_for z =
        omega (arith, sizes_lem, Rows-total e.memory (z.arr_size * pointer_size) e.ptr ss h.rows) in
      record {
        rows = subst₂ (λ n q. Rows e.memory (n * pointer_size) q ss) sizes_lem.0 full h.rows;
        points = subst (λ n. Points e.table 0 (n * pointer_size) ss) sizes_lem.0 h.points;
        stop = subst (λ n. e.table n ≡ none) (omega (arith, sizes_lem)) h.stop;
      }

-- With C strings in the tables and in the old environment, and a user with a directory: get_home writes
-- behind the block that it allocates, so that cleanenv has no defined result. The steps of cleanenv
-- behind get_home, from the string that it writes, return OLY_OKAY, and what they allocate is exactly
-- an environment of the home directory, the fixed strings and those variables of the old environment
-- that are to be kept: the strings without gaps to its end, the pointers in order, NULL last.
pub clean_from-IsExact :
    (dir : List ℕ) (getenv : List ℕ → Option (List ℕ)) (rest preserve : List (List ℕ))
    (fresh : Memory) (fresh_table : ℕ → Option ℕ)
    → IsEnvironment getenv
    → All IsText (dir ∷ rest)
    → All IsText preserve
    → let fixed = (home_prefix ++ dir) ∷ rest in
      (cleanenv (some dir) getenv rest preserve fresh fresh_table ≡ none)
      × (e : Building) × (clean_from (get_home dir) getenv rest preserve fresh fresh_table
          ≡ (okay, some e))
      × IsExact (fixed ++ preserved getenv preserve) (allocated_for (sizes getenv fixed preserve)) e
unfolding cleanenv clean_from get_home
clean_from-IsExact dir getenv rest preserve fresh fresh_table env texts names =
    let fixed = (home_prefix ++ dir) ∷ rest in
    (
      ground (arith, length-append home_prefix dir),
      built getenv fixed preserve fresh fresh_table,
      refl,
      built-IsExact getenv fixed preserve fresh fresh_table env
          (IsText-append home_prefix dir (omega arith) texts.0, texts.1) names,
    )
