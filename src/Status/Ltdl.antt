-- ===== src/Status/Ltdl.antt =====
-- get_ltdl_errmsg of src/data_source/get_ltdl_errmsg.c: the text of an error of libltdl, from the ICU
-- resource table `libltdlErrors`, which is opened at the first call.
mod Tests
use oly.Prelude.{
  ℕ, zero, suc, ◌+◌, ◌≤◌, ◌<◌, ◌≡◌, refl, ap, arith, Bool, ◌||◌, Option, none, some, List, [], ◌∷◌,
  length, get_elem?, if◌then◌else◌, Option-cases, inl, inr,
}
use native.Mathlib.Decide.{dec_lt}
use oly.Prelude.Int.{ℤ, pos, negsuc, pos_part, ltb_ℤ, ◌+ℤ◌}
use oly.Status.{status_offset}
use oly.Status.Message.{Lookup, found, missing, failed, text_of}

-- `(OLY_ERR_LTDL_UNKNOWN + OLY_STATUS_OFFSET)`
abbrev pub ltdl_unknown_index : ℕ
ltdl_unknown_index = 20 + status_offset

-- The index of the first call of `ures_getStringByIndex`; `max` is LT_ERROR_MAX of libltdl.
abbrev pub ltdl_index : ℕ → ℤ → ℕ
ltdl_index max status =
    if ltb_ℤ status (pos 0) || ltb_ℤ (pos max) (status +ℤ pos 1)
    then ltdl_unknown_index
    else pos_part status

-- What is behind the opening of the table.
abbrev pub ltdl_text {ℓ} : {Text : Type ℓ} → ℕ → (ℕ → Lookup Text) → ℤ → Option Text
ltdl_text max table status = elim (table (ltdl_index max status)) [
  | found t ↦ some t
  | missing ↦ text_of (table ltdl_unknown_index)
  | failed ↦ none
]

-- The table that is opened is `none` if it cannot be, and then the program exits, which is `none` as
-- well; `data` is `libltdl_message_data`, which is kept.
unfoldable pub get_ltdl_errmsg {ℓ} :
    {Text : Type ℓ}
    → ℕ
    → Option (ℕ → Lookup Text)
    → Option (ℕ → Lookup Text)
    → ℤ
    → Option (Option Text × (ℕ → Lookup Text))
get_ltdl_errmsg max opened (some table) status = some (ltdl_text max table status, table)
get_ltdl_errmsg max none none status = none
get_ltdl_errmsg max (some table) none status = some (ltdl_text max table status, table)

-- How ICU answers for a table with the given entries.
abbrev pub table_of {ℓ} : {Text : Type ℓ} → List Text → ℕ → Lookup Text
table_of ts i = elim (get_elem? ts i) [ none ↦ missing | some t ↦ found t ]

-- The entry that a code stands for, by its place in the list.
abbrev pub entry_of {ℓ} : {Text : Type ℓ} → List Text → ℤ → Option Text
entry_of ts (pos n) = get_elem? ts n
entry_of ts (negsuc n) = none

get_elem?-past {ℓ} : {A : Type ℓ} (xs : List A) (i : ℕ) → length xs ≤ i → get_elem? xs i ≡ none
get_elem?-past [] i h = refl
get_elem?-past (x ∷ xs) zero h = absurd (omega (arith, h))
get_elem?-past (x ∷ xs) (suc i) h = get_elem?-past xs i (omega (arith, h))

ltdl_text_entry {ℓ} :
    {Text : Type ℓ} (ts : List Text) (s : ℤ)
    → length ts ≤ ltdl_unknown_index
    → ltdl_text (length ts) (table_of ts) s ≡ entry_of ts s
ltdl_text_entry ts (negsuc n) h = ground (arith, get_elem?-past ts ltdl_unknown_index h)
ltdl_text_entry ts (pos n) h = elim (dec_lt n (length ts)) [
  | yes lt ↦ elim (Option-cases (get_elem? ts n)) [
    | inl e ↦ ground (arith, e, lt, get_elem?-past ts ltdl_unknown_index h)
    | inr (t, e) ↦ ground (arith, e, lt)
  ]
  | no ge ↦
      ground
        (arith, ge, get_elem?-past ts ltdl_unknown_index h, get_elem?-past ts n (omega (arith, ge)))
]

-- With an entry for each code of libltdl in the table, and not more than 37, get_ltdl_errmsg gives a
-- code its entry, on the first call and on each later one with the table that the first has kept; for
-- an int that is no code it gives NULL, and not the text for an unknown error.
get_ltdl_errmsg_entry {ℓ} :
    {Text : Type ℓ} (ts : List Text) (first second : ℤ)
    → length ts ≤ ltdl_unknown_index
    → (get_ltdl_errmsg (length ts) (some (table_of ts)) none first
        ≡ some (entry_of ts first, table_of ts))
      × (get_ltdl_errmsg (length ts) none (some (table_of ts)) second
          ≡ some (entry_of ts second, table_of ts))
unfolding get_ltdl_errmsg
get_ltdl_errmsg_entry ts first second h = (
  ap (λ t. some (t, table_of ts)) (ltdl_text_entry ts first h),
  ap (λ t. some (t, table_of ts)) (ltdl_text_entry ts second h),
)
