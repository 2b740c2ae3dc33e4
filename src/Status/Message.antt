-- ===== src/Status/Message.antt =====
-- get_errmsg of src/core/get_errmsg.c: the text of a code, from the ICU resource table `OlyErrors`.
-- The table is not code of the repository: a parameter gives what `ures_getStringByIndex` answers.
pub mod Index
mod Tests
use oly.Prelude.{ℕ, ◌+◌, Bool, ◌||◌, Option, none, some, if◌then◌else◌}
use oly.Prelude.Int.{ℤ, pos, pos_part, ◌+ℤ◌, ltb_ℤ}
use oly.Status.{
  Status, value, status_min, status_max, status_offset, err_unknown, okay, warn_reinit,
}

-- The answer of ICU: a string, U_MISSING_RESOURCE_ERROR, or any other failure (a null string).
pub data Lookup {ℓ} (Text : Type ℓ) : Type ℓ where
  found : Text → Lookup Text
  missing : Lookup Text
  failed : Lookup Text

-- `(OLY_ERR_UNKNOWN + OLY_STATUS_OFFSET)`
abbrev pub unknown_index : ℕ
unknown_index = 1 + status_offset

-- The index of the first call of `ures_getStringByIndex`, for any int.
unfoldable pub message_index : ℤ → ℕ
message_index status =
    if ltb_ℤ status status_min || ltb_ℤ status_max status
    then unknown_index
    else pos_part (status +ℤ pos status_offset)

abbrev pub text_of {ℓ} : {Text : Type ℓ} → Lookup Text → Option Text
text_of (found t) = some t
text_of missing = none
text_of failed = none

-- A missing entry is looked up again as the unknown error; another failure returns ICU's null.
unfoldable pub get_errmsg {ℓ} : {Text : Type ℓ} → (ℕ → Lookup Text) → ℤ → Option Text
get_errmsg table status = elim (table (message_index status)) [
  | found t ↦ some t
  | missing ↦ text_of (table unknown_index)
  | failed ↦ none
]

-- `init_errmsg`: the table is loaded once; `init_messages` exits when ICU has none.
unfoldable pub init_errmsg {ℓ} : {Table : Type ℓ} → Option Table → Table → Status × Option Table
init_errmsg none loaded = (okay, some loaded)
init_errmsg (some old) loaded = (warn_reinit, some old)
