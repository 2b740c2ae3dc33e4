-- ===== src/Status/Message/Tests.antt =====
-- get_errmsg at concrete codes.
use oly.Prelude.{ℕ, ◌≡◌, refl, some, ◌==◌, if◌then◌else◌}
use oly.Prelude.Int.{pos}
use oly.Status.Message.{Lookup, found, missing, get_errmsg, message_index}

abbrev table : ℕ → Lookup ℕ
table i = if i == 30 then missing else found i

a_missing_message_is_the_unknown_one : get_errmsg table (pos 13) ≡ some 18
unfolding get_errmsg message_index
a_missing_message_is_the_unknown_one = refl
