-- ===== src/DataSource/Tests.antt =====
-- Runs of a data source, and the theorems at one.
use oly.Prelude.{ℕ, ◌≡◌, refl, none, some, List, [], ◌∷◌}
use oly.Status.{okay, is_okay, err_badarg, err_no_object}
use oly.DataSource.{DataSource, fresh, new_data_source, stage_node_key}
use oly.DataSource.Staging.{Stages, stage_node_key-Stages}

abbrev source : DataSource (List ℕ) ℕ
source = fresh 8192 512 0

abbrev hundred : ℕ
hundred = 100

abbrev busy : DataSource (List ℕ) ℕ
busy = record source { status = err_no_object }

a_type_out_of_range_is_refused :
    new_data_source {P = List ℕ} {D = ℕ} 8192 512 3 okay ≡ (err_badarg, none)
unfolding new_data_source is_okay
a_type_out_of_range_is_refused = refl

stage_node_key-Stages_example :
    Stages source (b'k' ∷ b'e' ∷ []) (stage_node_key source (some (b'k' ∷ b'e' ∷ [])) 0)
stage_node_key-Stages_example = stage_node_key-Stages source (b'k' ∷ b'e' ∷ []) refl
