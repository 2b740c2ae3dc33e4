-- ===== src/Routing/Tests.antt =====
-- A route with two sources, and the theorem at it.
use oly.Prelude.{ℕ, ◌≡◌, ◌≢◌, ◌⊎◌, refl, none, some, List}
use oly.Status.{okay}
use oly.DataSource.{ds_in, ds_out, fresh}
use oly.Routing.{
  OlyStruct, set_inbound_data_source, set_outbound_data_source, get_inbound_data_source,
  get_outbound_data_source,
}
use oly.Routing.Ends.{routed, routed-ends}

abbrev one : ℕ
one = 1

abbrev two : ℕ
two = 2

abbrev oly_state : OlyStruct (List ℕ) ℕ
oly_state = record {
  status = okay;
  inbound = none;
  outbound = none;
  sources = λ a. fresh 8192 512 0;
}

routed-ends_example :
    ((set_inbound_data_source oly_state (some one)).0 ≡ okay)
    × ((set_outbound_data_source (set_inbound_data_source oly_state (some one)).1 (some two)).0
        ≡ okay)
    × (get_inbound_data_source (routed oly_state one two) ≡ (okay, some one))
    × (get_outbound_data_source (routed oly_state one two) ≡ (okay, some two))
    × (((routed oly_state one two).sources two).direction ≡ ds_out)
    × (((one ≢ two) × (((routed oly_state one two).sources one).direction ≡ ds_in))
        ⊎ ((one ≡ two) × (((routed oly_state one two).sources one).direction ≡ ds_out)))
routed-ends_example = routed-ends oly_state one two refl refl
