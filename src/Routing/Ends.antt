-- ===== src/Routing/Ends.antt =====
-- The two ends of the route.
use oly.Prelude.{ℕ, ◌≡◌, ◌≢◌, ◌⊎◌, some, arith}
use native.Mathlib.Decide.{ℕ_discrete}
use oly.Status.{okay, is_okay}
use oly.DataSource.{ds_in, ds_out}
use oly.Routing.{
  OlyStruct, set_inbound_data_source, set_outbound_data_source, get_inbound_data_source,
  get_outbound_data_source,
}

-- The state after both settings.
abbrev pub routed : {P D : Type 0} → OlyStruct P D → ℕ → ℕ → OlyStruct P D
routed global a b =
    (set_outbound_data_source (set_inbound_data_source global (some a)).1 (some b)).1

module _ {P D : Type 0} (global : OlyStruct P D) (a b : ℕ) where
  -- Where `a` is set for input and then `b` for output, both with the status OLY_OKAY: both calls report
  -- OLY_OKAY, both sources are read back, and `b` has the direction of output; `a` has that of input only
  -- where it is another source than `b`.
  pub routed-ends :
      (global.sources a).status ≡ okay
      → (global.sources b).status ≡ okay
      → ((set_inbound_data_source global (some a)).0 ≡ okay)
        × ((set_outbound_data_source (set_inbound_data_source global (some a)).1 (some b)).0 ≡ okay)
        × (get_inbound_data_source (routed global a b) ≡ (okay, some a))
        × (get_outbound_data_source (routed global a b) ≡ (okay, some b))
        × (((routed global a b).sources b).direction ≡ ds_out)
        × (((a ≢ b) × (((routed global a b).sources a).direction ≡ ds_in))
            ⊎ ((a ≡ b) × (((routed global a b).sources a).direction ≡ ds_out)))
  unfolding set_inbound_data_source set_outbound_data_source get_inbound_data_source
      get_outbound_data_source is_okay
  routed-ends in_okay out_okay = elim (ℕ_discrete a b) [
    | yes same ↦ ground (arith, in_okay, out_okay, same)
    | no different ↦ ground (arith, in_okay, out_okay, different)
  ]
