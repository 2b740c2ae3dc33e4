-- ===== src/Routing.antt =====
-- The routing of the data sources, src/core/dispatch.c. A pointer to a data source is its address in the
-- store `sources`, and NULL is `none`; of the global `oly` there are the fields that the file uses.
pub mod Ends
mod Tests
use oly.Prelude.{ℕ, Option, none, some, List, ◌==◌, if◌then◌else◌}
use oly.Status.{Status, is_okay, okay}
use oly.Node.{Node}
use oly.DataSource.{
  DataSource, Direction, ds_in, ds_out, get_data_source_status, set_data_source_direction,
}

pub record OlyStruct (P D : Type 0) : Type 0 where
  pub status : Status
  pub inbound : Option ℕ
  pub outbound : Option ℕ
  pub sources : ℕ → DataSource P D

module _ {P D : Type 0} where
  abbrev pub source_at : OlyStruct P D → Option ℕ → Option (DataSource P D)
  source_at global none = none
  source_at global (some a) = some (global.sources a)

  -- `set_data_source_direction`, which does not check the pointer.
  unfoldable pub directed : OlyStruct P D → Option ℕ → Direction → OlyStruct P D
  unfolding set_data_source_direction
  directed global none d = global
  directed global (some a) d = record global {
    sources =
        λ b. if b == a then set_data_source_direction (global.sources a) d else global.sources b;
  }

  unfoldable pub set_inbound_data_source : OlyStruct P D → Option ℕ → Status × OlyStruct P D
  unfolding get_data_source_status directed
  set_inbound_data_source global ds =
      let s = get_data_source_status (source_at global ds) in
      if is_okay s
      then (okay, record (directed global ds ds_in) { status = okay; inbound = ds })
      else (s, record global { status = s })

  unfoldable pub set_outbound_data_source : OlyStruct P D → Option ℕ → Status × OlyStruct P D
  unfolding get_data_source_status directed
  set_outbound_data_source global ds =
      let s = get_data_source_status (source_at global ds) in
      if is_okay s
      then (okay, record (directed global ds ds_out) { status = okay; outbound = ds })
      else (s, record global { status = s })

  unfoldable pub get_inbound_data_source : OlyStruct P D → Status × Option ℕ
  get_inbound_data_source global = (okay, global.inbound)

  unfoldable pub get_outbound_data_source : OlyStruct P D → Status × Option ℕ
  get_outbound_data_source global = (okay, global.outbound)

  -- The two functions on lists of nodes do nothing yet.
  unfoldable pub enqueue_node_list : List (Node P D) → ℕ → Status
  enqueue_node_list ns node_count = okay

  unfoldable pub dequeue_node_list : List (Node P D) → ℕ → ℕ → Status
  dequeue_node_list ns capacity node_count = okay
