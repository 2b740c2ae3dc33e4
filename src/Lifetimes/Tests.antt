-- ===== src/Lifetimes/Tests.antt =====
-- Open and close among two blocks and a converter of others.
use oly.Prelude.{◌≡◌, refl, arith, none, some, [], ◌∷◌}
use oly.Resources.{Blocks}
use oly.Lifetimes.{
  open_queue, close_node_queue, new_source, open_source_boundary, close_data_source,
}
use oly.Lifetimes.Balance.{pushes, close_node_queue-open_queue, close_data_source-new_source}

abbrev blocks : Blocks
blocks = record { next = 9; live = 8 ∷ 3 ∷ []; bundles = 5 ∷ [] }

close_node_queue-open_queue_example :
    let (q, k) = open_queue (λ j. some 3) blocks in
    let (r, l) = pushes (none ∷ some 7 ∷ none ∷ []) q k in
    (m : Blocks) × (close_node_queue 4 r l ≡ some m)
    × (m.live ≡ blocks.live)
    × (m.bundles ≡ blocks.bundles)
close_node_queue-open_queue_example =
    close_node_queue-open_queue (λ j. some 3) (none ∷ some 7 ∷ none ∷ []) 4 blocks refl
      (omega arith)

close_data_source-new_source_example :
    let (d, k) = new_source blocks in
    let (e, l) = open_source_boundary 6 d k in
    (m : Blocks) × (close_data_source e l ≡ some m)
    × (m.bundles ≡ blocks.bundles)
    × (m.live ≡ d.node ∷ d.internal_scalar ∷ d.external_scalar ∷ d.key_staging ∷ blocks.live)
close_data_source-new_source_example = close_data_source-new_source 6 blocks
