-- ===== src/Join.antt =====
-- `JoinAwareSyncStrategy` of src/join_aware_sync_strategy.hpp: the nodes on the paths from a fork to a join are branches
-- of a sync group. Text for debugging is left out.
pub mod Paths
pub mod Drops
mod Tests
use Prim.Native.String.{String}
use ai_pipe.Prelude.{
  ℕ, Bool, true, false, not, ◌&&◌, ◌||◌, Option, none, some, List, [], ◌∷◌, ◌++◌, ◌==◌, string_eq,
  nat_eq, if◌then◌else◌,
}
use ai_pipe.Prelude.Sets.{contains}
use ai_pipe.Prelude.Maps.{lookup, assign}
use ai_pipe.Sync.Group.{branch_ids}
use ai_pipe.Sync.Coordinator.{
  Coordinator, new_coordinator, group, create_sync_group, report_drop, coordinator_pending_drops,
  coordinator_frame_processed, reset,
}

-- `mappings`: the group and the branch of a node, for each group that it belongs to.
pub record Strategy : Type 0 where
  pub coordinator : Coordinator
  pub node_mapping : List (String × (String × String))
  pub mappings : List (String × List (String × String))

pub new_strategy : Strategy
new_strategy = record { coordinator = new_coordinator; node_mapping = []; mappings = [] }

abbrev pub mappings_of : Strategy → String → List (String × String)
mappings_of s node = elim (lookup node s.mappings) [ none ↦ [] | some m ↦ m ]

-- The primary mapping stays; the others are added at the end.
pub add_node_mapping : Strategy → String → String → String → Strategy
add_node_mapping s node id b = record s {
  node_mapping = elim (lookup node s.node_mapping) [
    | none ↦ assign node (id, b) s.node_mapping
    | some _ ↦ s.node_mapping
  ];
  mappings = assign node (mappings_of s node ++ (id, b) ∷ []) s.mappings;
}

pub map_node_to_group : Strategy → String → String → String → Strategy
map_node_to_group s node id b = add_node_mapping s node id b

pub register_sync_group : Strategy → String → List String → Strategy
register_sync_group s id branches = record s {
  coordinator = (create_sync_group s.coordinator id branches).0;
}

pub reset_strategy : Strategy → Strategy
reset_strategy s = record s { coordinator = reset s.coordinator }

-- The branches of the group other than `b` that are not in the list yet.
pub add_affected : String → List String → List String → List String
add_affected b affected [] = affected
add_affected b affected (other ∷ rest) =
    add_affected b
      (if not (other == b) && not (contains affected other)
        then affected ++ other ∷ []
        else affected)
      rest

-- The loop over the groups of the node, with the branches found so far.
pub report_to_all :
    Coordinator → List (String × String) → ℕ → String → List String → Coordinator × List String
report_to_all c [] frame reason affected = (c, affected)
report_to_all c ((id, b) ∷ rest) frame reason affected =
    let c' = report_drop c id b frame reason in
    let affected' : List String = elim (group c' id) [
      | none ↦ affected
      | some g ↦ add_affected b affected (branch_ids g)
    ] in
    report_to_all c' rest frame reason affected'

pub strategy_report_drop : Strategy → String → ℕ → String → Strategy × List String
strategy_report_drop s node frame reason =
    let done = report_to_all s.coordinator (mappings_of s node) frame reason [] in
    (record s { coordinator = done.0 }, done.1)

pub pending_in_some : Coordinator → List (String × String) → ℕ → Bool
pending_in_some c [] frame = false
pending_in_some c ((id, b) ∷ rest) frame =
    contains (coordinator_pending_drops c id b) frame || pending_in_some c rest frame

pub strategy_should_drop : Strategy → String → ℕ → Bool
strategy_should_drop s node frame = pending_in_some s.coordinator (mappings_of s node) frame

pub processed_in_all : Coordinator → List (String × String) → ℕ → Coordinator
processed_in_all c [] frame = c
processed_in_all c ((id, b) ∷ rest) frame =
    processed_in_all (coordinator_frame_processed c id b frame) rest frame

pub mark_processed : Strategy → String → ℕ → Strategy
mark_processed s node frame = record s {
  coordinator = processed_in_all s.coordinator (mappings_of s node) frame;
}

pub strategy_watermark : Strategy → String → ℕ
strategy_watermark s id = elim (group s.coordinator id) [ none ↦ 0 | some g ↦ g.watermark ]

pub tracks_node : Strategy → String → Bool
tracks_node s node = elim (lookup node s.mappings) [ none ↦ false | some _ ↦ true ]

-- The copy has a coordinator of its own, without groups.
pub clone : Strategy → Strategy
clone s = record s { coordinator = new_coordinator }

pub get_node_mappings : Strategy → String → List (String × String)
get_node_mappings s node = mappings_of s node
