-- ===== src/Join/Tests.antt =====
-- The theorems on the join-aware strategy at concrete inputs: a fork 0 to the nodes 1 and 2, and a join 3.
use Prim.Native.String.{String}
use ai_pipe.Prelude.{
  ℕ, zero, suc, ◌≡◌, ◌↔◌, inl, refl, arith, true, false, some, List, [], ◌∷◌, nat_eq, string_eq,
}
use ai_pipe.Prelude.Sets.{contains}
use ai_pipe.Prelude.Maps.{lookup}
use ai_pipe.Sync.Group.{Branch, Group, invalid_frame, must_drop}
use ai_pipe.Join.{Strategy, strategy_report_drop, strategy_should_drop}
use ai_pipe.Join.Drops.{siblings_told}
use ai_pipe.Join.Paths.{find_all_paths, find_all_paths_dfs, each_neighbor, branch_path, drop_last}
use ai_pipe.Join.Paths.Neighbors.{IsIn}
use ai_pipe.Join.Paths.Exact.{IsWay, find_all_paths_lem}

abbrev diamond : ℕ → List ℕ
diamond zero = 1 ∷ 2 ∷ []
diamond (suc zero) = 3 ∷ []
diamond (suc (suc zero)) = 3 ∷ []
diamond _ = []

abbrev places : List ℕ
places = 0 ∷ 1 ∷ 2 ∷ 3 ∷ []

diamond-closed :
    (u k : ℕ) → contains places u ≡ true → contains (diamond u) k ≡ true → contains places k ≡ true
unfolding contains
diamond-closed zero k here near = ground (arith, near)
diamond-closed (suc zero) k here near = ground (arith, near)
diamond-closed (suc (suc zero)) k here near = ground (arith, near)
diamond-closed (suc (suc (suc u))) k here near = cc

find_all_paths_lem_example :
    (pss : List (List ℕ)) × (find_all_paths 5 diamond 0 3 ≡ some pss)
    × ((ms : List ℕ) → IsIn ms pss ↔ IsWay diamond 3 [] 0 (0 ∷ ms))
unfolding contains
find_all_paths_lem_example =
    find_all_paths_lem diamond 3 places diamond-closed 5 0 refl refl (omega arith)

find_all_paths_test : find_all_paths 5 diamond 0 3 ≡ some ((1 ∷ []) ∷ (2 ∷ []) ∷ [])
unfolding find_all_paths find_all_paths_dfs each_neighbor branch_path drop_last contains
find_all_paths_test = refl

abbrev idle : String → Branch
idle id = record {
  branch_id = id;
  latest_frame = invalid_frame;
  processed_frame = invalid_frame;
  dropped_frames = [];
  pending_sync_drops = [];
  active = true;
}

abbrev pair : Group
pair = record {
  group_id = "sync_group_0_fork_to_join";
  branches = ("branch_0", idle "branch_0") ∷ ("branch_1", idle "branch_1") ∷ [];
  global_drops = [];
  drop_reasons = [];
  watermark = invalid_frame;
}

abbrev one_join : Strategy
one_join = record {
  coordinator = record {
    groups = ("sync_group_0_fork_to_join", pair) ∷ [];
    listening = false;
    delivered = [];
  };
  node_mapping = [];
  mappings =
      ("left", ("sync_group_0_fork_to_join", "branch_0") ∷ [])
      ∷ ("right", ("sync_group_0_fork_to_join", "branch_1") ∷ [])
      ∷ [];
}

siblings_told_example :
    strategy_should_drop (strategy_report_drop one_join "left" 5 "late").0 "right" 5 ≡ true
unfolding lookup must_drop
siblings_told_example =
    siblings_told one_join "left" "right" "sync_group_0_fork_to_join" "branch_0" "branch_1" 5 "late"
      pair (idle "branch_0") (idle "branch_1") (inl (refl, refl)) (inl (refl, refl)) refl refl refl
      refl refl
