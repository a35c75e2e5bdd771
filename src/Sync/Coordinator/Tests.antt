-- ===== src/Sync/Coordinator/Tests.antt =====
-- The theorems on the coordinator at concrete inputs.
use Prim.Native.String.{String}
use ai_pipe.Prelude.{ℕ, ◌≡◌, refl, true, false, ◌||◌, [], ◌∷◌, ◌==◌, string_eq, nat_eq, eqb}
use ai_pipe.Prelude.Maps.{lookup}
use ai_pipe.Sync.Group.{Group, new_branch, new_group}
use ai_pipe.Sync.Coordinator.{
  Coordinator, group, coordinator_should_drop, report_drop, report_drop_lem,
}

abbrev pair : Group
pair = record (new_group "stereo") {
  branches = ("left", new_branch "left") ∷ ("right", new_branch "right") ∷ [];
}

abbrev one_group : Coordinator
one_group = record { groups = ("stereo", pair) ∷ []; listening = true; delivered = [] }

report_drop_lem_example :
    ((other : String) (f : ℕ)
      → coordinator_should_drop (report_drop one_group "stereo" "left" 5 "late") "stereo" other f
        ≡ (eqb 5 f || coordinator_should_drop one_group "stereo" other f))
    × ((id' : String)
        → ("stereo" == id') ≡ false
        → group (report_drop one_group "stereo" "left" 5 "late") id' ≡ group one_group id')
unfolding lookup
report_drop_lem_example =
    report_drop_lem one_group "stereo" "left" 5 "late" pair (new_branch "left") refl refl
