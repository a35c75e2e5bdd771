-- ===== src/Sync/Group/Tests.antt =====
-- The theorems on a sync group at concrete inputs: a group of two branches, of which the left has
-- processed frame 3 and the right nothing.
use ai_pipe.Prelude.{◌≤◌, true, List, [], ◌∷◌, string_eq, nat_eq}
use ai_pipe.Sync.Group.{Branch, Group}
use ai_pipe.Sync.Group.Reasons.{Call, adds, processes, receives, drops, cleans, run, run_mono}

abbrev left : Branch
left = record {
  branch_id = "left";
  latest_frame = 4;
  processed_frame = 3;
  dropped_frames = [];
  pending_sync_drops = 4 ∷ 2 ∷ [];
  active = true;
}

abbrev right : Branch
right = record {
  branch_id = "right";
  latest_frame = 0;
  processed_frame = 0;
  dropped_frames = [];
  pending_sync_drops = [];
  active = true;
}

abbrev pair : Group
pair = record {
  group_id = "stereo";
  branches = ("right", right) ∷ ("left", left) ∷ [];
  global_drops = 4 ∷ 2 ∷ [];
  drop_reasons = (4, "late") ∷ (2, "late") ∷ [];
  watermark = 1;
}

abbrev history : List Call
history =
    adds "left"
    ∷ adds "right"
    ∷ receives "left" 1
    ∷ drops "left" 1 "late"
    ∷ processes "right" 2
    ∷ cleans
    ∷ []

run_mono_example : 1 ≤ (run pair history).watermark
run_mono_example = run_mono pair history
