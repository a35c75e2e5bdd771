-- ===== src/Sync/Context.antt =====
-- `NodeSyncContext` of src/sync_coordinator.hpp: a node's handle on its branch of a sync group. The
-- coordinator is passed along; `none` is a handle without one.
use Prim.Native.String.{String}
use ai_pipe.Prelude.{ℕ, ◌≡◌, sym, ap, ◌∙◌, Bool, false, ◌||◌, Option, none, some, eqb}
use ai_pipe.Sync.Group.{Branch, Group, branch}
use ai_pipe.Sync.Coordinator.{
  Coordinator, group, coordinator_frame_received, coordinator_frame_processed, report_drop,
  coordinator_should_drop, coordinator_clear_pending, report_drop_lem,
}

pub record Context : Type 0 where
  pub group_id : String
  pub branch_id : String

pub on_frame_received : Context → Option Coordinator → ℕ → Option Coordinator
on_frame_received x none frame = none
on_frame_received x (some c) frame =
    some (coordinator_frame_received c x.group_id x.branch_id frame).0

pub on_frame_processed : Context → Option Coordinator → ℕ → Option Coordinator
on_frame_processed x none frame = none
on_frame_processed x (some c) frame =
    some (coordinator_frame_processed c x.group_id x.branch_id frame)

pub on_frame_dropped : Context → Option Coordinator → ℕ → String → Option Coordinator
on_frame_dropped x none frame reason = none
on_frame_dropped x (some c) frame reason = some (report_drop c x.group_id x.branch_id frame reason)

pub should_skip_frame : Context → Option Coordinator → ℕ → Bool
should_skip_frame x none frame = false
should_skip_frame x (some c) frame = coordinator_should_drop c x.group_id x.branch_id frame

pub acknowledge_sync_drop : Context → Option Coordinator → ℕ → Option Coordinator
acknowledge_sync_drop x none frame = none
acknowledge_sync_drop x (some c) frame =
    some (coordinator_clear_pending c x.group_id x.branch_id frame)

-- When a node whose branch its group knows reports a drop, a node on any branch of the group must skip
-- that frame, and must skip another frame exactly if it had to before.
pub on_frame_dropped_lem :
    (x y : Context) (c : Coordinator) (frame : ℕ) (reason : String) (g : Group) (s : Branch) (f : ℕ)
    → group c x.group_id ≡ some g
    → branch g x.branch_id ≡ some s
    → x.group_id ≡ y.group_id
    → should_skip_frame y (on_frame_dropped x (some c) frame reason) f
      ≡ (eqb frame f || should_skip_frame y (some c) f)
unfolding on_frame_dropped should_skip_frame
on_frame_dropped_lem x y c frame reason g s f known member same =
    ap
      (λ id.
        coordinator_should_drop (report_drop c x.group_id x.branch_id frame reason) id y.branch_id
          f)
      (sym same)
    ∙ (report_drop_lem c x.group_id x.branch_id frame reason g s known member).0 y.branch_id f
    ∙ ap (λ id. eqb frame f || coordinator_should_drop c id y.branch_id f) same
