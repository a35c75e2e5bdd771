-- ===== src/Sync/Group/Cleanup.antt =====
-- What `SyncGroup::cleanup` of src/sync_coordinator.hpp forgets.
use Prim.Native.String.{String}
use mathlib.Core.Option
use ai_pipe.Prelude.{ℕ, ◌≡◌, refl, not, ◌&&◌, ◌||◌, Option, none, some, ltb, nat_eq, string_eq}
use ai_pipe.Prelude.Sets.{contains, keep, contains-keep}
use ai_pipe.Prelude.Maps.{lookup-map_entries}
use ai_pipe.Sync.Group.{Branch, Group, branch, is_pending, should_drop_frame, cleanup}

abbrev forget : ℕ → Branch → Branch
forget w s = record s { dropped_frames = keep (λ x. not (ltb x w)) s.dropped_frames }

pending-map :
    (o : Option Branch) (w f : ℕ) → is_pending (Option.map (forget w) o) f ≡ is_pending o f
pending-map none w f = refl
pending-map (some s) w f = refl

-- After `cleanup` a branch must drop a frame exactly if it has the frame pending, or the frame is a drop of
-- the group that is not below the watermark.
pub cleanup_lem :
    (g : Group) (b : String) (f : ℕ)
    → should_drop_frame (cleanup g) b f
      ≡ ((not (ltb f g.watermark) && contains g.global_drops f) || is_pending (branch g b) f)
unfolding should_drop_frame cleanup
cleanup_lem g b f = rw (
  contains-keep (λ x. not (ltb x g.watermark)) f g.global_drops,
  lookup-map_entries (λ _ s. forget g.watermark s) b g.branches,
  pending-map (branch g b) g.watermark f,
)
