-- ===== src/Sync/Group.antt =====
-- `BranchState` and `SyncGroup` of src/sync_coordinator.hpp. A method that takes the lock runs alone;
-- it returns the new group. Hash maps and sets are association lists and lists, so the order in which
-- a loop visits the branches is the list's.
pub mod Watermark
pub mod Drops
pub mod Reasons
pub mod Cleanup
mod Tests
use Prim.Native.String.{String}
use ai_pipe.Prelude.{
  ℕ, ◌-◌, ◌^◌, max, Bool, true, false, not, ◌&&◌, ◌||◌, Option, none, some, List, [], ◌∷◌, ◌++◌,
  eqb, ltb, ◌==◌, string_eq, nat_eq, if◌then◌else◌,
}
use ai_pipe.Prelude.Sets.{contains, insert, erase, keep}
use ai_pipe.Prelude.Maps.{lookup, assign, modify, erase_key, map_entries, keys}

-- `k_invalid_frame_id` and `k_end_of_stream_frame_id`
abbrev pub invalid_frame : ℕ
invalid_frame = 0

abbrev pub end_of_stream_frame : ℕ
end_of_stream_frame = 2 ^ 64 - 1

pub record Branch : Type 0 where
  pub branch_id : String
  pub latest_frame : ℕ
  pub processed_frame : ℕ
  pub dropped_frames : List ℕ
  pub pending_sync_drops : List ℕ
  pub active : Bool

pub record Group : Type 0 where
  pub group_id : String
  pub branches : List (String × Branch)
  pub global_drops : List ℕ
  pub drop_reasons : List (ℕ × String)
  pub watermark : ℕ

pub new_branch : String → Branch
new_branch id = record {
  branch_id = id;
  latest_frame = invalid_frame;
  processed_frame = invalid_frame;
  dropped_frames = [];
  pending_sync_drops = [];
  active = true;
}

pub new_group : String → Group
new_group id = record {
  group_id = id;
  branches = [];
  global_drops = [];
  drop_reasons = [];
  watermark = invalid_frame;
}

abbrev pub branch : Group → String → Option Branch
branch g b = lookup b g.branches

abbrev pub with_branch : Group → String → (Branch → Branch) → Group
with_branch g b f = record g { branches = modify b f g.branches }

unfoldable pub has_branch : Group → String → Bool
has_branch g b = elim (branch g b) [ none ↦ false | some _ ↦ true ]

pub add_branch : Group → String → Group
unfolding has_branch
add_branch g b =
    if has_branch g b then g else record g { branches = assign b (new_branch b) g.branches }

pub remove_branch : Group → String → Group
remove_branch g b = record g { branches = erase_key b g.branches }

pub branch_ids : Group → List String
branch_ids g = keys g.branches

-- The loop over `dropped_frames` in `updateWatermarkLocked`.
pub raise_by : ℕ → List ℕ → ℕ
raise_by effective [] = effective
raise_by effective (dropped ∷ rest) =
    raise_by
      (if ltb effective dropped || eqb effective invalid_frame
        then max effective dropped
        else effective)
      rest

pub effective_processed : Branch → ℕ
unfolding raise_by
effective_processed s = raise_by s.processed_frame s.dropped_frames

-- One branch in the search for the least frame.
pub lower_by : ℕ → Branch → ℕ
lower_by new_watermark s =
    let effective = effective_processed s in
    let better = eqb new_watermark end_of_stream_frame || ltb effective new_watermark in
    if s.active && (not (eqb effective invalid_frame) && better) then effective else new_watermark

pub least_processed : ℕ → List (String × Branch) → ℕ
least_processed new_watermark [] = new_watermark
least_processed new_watermark ((_, s) ∷ rest) = least_processed (lower_by new_watermark s) rest

pub update_watermark : Group → Group
update_watermark g =
    let new_watermark = least_processed end_of_stream_frame g.branches in
    let moves = not (eqb new_watermark end_of_stream_frame) && ltb g.watermark new_watermark in
    record g { watermark = if moves then new_watermark else g.watermark }

pub report_frame_received : Group → String → ℕ → Group × ℕ
report_frame_received g b frame = elim (branch g b) [
  | none ↦ (g, g.watermark)
  | some _ ↦ (
    with_branch g b (λ s. record s {
      latest_frame = if ltb s.latest_frame frame then frame else s.latest_frame;
      pending_sync_drops =
          if contains g.global_drops frame
          then insert frame s.pending_sync_drops
          else s.pending_sync_drops;
    }),
    g.watermark,
  )
]

pub report_frame_processed : Group → String → ℕ → Group
report_frame_processed g b frame = elim (branch g b) [
  | none ↦ g
  | some _ ↦ update_watermark (
      with_branch g b (λ s. record s {
        processed_frame = if ltb s.processed_frame frame then frame else s.processed_frame;
      }))
]

-- A sibling that has not processed the frame must drop it.
unfoldable pub must_drop : ℕ → Branch → Bool
must_drop frame s = ltb s.processed_frame frame || eqb s.processed_frame invalid_frame

pub affected : String → ℕ → List (String × Branch) → List String
affected b frame [] = []
affected b frame ((other, s) ∷ rest) =
    if not (other == b) && must_drop frame s
    then other ∷ affected b frame rest
    else affected b frame rest

pub mark_pending : String → ℕ → String → Branch → Branch
mark_pending b frame other s =
    if not (other == b) && must_drop frame s
    then record s { pending_sync_drops = insert frame s.pending_sync_drops }
    else s

pub report_frame_dropped : Group → String → ℕ → String → Group × List String
report_frame_dropped g b frame reason = elim (branch g b) [
  | none ↦ (g, [])
  | some _ ↦
      let dropped =
        modify b (λ s. record s { dropped_frames = insert frame s.dropped_frames }) g.branches in
      (
        record g {
          branches = map_entries (mark_pending b frame) dropped;
          global_drops = insert frame g.global_drops;
          drop_reasons = assign frame reason g.drop_reasons;
        },
        affected b frame dropped,
      )
]

abbrev pub is_pending : Option Branch → ℕ → Bool
is_pending none frame = false
is_pending (some s) frame = contains s.pending_sync_drops frame

pub should_drop_frame : Group → String → ℕ → Bool
should_drop_frame g b frame = contains g.global_drops frame || is_pending (branch g b) frame

unfoldable pub get_pending_sync_drops : Group → String → List ℕ
get_pending_sync_drops g b = elim (branch g b) [ none ↦ [] | some s ↦ s.pending_sync_drops ]

pub clear_pending_sync_drop : Group → String → ℕ → Group
clear_pending_sync_drop g b frame = with_branch g b (λ s. record s {
  pending_sync_drops = erase frame s.pending_sync_drops;
  dropped_frames = insert frame s.dropped_frames;
})

-- The loop of `clearPendingSyncDropsBefore` that moves frames to the dropped ones.
pub settle : ℕ → List ℕ → List ℕ → List ℕ
settle frame [] dropped = dropped
settle frame (f ∷ pending) dropped =
    settle frame pending (if ltb f frame then insert f dropped else dropped)

pub clear_pending_sync_drops_before : Group → String → ℕ → Group
clear_pending_sync_drops_before g b frame = with_branch g b (λ s. record s {
  pending_sync_drops = keep (λ f. not (ltb f frame)) s.pending_sync_drops;
  dropped_frames = settle frame s.pending_sync_drops s.dropped_frames;
})

pub least_latest : ℕ → List (String × Branch) → ℕ
least_latest m [] = m
least_latest m ((_, s) ∷ rest) =
    least_latest (if s.active && ltb s.latest_frame m then s.latest_frame else m) rest

pub min_latest_frame : Group → ℕ
min_latest_frame g = least_latest end_of_stream_frame g.branches

-- The reasons of the drops that `cleanup` forgets go with them.
pub forget_reasons : ℕ → List ℕ → List (ℕ × String) → List (ℕ × String)
forget_reasons w [] reasons = reasons
forget_reasons w (f ∷ drops) reasons =
    forget_reasons w drops (if ltb f w then erase_key f reasons else reasons)

pub cleanup : Group → Group
cleanup g = record g {
  global_drops = keep (λ f. not (ltb f g.watermark)) g.global_drops;
  drop_reasons = forget_reasons g.watermark g.global_drops g.drop_reasons;
  branches =
      map_entries
        (λ _ s. record s { dropped_frames = keep (λ f. not (ltb f g.watermark)) s.dropped_frames })
        g.branches;
}
