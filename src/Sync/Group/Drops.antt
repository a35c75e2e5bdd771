-- ===== src/Sync/Group/Drops.antt =====
-- What a reported drop does to the branch that reports it and to its siblings.
pub mod Receipts
use Prim.Native.String.{String}
use mathlib.Core.Option
use text.Mathlib.TextEquality.{eq_iff}
use ai_pipe.Prelude.{
  ℕ, ◌≡◌, sym, ap, ◌∙◌, arith, Bool, true, false, not, ◌&&◌, ◌||◌, Option, none, some, ◌==◌,
  string_eq, nat_eq, if◌then◌else◌, Option-cases, Bool-cases, inl, inr,
}
use ai_pipe.Prelude.Sets.{contains, insert, contains-insert, contains-erase, contains-keep}
use ai_pipe.Prelude.Maps.{lookup-modify, lookup-map_entries}
use ai_pipe.Sync.Group.{
  Branch, Group, branch, has_branch, must_drop, is_pending, mark_pending, report_frame_dropped,
  should_drop_frame, clear_pending_sync_drop, clear_pending_sync_drops_before, settle,
  report_frame_received,
}

abbrev add_dropped : ℕ → Branch → Branch
add_dropped frame s = record s { dropped_frames = insert frame s.dropped_frames }

branch_after_drop :
    (g : Group) (b : String) (frame : ℕ) (reason : String) (s : Branch) (other : String)
    → branch g b ≡ some s
    → branch (report_frame_dropped g b frame reason).0 other
      ≡ Option.map
          (mark_pending b frame other)
          (if b == other then Option.map (add_dropped frame) (branch g other) else branch g other)
unfolding report_frame_dropped
branch_after_drop g b frame reason s other known =
    rw (known, report_frame_dropped)
      (lookup-map_entries (mark_pending b frame) other _
        ∙ ap (Option.map (mark_pending b frame other))
            (lookup-modify b other (add_dropped frame) g.branches))

-- A sibling of a branch that reports a drop has the frame pending exactly if it had it pending
-- before, or has not processed the frame yet; nothing else about the sibling changes.
pub sibling_after_drop :
    (g : Group) (b : String) (frame : ℕ) (reason : String) (s : Branch) (other : String)
    (t : Branch)
    → branch g b ≡ some s
    → (b == other) ≡ false
    → branch g other ≡ some t
    → (t' : Branch) × (branch (report_frame_dropped g b frame reason).0 other ≡ some t')
      × ((f : ℕ)
          → contains t'.pending_sync_drops f
            ≡ (contains t.pending_sync_drops f || (frame == f && must_drop frame t)))
      × (t' ≡ record t { pending_sync_drops = t'.pending_sync_drops })
unfolding mark_pending
sibling_after_drop g b frame reason s other t known ne found =
    let differs : (other == b) ≡ false = ground (arith, eq_iff b other, eq_iff other b) in
    (
      mark_pending b frame other t,
      branch_after_drop g b frame reason s other known
          ∙ ap
              (λ (c : Bool).
                Option.map (mark_pending b frame other)
                  (if c then Option.map (add_dropped frame) (branch g other) else branch g other))
              ne
          ∙ ap (Option.map (mark_pending b frame other)) found,
      λ f. ground (arith, contains-insert frame f t.pending_sync_drops, differs),
      ground (arith, differs),
    )

-- The reporting branch records the frame as dropped; its other fields stay.
pub reporter_after_drop :
    (g : Group) (b : String) (frame : ℕ) (reason : String) (s : Branch)
    → branch g b ≡ some s
    → branch (report_frame_dropped g b frame reason).0 b ≡ some (add_dropped frame s)
unfolding mark_pending
reporter_after_drop g b frame reason s known =
    branch_after_drop g b frame reason s b known ∙ ground (arith, known, eq_iff b b)

global_after_drop :
    (g : Group) (b : String) (frame : ℕ) (reason : String) (s : Branch)
    → branch g b ≡ some s
    → (report_frame_dropped g b frame reason).0.global_drops ≡ insert frame g.global_drops
unfolding report_frame_dropped
global_after_drop g b frame reason s known = rw (known, report_frame_dropped)

pending_after_drop :
    (b other : String) (frame f : ℕ) (c : Bool) (o : Option Branch)
    → (frame == f
        || is_pending
            (Option.map
              (mark_pending b frame other)
              (if c then Option.map (add_dropped frame) o else o))
            f)
      ≡ (frame == f || is_pending o f)
unfolding mark_pending
pending_after_drop b other frame f c none = ground arith
pending_after_drop b other frame f true (some t) =
    ground (arith, contains-insert frame f t.pending_sync_drops)
pending_after_drop b other frame f false (some t) =
    ground (arith, contains-insert frame f t.pending_sync_drops)

-- After a drop by a known branch the answer of `shouldDropFrame` is true for that frame and every
-- branch, and as before for every other frame.
pub should_drop-after_drop :
    (g : Group) (b : String) (frame : ℕ) (reason : String) (s : Branch) (other : String) (f : ℕ)
    → branch g b ≡ some s
    → should_drop_frame (report_frame_dropped g b frame reason).0 other f
      ≡ (frame == f || should_drop_frame g other f)
unfolding should_drop_frame
should_drop-after_drop g b frame reason s other f known =
    rw
      (
        branch_after_drop g b frame reason s other known,
        global_after_drop g b frame reason s known,
        contains-insert frame f g.global_drops,
      )
      (ground (arith, pending_after_drop b other frame f (b == other) (branch g other)))
