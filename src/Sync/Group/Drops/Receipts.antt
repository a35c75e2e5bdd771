-- ===== src/Sync/Group/Drops/Receipts.antt =====
-- What receipts, the clearing of pending drops and reports do to a branch of a group of src/sync_coordinator.hpp.
use Prim.Native.String.{String}
use text.Mathlib.TextEquality.{eq_iff}
use ai_pipe.Prelude.{
  ℕ, ◌≡◌, refl, sym, ap, ◌∙◌, arith, not, ◌&&◌, ◌||◌, some, List, [], ◌∷◌, ltb, ◌==◌, string_eq,
  nat_eq, Option-cases, Bool-cases, inl, inr,
}
use ai_pipe.Prelude.Sets.{contains, insert, contains-insert, contains-erase, contains-keep}
use ai_pipe.Prelude.Maps.{lookup-modify}
use ai_pipe.Sync.Group.{
  Branch, Group, branch, has_branch, must_drop, is_pending, mark_pending, report_frame_dropped,
  clear_pending_sync_drop, clear_pending_sync_drops_before, settle, report_frame_received,
}
use ai_pipe.Sync.Group.Drops.{add_dropped, reporter_after_drop, sibling_after_drop}

-- A known branch that receives a frame has it pending afterwards if the group has dropped that
-- frame; what else is pending stays as it was, and the call returns the watermark.
pub pending_after_receipt :
    (g : Group) (b : String) (frame : ℕ) (s : Branch) (f : ℕ)
    → branch g b ≡ some s
    → (is_pending (branch (report_frame_received g b frame).0 b) f
        ≡ (is_pending (branch g b) f || (frame == f && contains g.global_drops frame)))
      × ((report_frame_received g b frame).1 ≡ g.watermark)
unfolding report_frame_received
pending_after_receipt g b frame s f known =
    rw (known, report_frame_received, lookup-modify b b _ g.branches, known)
      (ground (arith, eq_iff b b, contains-insert frame f s.pending_sync_drops))

settle_lem :
    (frame : ℕ) (pending dropped : List ℕ) (f : ℕ)
    → contains (settle frame pending dropped) f
      ≡ (contains dropped f || (contains pending f && ltb f frame))
unfolding settle contains
settle_lem frame [] dropped f = ground arith
settle_lem frame (x ∷ pending) dropped f = ground (
  arith,
  settle_lem frame pending (insert x dropped) f,
  settle_lem frame pending dropped f,
  contains-insert x f dropped,
)

-- For a known branch, acknowledging the drops before a frame moves exactly the pending frames below
-- it to the dropped frames.
pub clear_before_lem :
    (g : Group) (b : String) (frame : ℕ) (s : Branch) (f : ℕ)
    → branch g b ≡ some s
    → (t : Branch) × (branch (clear_pending_sync_drops_before g b frame) b ≡ some t)
      × (contains t.pending_sync_drops f ≡ (not (ltb f frame) && contains s.pending_sync_drops f))
      × (contains t.dropped_frames f
          ≡ (contains s.dropped_frames f || (contains s.pending_sync_drops f && ltb f frame)))
unfolding clear_pending_sync_drops_before
clear_before_lem g b frame s f known =
    rw (lookup-modify b b _ g.branches, known, (eq_iff b b).1 refl)
      (
        _,
        refl,
        contains-keep (λ x. not (ltb x frame)) f s.pending_sync_drops,
        settle_lem frame s.pending_sync_drops s.dropped_frames f,
      )

-- Acknowledging one drop moves that frame, and no other, from the pending to the dropped frames.
pub clear_lem :
    (g : Group) (b : String) (frame : ℕ) (s : Branch) (f : ℕ)
    → branch g b ≡ some s
    → (t : Branch) × (branch (clear_pending_sync_drop g b frame) b ≡ some t)
      × (contains t.pending_sync_drops f ≡ (not (frame == f) && contains s.pending_sync_drops f))
      × (contains t.dropped_frames f ≡ (frame == f || contains s.dropped_frames f))
unfolding clear_pending_sync_drop
clear_lem g b frame s f known =
    rw (lookup-modify b b _ g.branches, known, (eq_iff b b).1 refl)
      (
        _,
        refl,
        contains-erase frame f s.pending_sync_drops,
        contains-insert frame f s.dropped_frames,
      )

-- What any report does to a branch that is there.
pub branch_after_report :
    (g : Group) (b : String) (frame : ℕ) (reason : String) (other : String) (t : Branch)
    → branch g other ≡ some t
    → (t' : Branch) × (branch (report_frame_dropped g b frame reason).0 other ≡ some t')
      × (t'.processed_frame ≡ t.processed_frame)
      × (contains t'.pending_sync_drops frame ≡ (
          contains t.pending_sync_drops frame
          || (has_branch g b && (not (b == other) && must_drop frame t))))
unfolding has_branch report_frame_dropped mark_pending
branch_after_report g b frame reason other t found = elim (Option-cases (branch g b)) [
  | inl unknown ↦
      (t, rw (unknown, report_frame_dropped) found, refl, rw (unknown, has_branch) (ground arith))
  | inr (s, known) ↦ elim (Bool-cases (b == other)) [
    | inl hit ↦
        let same : b ≡ other = (eq_iff b other).0 hit in
        (
          add_dropped frame t,
          rw (sym same) (reporter_after_drop g b frame reason t (ap (branch g) same ∙ found)),
          refl,
          rw (known, has_branch, hit) (ground arith),
        )
    | inr ne ↦
        let (t', after, pending, rest) =
          sibling_after_drop g b frame reason s other t known ne found in
        (
          t',
          after,
          ap (λ x. x.processed_frame) rest,
          rw (known, has_branch, ne) (ground (arith, pending frame)),
        )
  ]
]
