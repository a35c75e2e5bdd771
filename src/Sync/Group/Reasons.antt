-- ===== src/Sync/Group/Reasons.antt =====
-- What every history of calls keeps true of a sync group.
use Prim.Native.String.{String}
use ai_pipe.Prelude.{
  ℕ, ◌≤◌, ◌≡◌, refl, arith, Bool, true, false, not, ◌&&◌, none, some, List, [], ◌∷◌, ltb, string_eq,
  nat_eq, if◌then◌else◌, Option-cases, Bool-cases, inl, inr,
}
use native.Mathlib.Nat.{le_refl, le_trans}
use ai_pipe.Prelude.Sets.{contains, contains-insert, contains-keep}
use ai_pipe.Prelude.Maps.{
  lookup, erase_key, keys, Distinct, keys-modify, keys-map_entries, erase_key-Distinct,
  assign-Distinct, lookup-assign, lookup-erase_key,
}
use ai_pipe.Sync.Group.{
  Group, branch, with_branch, new_branch, new_group, has_branch, add_branch, remove_branch,
  update_watermark, report_frame_received, report_frame_processed, report_frame_dropped,
  clear_pending_sync_drop, clear_pending_sync_drops_before, forget_reasons, cleanup,
}
use ai_pipe.Sync.Group.Watermark.{update_watermark_mono}

-- The calls that change a group.
pub data Call : Type 0 where
  adds removes : String → Call
  receives processes acknowledges acknowledges_before : String → ℕ → Call
  drops : String → ℕ → String → Call
  cleans : Call

pub step : Group → Call → Group
step g (adds b) = add_branch g b
step g (removes b) = remove_branch g b
step g (receives b frame) = (report_frame_received g b frame).0
step g (processes b frame) = report_frame_processed g b frame
step g (acknowledges b frame) = clear_pending_sync_drop g b frame
step g (acknowledges_before b frame) = clear_pending_sync_drops_before g b frame
step g (drops b frame reason) = (report_frame_dropped g b frame reason).0
step g cleans = cleanup g

pub run : Group → List Call → Group
run g [] = g
run g (c ∷ cs) = run (step g c) cs

abbrev pub has_reason : List (ℕ × String) → ℕ → Bool
has_reason reasons frame = elim (lookup frame reasons) [ none ↦ false | some _ ↦ true ]

-- Exactly the frames that were dropped have a reason, and no branch is registered twice.
pub record Inv (g : Group) : Type 0 where
  pub reasons : (f : ℕ) → has_reason g.drop_reasons f ≡ contains g.global_drops f
  pub distinct : Distinct (keys g.branches)

pub new_group-Inv : (id : String) → Inv (new_group id)
unfolding new_group lookup contains keys
new_group-Inv id = record { reasons = λ f. refl; distinct = tt }

forget_lem :
    (w : ℕ) (gone : List ℕ) (reasons : List (ℕ × String)) (f : ℕ)
    → has_reason (forget_reasons w gone reasons) f
      ≡ (not (contains gone f && ltb f w) && has_reason reasons f)
unfolding forget_reasons contains
forget_lem w [] reasons f = refl
forget_lem w (x ∷ gone) reasons f = ground (
  arith,
  forget_lem w gone (erase_key x reasons) f,
  forget_lem w gone reasons f,
  lookup-erase_key x f reasons,
)

add-Inv : (g : Group) (b : String) → Inv g → Inv (add_branch g b)
unfolding add_branch
add-Inv g b v = elim (Bool-cases (has_branch g b)) [
  | inl known ↦ rw (known, add_branch) v
  | inr new ↦
      rw (new, add_branch)
        (record {
          reasons = v.reasons;
          distinct = assign-Distinct b (new_branch b) g.branches v.distinct;
        })
]

drop-Inv :
    (g : Group) (b : String) (frame : ℕ) (reason : String)
    → Inv g
    → Inv (report_frame_dropped g b frame reason).0
unfolding report_frame_dropped
drop-Inv g b frame reason v = elim (Option-cases (branch g b)) [
  | inl e ↦ rw (e, report_frame_dropped) v
  | inr (s, e) ↦
      rw (e, report_frame_dropped)
        (record {
          reasons = λ f. ground (
            arith,
            lookup-assign frame f reason g.drop_reasons,
            contains-insert frame f g.global_drops,
            v.reasons f,
          );
          distinct = rw (keys-map_entries, keys-modify) v.distinct;
        })
]

cleanup-Inv : (g : Group) → Inv g → Inv (cleanup g)
unfolding cleanup
cleanup-Inv g v = record {
  reasons = λ f. ground (
    arith,
    forget_lem g.watermark g.global_drops g.drop_reasons f,
    contains-keep (λ x. not (ltb x g.watermark)) f g.global_drops,
    v.reasons f,
  );
  distinct = rw keys-map_entries v.distinct;
}

processed-Inv :
    (g : Group) (b : String) (frame : ℕ) → Inv g → Inv (report_frame_processed g b frame)
unfolding report_frame_processed update_watermark
processed-Inv g b frame v = elim (Option-cases (branch g b)) [
  | inl e ↦ rw (e, report_frame_processed) v
  | inr (s, e) ↦
      rw (e, report_frame_processed)
        (record { reasons = v.reasons; distinct = rw keys-modify v.distinct })
]

received-Inv :
    (g : Group) (b : String) (frame : ℕ) → Inv g → Inv (report_frame_received g b frame).0
unfolding report_frame_received
received-Inv g b frame v = elim (Option-cases (branch g b)) [
  | inl e ↦ rw (e, report_frame_received) v
  | inr (s, e) ↦
      rw (e, report_frame_received)
        (record { reasons = v.reasons; distinct = rw keys-modify v.distinct })
]

-- Every call keeps the invariant.
pub step-Inv : (g : Group) (c : Call) → Inv g → Inv (step g c)
unfolding step remove_branch clear_pending_sync_drop clear_pending_sync_drops_before
step-Inv g (adds b) v = add-Inv g b v
step-Inv g (removes b) v = record {
  reasons = v.reasons;
  distinct = erase_key-Distinct b g.branches v.distinct;
}
step-Inv g (receives b frame) v = received-Inv g b frame v
step-Inv g (processes b frame) v = processed-Inv g b frame v
step-Inv g (acknowledges b frame) v = record {
  reasons = v.reasons;
  distinct = rw keys-modify v.distinct;
}
step-Inv g (acknowledges_before b frame) v = record {
  reasons = v.reasons;
  distinct = rw keys-modify v.distinct;
}
step-Inv g (drops b frame reason) v = drop-Inv g b frame reason v
step-Inv g cleans v = cleanup-Inv g v

run-Inv_from : (g : Group) (cs : List Call) → Inv g → Inv (run g cs)
unfolding run
run-Inv_from g [] v = v
run-Inv_from g (c ∷ cs) v = run-Inv_from (step g c) cs (step-Inv g c v)

-- After any history of calls of a new group a frame has a recorded reason exactly if it is among the
-- global drops, and no branch is registered twice.
pub run-Inv : (id : String) (cs : List Call) → Inv (run (new_group id) cs)
run-Inv id cs = run-Inv_from (new_group id) cs (new_group-Inv id)

-- No call lowers the watermark.
pub step_mono : (g : Group) (c : Call) → g.watermark ≤ (step g c).watermark
unfolding step add_branch remove_branch report_frame_received report_frame_dropped
    report_frame_processed clear_pending_sync_drop clear_pending_sync_drops_before cleanup
step_mono g (adds b) = ground arith
step_mono g (removes b) = le_refl _
step_mono g (receives b frame) = ground arith
step_mono g (processes b frame) = elim (Option-cases (branch g b)) [
  | inl e ↦ rw (e, report_frame_processed) (le_refl _)
  | inr (s, e) ↦
      let g' = with_branch g b (λ t. record t {
        processed_frame = if ltb t.processed_frame frame then frame else t.processed_frame;
      }) in
      rw (e, report_frame_processed) (update_watermark_mono g')
]
step_mono g (acknowledges b frame) = le_refl _
step_mono g (acknowledges_before b frame) = le_refl _
step_mono g (drops b frame reason) = ground arith
step_mono g cleans = le_refl _

-- No history of calls lowers the watermark.
pub run_mono : (g : Group) (cs : List Call) → g.watermark ≤ (run g cs).watermark
unfolding run
run_mono g [] = le_refl _
run_mono g (c ∷ cs) = le_trans (step_mono g c) (run_mono (step g c) cs)
