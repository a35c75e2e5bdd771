-- ===== src/Sync/Coordinator.antt =====
-- `SyncCoordinator` of src/sync_coordinator.hpp: groups by name, each call passed to its group, and the drop
-- callback called for each branch that a drop affects. Calls of the callback are collected in
-- `delivered`, oldest first.
use Prim.Native.String.{String, ◌++◌ as ◌+++◌}
use text.Mathlib.TextEquality.{eq_iff}
use mathlib.Core.Option
use ai_pipe.Prelude.{
  ℕ, ◌≡◌, refl, sym, ap, ◌∙◌, arith, Bool, true, false, ◌||◌, Option, none, some, List, [], ◌∷◌,
  ◌++◌, map, ◌==◌, string_eq, nat_eq, if◌then◌else◌, Option-cases, Bool-cases, inl, inr, ◌⊎◌,
}
use ai_pipe.Prelude.Maps.{
  lookup, assign, modify, erase_key, map_entries, keys, lookup-assign, lookup-modify,
}
mod Tests
use ai_pipe.Sync.Group.Drops.{should_drop-after_drop}
use ai_pipe.Sync.Group.{
  Branch, Group, branch, new_group, add_branch, remove_branch, report_frame_received,
  report_frame_processed, report_frame_dropped, should_drop_frame, get_pending_sync_drops,
  clear_pending_sync_drop, cleanup, invalid_frame,
}

pub record DropCall : Type 0 where
  pub group : String
  pub branch : String
  pub frame : ℕ
  pub reason : String

pub record Coordinator : Type 0 where
  pub groups : List (String × Group)
  -- whether a drop callback is set
  pub listening : Bool
  pub delivered : List DropCall

abbrev pub group : Coordinator → String → Option Group
group c id = lookup id c.groups

abbrev pub with_group : Coordinator → String → (Group → Group) → Coordinator
with_group c id f = record c { groups = modify id f c.groups }

pub new_coordinator : Coordinator
new_coordinator = record { groups = []; listening = false; delivered = [] }

pub add_branches : Group → List String → Group
add_branches g [] = g
add_branches g (b ∷ bs) = add_branches (add_branch g b) bs

pub create_sync_group : Coordinator → String → List String → Coordinator × Bool
create_sync_group c id branch_ids = elim (group c id) [
  | some _ ↦ (c, false)
  | none ↦ (record c { groups = assign id (add_branches (new_group id) branch_ids) c.groups }, true)
]

pub remove_sync_group : Coordinator → String → Coordinator
remove_sync_group c id = record c { groups = erase_key id c.groups }

pub has_sync_group : Coordinator → String → Bool
has_sync_group c id = elim (group c id) [ none ↦ false | some _ ↦ true ]

pub get_sync_group : Coordinator → String → Option Group
get_sync_group c id = group c id

pub sync_group_ids : Coordinator → List String
sync_group_ids c = keys c.groups

pub coordinator_add_branch : Coordinator → String → String → Coordinator × Bool
coordinator_add_branch c id b = elim (group c id) [
  | none ↦ (c, false)
  | some _ ↦ (with_group c id (λ g. add_branch g b), true)
]

pub coordinator_remove_branch : Coordinator → String → String → Coordinator
coordinator_remove_branch c id b = with_group c id (λ g. remove_branch g b)

pub coordinator_frame_received : Coordinator → String → String → ℕ → Coordinator × ℕ
coordinator_frame_received c id b frame = elim (group c id) [
  | none ↦ (c, invalid_frame)
  | some g ↦ (
    with_group c id (λ h. (report_frame_received h b frame).0),
    (report_frame_received g b frame).1,
  )
]

pub coordinator_frame_processed : Coordinator → String → String → ℕ → Coordinator
coordinator_frame_processed c id b frame = with_group c id (λ g. report_frame_processed g b frame)

pub drop_reason : String → String → String
drop_reason b reason = "Sync drop from " +++ (b +++ (": " +++ reason))

pub report_drop : Coordinator → String → String → ℕ → String → Coordinator
report_drop c id b frame reason = elim (group c id) [
  | none ↦ c
  | some g ↦
      let affected = (report_frame_dropped g b frame reason).1 in
      let call : String → DropCall = λ other. record {
        group = id;
        branch = other;
        frame = frame;
        reason = drop_reason b reason;
      } in
      let calls = if c.listening then map call affected else [] in
      record c {
        groups = modify id (λ h. (report_frame_dropped h b frame reason).0) c.groups;
        delivered = c.delivered ++ calls;
      }
]

pub coordinator_should_drop : Coordinator → String → String → ℕ → Bool
coordinator_should_drop c id b frame = elim (group c id) [
  | none ↦ false
  | some g ↦ should_drop_frame g b frame
]

unfoldable pub coordinator_pending_drops : Coordinator → String → String → List ℕ
coordinator_pending_drops c id b = elim (group c id) [
  | none ↦ []
  | some g ↦ get_pending_sync_drops g b
]

pub coordinator_clear_pending : Coordinator → String → String → ℕ → Coordinator
coordinator_clear_pending c id b frame = with_group c id (λ g. clear_pending_sync_drop g b frame)

pub get_watermark : Coordinator → String → ℕ
get_watermark c id = elim (group c id) [ none ↦ invalid_frame | some g ↦ g.watermark ]

pub set_drop_callback : Coordinator → Bool → Coordinator
set_drop_callback c set = record c { listening = set }

pub coordinator_cleanup : Coordinator → Coordinator
coordinator_cleanup c = record c { groups = map_entries (λ _ g. cleanup g) c.groups }

pub reset : Coordinator → Coordinator
reset c = record c { groups = [] }

-- A report changes the group that it names, if there is one, and no other.
pub group-report_drop :
    (c : Coordinator) (id b : String) (frame : ℕ) (reason : String) (id' : String)
    → group (report_drop c id b frame reason) id' ≡ (
        if id == id'
        then Option.map (λ g. (report_frame_dropped g b frame reason).0) (group c id')
        else group c id')
unfolding report_drop
group-report_drop c id b frame reason id' = elim (Option-cases (group c id)) [
  | inl unknown ↦
      rw (unknown, report_drop)
        (elim (Bool-cases (id == id')) [
          | inl hit ↦
              let same : id ≡ id' = (eq_iff id id').0 hit in
              rw hit (
                ap (λ k. group c k) (sym same)
                ∙ unknown
                ∙ sym (
                    ap
                      (λ k. Option.map (λ g. (report_frame_dropped g b frame reason).0) (group c k))
                      (sym same)
                    ∙ ap (Option.map (λ g. (report_frame_dropped g b frame reason).0)) unknown))
          | inr miss ↦ rw miss refl
        ])
  | inr (g, known) ↦ rw (known, report_drop) (lookup-modify id id' _ c.groups)
]

-- A drop that a known branch of a known group reports makes every branch of the group drop the
-- frame, changes the answer for no other frame, and leaves every other group as it was.
pub report_drop_lem :
    (c : Coordinator) (id b : String) (frame : ℕ) (reason : String) (g : Group) (s : Branch)
    → group c id ≡ some g
    → branch g b ≡ some s
    → ((other : String) (f : ℕ)
        → coordinator_should_drop (report_drop c id b frame reason) id other f
          ≡ (frame == f || coordinator_should_drop c id other f))
      × ((id' : String)
          → (id == id') ≡ false
          → group (report_drop c id b frame reason) id' ≡ group c id')
unfolding report_drop coordinator_should_drop
report_drop_lem c id b frame reason g s known member = (
  λ other f.
      rw
        (
          known,
          report_drop,
          lookup-modify id id _ c.groups,
          (eq_iff id id).1 refl,
          known,
          coordinator_should_drop,
        )
        (should_drop-after_drop g b frame reason s other f member),
  λ id' ne. rw (known, report_drop, lookup-modify id id' _ c.groups, ne),
)

-- If the name of a group is free, the call returns true and adds that group, with the branches
-- given, and no other. Otherwise it returns false and changes nothing.
pub create_sync_group_lem :
    (c : Coordinator) (id : String) (branch_ids : List String) (id' : String)
    → ((group c id ≡ none)
        × ((create_sync_group c id branch_ids).1 ≡ true)
        × (group (create_sync_group c id branch_ids).0 id'
            ≡ (if id == id' then some (add_branches (new_group id) branch_ids) else group c id')))
      ⊎ ((g : Group) × (group c id ≡ some g) × (create_sync_group c id branch_ids ≡ (c, false)))
unfolding create_sync_group
create_sync_group_lem c id branch_ids id' = elim (Option-cases (group c id)) [
  | inl e ↦
      inl
        (e, rw (e, create_sync_group), rw (e, create_sync_group) (lookup-assign id id' _ c.groups))
  | inr (g, e) ↦ inr (g, e, rw (e, create_sync_group))
]
