-- ===== src/Join/Drops.antt =====
-- A drop that one node reports reaches the nodes on the other branches, in src/join_aware_sync_strategy.hpp.
use Prim.Native.String.{String}
use text.Mathlib.TextEquality.{eq_iff}
use ai_pipe.Prelude.{
  ℕ, ◌≡◌, ◌⊎◌, inl, inr, refl, sym, ap₂, subst, ◌∙◌, arith, true, false, ◌||◌, some, List, [], ◌∷◌,
  ◌==◌, string_eq, nat_eq, Bool-cases,
}
use ai_pipe.Prelude.Sets.{contains}
use ai_pipe.Sync.Group.{
  Branch, Group, branch, has_branch, must_drop, report_frame_dropped, get_pending_sync_drops,
}
use ai_pipe.Sync.Group.Drops.Receipts.{branch_after_report}
use ai_pipe.Sync.Coordinator.{
  Coordinator, group, report_drop, group-report_drop, coordinator_pending_drops,
}
use ai_pipe.Join.{
  Strategy, mappings_of, report_to_all, strategy_report_drop, pending_in_some, strategy_should_drop,
}

-- What a coordinator knows of a branch of a group.
abbrev pub Known : Coordinator → String → String → (Branch → Type 0) → Type 0
Known c id b P = (g : Group) × (t : Branch) × (group c id ≡ some g) × (branch g b ≡ some t) × P t

abbrev pub IsThere : Branch → Type 0
IsThere t = Unit {0}

-- The branch has not processed the frame, or has it pending.
abbrev pub Awaits : ℕ → Branch → Type 0
Awaits frame t = (must_drop frame t || contains t.pending_sync_drops frame) ≡ true

abbrev pub IsDue : ℕ → Branch → Type 0
IsDue frame t = contains t.pending_sync_drops frame ≡ true

-- A report, of any branch, changes a known branch to one that has processed the same and has no less pending.
Known-report :
    (P : Branch → Type 0) (c : Coordinator) (id b id' b' : String) (frame : ℕ) (reason : String)
    → ((t t' : Branch)
        → t'.processed_frame ≡ t.processed_frame
        → (contains t.pending_sync_drops frame ≡ true → contains t'.pending_sync_drops frame ≡ true)
        → P t
        → P t')
    → Known c id b P
    → Known (report_drop c id' b' frame reason) id b P
Known-report P c id b id' b' frame reason keep (g, t, known, found, holds) =
    let after = group-report_drop c id' b' frame reason id in
    elim (Bool-cases (id' == id)) [
      | inr other ↦ (g, t, ground (arith, after, other, known), found, holds)
      | inl hit ↦
          let (t', found', processed, pending) = branch_after_report g b' frame reason b t found in
          (
            (report_frame_dropped g b' frame reason).0,
            t',
            ground (arith, after, hit, known),
            found',
            keep t t' processed (λ h. ground (arith, pending, h)) holds,
          )
    ]

-- The report of another branch of the group makes the frame due.
IsDue-report :
    (c : Coordinator) (id b b' : String) (frame : ℕ) (reason : String)
    → Known c id b' IsThere
    → (b' == b) ≡ false
    → Known c id b (Awaits frame)
    → Known (report_drop c id b' frame reason) id b (IsDue frame)
unfolding has_branch
IsDue-report c id b b' frame reason (h, s, known', found', _) ne (g, t, known, found, waits) =
    let same : h ≡ g = (let e : some h ≡ some g = sym known' ∙ known in cc) in
    let (t', after, _, pending) = branch_after_report g b' frame reason b t found in
    let there : has_branch g b' ≡ true = rw (sym same, found', has_branch) refl in
    (
      (report_frame_dropped g b' frame reason).0,
      t',
      ground (arith, group-report_drop c id b' frame reason id, eq_iff id id, known),
      after,
      ground (arith, pending, there, ne, waits),
    )

-- The node is mapped to that branch of that group.
abbrev pub Among : String → String → List (String × String) → Type 0
Among id b [] = ⊥
Among id b ((id', b') ∷ rest) = ((id' ≡ id) × (b' ≡ b)) ⊎ Among id b rest

IsDue-stays :
    (c : Coordinator) (ms : List (String × String)) (id b : String) (frame : ℕ) (reason : String)
    (found : List String)
    → Known c id b (IsDue frame)
    → Known (report_to_all c ms frame reason found).0 id b (IsDue frame)
unfolding report_to_all
IsDue-stays c [] id b frame reason found v = v
IsDue-stays c ((id', b') ∷ rest) id b frame reason found v =
    IsDue-stays (report_drop c id' b' frame reason) rest id b frame reason _
      (Known-report (IsDue frame) c id b id' b' frame reason (λ t t' same more due. more due) v)

becomes-IsDue :
    (c : Coordinator) (ms : List (String × String)) (id b b' : String) (frame : ℕ) (reason : String)
    (found : List String)
    → Among id b' ms
    → (b' == b) ≡ false
    → Known c id b' IsThere
    → Known c id b (Awaits frame)
    → Known (report_to_all c ms frame reason found).0 id b (IsDue frame)
unfolding report_to_all must_drop
becomes-IsDue c [] id b b' frame reason found mapped ne there waits = absurd mapped
becomes-IsDue c ((i, x) ∷ rest) id b b' frame reason found mapped ne there waits = elim mapped [
  | inl (same_group, same_branch) ↦
      IsDue-stays (report_drop c i x frame reason) rest id b frame reason _ (
        subst (λ k. Known (report_drop c k x frame reason) id b (IsDue frame)) (sym same_group)
          (subst (λ k. Known (report_drop c id k frame reason) id b (IsDue frame)) (sym same_branch)
            (IsDue-report c id b b' frame reason there ne waits)))
  | inr later ↦
      becomes-IsDue (report_drop c i x frame reason) rest id b b' frame reason _ later ne
        (Known-report IsThere c id b' i x frame reason (λ t t' same more h. tt) there)
        (Known-report (Awaits frame) c id b i x frame reason
          (λ t t' same more h. ground (arith, same, more, h)) waits)
]

pending-IsDue :
    (c : Coordinator) (id b : String) (frame : ℕ)
    → Known c id b (IsDue frame)
    → contains (coordinator_pending_drops c id b) frame ≡ true
unfolding coordinator_pending_drops get_pending_sync_drops
pending-IsDue c id b frame (g, t, known, found, due) =
    rw (known, coordinator_pending_drops, found, get_pending_sync_drops) due

pending-Among :
    (c : Coordinator) (ms : List (String × String)) (id b : String) (frame : ℕ)
    → Among id b ms
    → Known c id b (IsDue frame)
    → pending_in_some c ms frame ≡ true
unfolding pending_in_some
pending-Among c [] id b frame mapped due = absurd mapped
pending-Among c ((i, x) ∷ rest) id b frame mapped due = elim mapped [
  | inl (same_group, same_branch) ↦
      let here : contains (coordinator_pending_drops c i x) frame ≡ true =
        ap₂ (λ k y. contains (coordinator_pending_drops c k y) frame) same_group same_branch
        ∙ pending-IsDue c id b frame due in
      ground (arith, here)
  | inr later ↦ ground (arith, pending-Among c rest id b frame later due)
]

-- When a node reports that it drops a frame, then every node on another branch of one of its groups is told
-- to drop that frame, if the two branches are in the group and the other branch has not processed
-- the frame yet, or has it pending already; whatever other groups the two nodes belong to.
pub siblings_told :
    (s : Strategy) (node other : String) (id b b' : String) (frame : ℕ) (reason : String)
    (g : Group) (mine theirs : Branch)
    → Among id b (mappings_of s node)
    → Among id b' (mappings_of s other)
    → (b == b') ≡ false
    → group s.coordinator id ≡ some g
    → branch g b ≡ some mine
    → branch g b' ≡ some theirs
    → (must_drop frame theirs || contains theirs.pending_sync_drops frame) ≡ true
    → strategy_should_drop (strategy_report_drop s node frame reason).0 other frame ≡ true
unfolding strategy_report_drop strategy_should_drop
siblings_told s node other id b b' frame reason g mine theirs mapped mapped' ne known found found'
      waits =
    pending-Among (report_to_all s.coordinator (mappings_of s node) frame reason []).0
      (mappings_of s other) id b' frame mapped'
      (becomes-IsDue s.coordinator (mappings_of s node) id b' b frame reason [] mapped ne
        (g, mine, known, found, tt) (g, theirs, known, found', waits))
