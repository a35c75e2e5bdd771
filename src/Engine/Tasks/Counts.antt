-- ===== src/Engine/Tasks/Counts.antt =====
-- The count of active tasks of the engine of src/execution_engine_impl.cpp, and what histories keep true.
use ai_pipe.Prelude.{
  ℕ, zero, suc, ◌+◌, ◌≤◌, ◌<◌, ◌≡◌, refl, sym, ap, subst, ◌∙◌, arith, Bool, true, false, ◌||◌, some,
  List, [], ◌∷◌, get_elem?, set, Bool-cases, Option-cases, inl, inr,
}
use ai_pipe.Engine.Tasks.{
  Node, new_node, Event, schedule, count_task, post, post_fails, begin, give_back, leave, claim_end,
  propagate, end_hook_returns, is_waiting, is_completed, schedule_node, begin_task, claim_for_end,
  propagate_end, act, Engine, happen, happen_all, idle_nodes, idle_engine, reset_nodes, reset_node,
  reset_states, IsAtRest, Reach, idle, event, reset,
}
use ai_pipe.Engine.Tasks.Places.{sum_over, All, All-at, All-set, sum_over-set, sum_over-ge}
use ai_pipe.Engine.Tasks.Owners.{Owned, if_any-some, act-Owned, holders_ready, holders_executing}

-- The tasks of a node: counted, and not done yet.
abbrev pub tasks : Node → ℕ
tasks n = n.counted + n.posted + n.running + n.leaving

tasks-schedule_node : (n : Node) → tasks (schedule_node n) ≡ tasks n
unfolding schedule_node
tasks-schedule_node n = ground arith

tasks-claim_for_end : (n : Node) → tasks (claim_for_end n) ≡ tasks n
unfolding claim_for_end
tasks-claim_for_end n = elim (Bool-cases (is_waiting n.exec_state || is_completed n.exec_state)) [
  | inl free ↦ rw free refl
  | inr taken ↦ rw taken refl
]

tasks-propagate_end : (n : Node) → tasks (propagate_end n) ≡ tasks n
unfolding propagate_end
tasks-propagate_end n = ground arith

tasks-begin_task : (stop : Bool) (n : Node) → 0 < n.posted → tasks (begin_task stop n) ≡ tasks n
unfolding begin_task
tasks-begin_task true n here = omega (arith, here)
tasks-begin_task false n here = ground (arith, here)

act-tasks :
    (x : Event) (n n' : Node) (active active' : ℕ)
    → act x n active ≡ some (n', active')
    → tasks n ≤ active
    → active' + tasks n ≡ active + tasks n'
unfolding act
act-tasks schedule n n' active active' h le =
    let same : schedule_node n ≡ n' = cc in
    let count : active ≡ active' = cc in omega (arith, ap tasks same, count, tasks-schedule_node n)
act-tasks count_task n n' active active' h le =
    let (here, same, count) = if_any-some n.claimed _ n' active' h in
    omega (arith, ap tasks same, count, here, le)
act-tasks post n n' active active' h le =
    let (here, same, count) = if_any-some n.counted _ n' active' h in
    omega (arith, ap tasks same, count, here, le)
act-tasks post_fails n n' active active' h le =
    let (here, same, count) = if_any-some n.counted _ n' active' h in
    omega (arith, ap tasks same, count, here, le)
act-tasks (begin stop) n n' active active' h le =
    let (here, same, count) = if_any-some n.posted _ n' active' h in
    omega (arith, ap tasks same, count, tasks-begin_task stop n here)
act-tasks (give_back ending) n n' active active' h le =
    let (here, same, count) = if_any-some n.running _ n' active' h in
    omega (arith, ap tasks same, count, here, le)
act-tasks leave n n' active active' h le =
    let (here, same, count) = if_any-some n.leaving _ n' active' h in
    omega (arith, ap tasks same, count, here, le)
act-tasks claim_end n n' active active' h le =
    let same : claim_for_end n ≡ n' = cc in
    let count : active ≡ active' = cc in omega (arith, ap tasks same, count, tasks-claim_for_end n)
act-tasks propagate n n' active active' h le =
    let (here, same, count) = if_any-some n.closing _ n' active' h in
    omega (arith, ap tasks same, count, tasks-propagate_end n)
act-tasks end_hook_returns n n' active active' h le =
    let (here, same, count) = if_any-some n.flushing _ n' active' h in
    omega (arith, ap tasks same, count, here, le)

-- What every history keeps true.
pub record Sound (e : Engine) : Type 0 where
  pub owned : All Owned e.nodes
  pub counts : e.active_tasks ≡ sum_over tasks e.nodes

-- An event that happened, happened to some node.
pub happen-some :
    (e e' : Engine) (i : ℕ) (x : Event)
    → happen e (i, x) ≡ some e'
    → (n n' : Node) × (get_elem? e.nodes i ≡ some n)
      × (act x n e.active_tasks ≡ some (n', e'.active_tasks))
      × (e'.nodes ≡ set e.nodes i n')
unfolding happen
happen-some e e' i x h = elim (Option-cases (get_elem? e.nodes i)) [
  | inl none_there ↦ absurd (ground (arith, h, none_there))
  | inr (n, there) ↦ elim (Option-cases (act x n e.active_tasks)) [
    | inl refused ↦ absurd (ground (arith, h, there, refused))
    | inr ((n', active'), done) ↦
        let new : Engine = record { nodes = set e.nodes i n'; active_tasks = active' } in
        let ran : happen e (i, x) ≡ some new = rw (there, done, happen) refl in
        let both : some new ≡ some e' = sym ran ∙ h in
        let same : new ≡ e' = cc in
        (
          n,
          n',
          there,
          done ∙ ap (λ (a : Engine). some (n', a.active_tasks)) same,
          ap (λ a. a.nodes) (sym same),
        )
  ]
]

happen-Sound : (e e' : Engine) (i : ℕ) (x : Event) → happen e (i, x) ≡ some e' → Sound e → Sound e'
happen-Sound e e' i x h v =
    let (n, n', there, done, nodes) = happen-some e e' i x h in
    let le = sum_over-ge tasks e.nodes i n there in
    record {
      owned = subst (All Owned) (sym nodes) (
          All-set Owned e.nodes i n' v.owned (
            act-Owned x n n' e.active_tasks e'.active_tasks done
              (All-at Owned e.nodes i n v.owned there)));
      counts = omega (
        arith,
        v.counts,
        act-tasks x n n' e.active_tasks e'.active_tasks done (omega (arith, v.counts, le)),
        sum_over-set tasks e.nodes i n n' there,
        ap (sum_over tasks) nodes,
      );
    }

pub happen_all-cons :
    (e e' : Engine) (x : ℕ × Event) (xs : List (ℕ × Event))
    → happen_all e (x ∷ xs) ≡ some e'
    → (m : Engine) × (happen e x ≡ some m) × (happen_all m xs ≡ some e')
unfolding happen_all
happen_all-cons e e' x xs h = elim (Option-cases (happen e x)) [
  | inl refused ↦ absurd (ground (arith, h, refused))
  | inr (m, done) ↦ (m, done, ground (arith, h, done))
]

pub happen_all-Sound :
    (e e' : Engine) (xs : List (ℕ × Event)) → happen_all e xs ≡ some e' → Sound e → Sound e'
unfolding happen_all
happen_all-Sound e e' [] h v = let same : e ≡ e' = cc in subst Sound same v
happen_all-Sound e e' ((i, x) ∷ xs) h v =
    let (m, first, rest) = happen_all-cons e e' (i, x) xs h in
    happen_all-Sound m e' xs rest (happen-Sound e m i x first v)

idle_nodes-Owned : (k : ℕ) → All Owned (idle_nodes k)
unfolding new_node
idle_nodes-Owned zero = tt
idle_nodes-Owned (suc k) =
    (record { as_ready = refl; as_executing = refl; once = refl }, idle_nodes-Owned k)

idle_nodes-tasks : (k : ℕ) → sum_over tasks (idle_nodes k) ≡ 0
unfolding sum_over new_node
idle_nodes-tasks zero = refl
idle_nodes-tasks (suc k) = omega (arith, idle_nodes-tasks k)

reset_nodes-Owned : (ns : List Node) → IsAtRest ns → All Owned ns → All Owned (reset_nodes ns)
unfolding reset_nodes reset_node
reset_nodes-Owned [] rest v = tt
reset_nodes-Owned (n ∷ ns) (rest, rests) (v, vs) = (
  record {
    as_ready = omega (arith, rest);
    as_executing = omega (arith, rest);
    once = omega (arith, rest);
  },
  reset_nodes-Owned ns rests vs,
)

reset_nodes-tasks : (ns : List Node) → IsAtRest ns → sum_over tasks (reset_nodes ns) ≡ 0
unfolding sum_over reset_nodes reset_node
reset_nodes-tasks [] rest = refl
reset_nodes-tasks (n ∷ ns) (rest, rests) = omega (arith, rest, reset_nodes-tasks ns rests)

pub history-Sound : (k : ℕ) (e : Engine) → Reach k e → Sound e
unfolding idle_engine reset_states
history-Sound k _ idle = record { owned = idle_nodes-Owned k; counts = sym (idle_nodes-tasks k) }
history-Sound k e' (event (i, x) {e} r h) = happen-Sound e e' i x h (history-Sound k e r)
history-Sound k _ (reset {e} r rest) = record {
  owned = reset_nodes-Owned e.nodes rest (history-Sound k e r).owned;
  counts = sym (reset_nodes-tasks e.nodes rest);
}

one_holder :
    (n : Node) → Owned n → n.claimed + n.counted + n.posted + n.running + n.closing + n.flushing ≤ 1
one_holder n v = ground (arith, v.as_ready, v.as_executing)

-- After every history of an engine that starts idle, in which each reset of the states finds no thread at work, at
-- every node: at most one thread is between a claim of
-- the node and the store that gives it back, so `process()` never runs twice at once and never beside
-- `onEndOfStream()`, the state of the node says READY or EXECUTING when there is one and something
-- else when there is none, and the hook `onEndOfStream()` was run at most once since the last reset.
pub one_owner :
    (k : ℕ) (e : Engine) (i : ℕ) (n : Node)
    → Reach k e
    → get_elem? e.nodes i ≡ some n
    → (n.claimed + n.counted + n.posted + n.running + n.closing + n.flushing ≤ 1)
      × (n.claimed + n.counted + n.posted ≡ holders_ready n.exec_state)
      × (n.running + n.closing + n.flushing ≡ holders_executing n.exec_state)
      × (n.flushes ≤ 1)
one_owner k e i n h there =
    let v = All-at Owned e.nodes i n (history-Sound k e h).owned there in
    (one_holder n v, v.as_ready, v.as_executing, ground (arith, v.once))

-- After every history of an engine that starts idle, in which each reset of the states finds no thread at work, the
-- count of active tasks is the number of tasks
-- that were counted and are not done yet, over all nodes.
pub active_tasks_lem :
    (k : ℕ) (e : Engine)
    → Reach k e
    → e.active_tasks ≡ sum_over (λ n. n.counted + n.posted + n.running + n.leaving) e.nodes
active_tasks_lem k e h = (history-Sound k e h).counts
