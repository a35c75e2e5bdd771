-- ===== src/Engine/Tasks/Owners.antt =====
-- At most one thread owns a node of the engine of src/execution_engine_impl.cpp.
use ai_pipe.Prelude.{
  ℕ, ◌+◌, ◌<◌, ◌≡◌, refl, sym, ap, subst, ◌∙◌, arith, Bool, true, false, ◌||◌, none, some, ltb,
  if◌then◌else◌, Bool-cases, inl, inr,
}
use ai_pipe.Engine.Tasks.{
  NodeExecutionState, ready, executing, Node, Ending, gather_failed, stopped, succeeded,
  unsuccessful, state_after, state_after_failure, Event, schedule, count_task, post, post_fails,
  begin, give_back, leave, claim_end, propagate, end_hook_returns, is_waiting, is_ready,
  is_completed, schedule_node, begin_task, claim_for_end, propagate_end, if_any, act,
}

-- How many threads hold the node as READY, and as EXECUTING.
abbrev pub holders_ready : NodeExecutionState → ℕ
holders_ready ready = 1
holders_ready _ = 0

abbrev pub holders_executing : NodeExecutionState → ℕ
holders_executing executing = 1
holders_executing _ = 0

abbrev pub flag : Bool → ℕ
flag true = 1
flag false = 0

-- The state of a node tells how many threads hold it, and the flag how many ran the hook.
pub record Owned (n : Node) : Type 0 where
  pub as_ready : n.claimed + n.counted + n.posted ≡ holders_ready n.exec_state
  pub as_executing : n.running + n.closing + n.flushing ≡ holders_executing n.exec_state
  pub once : n.flushing + n.flushes ≡ flag n.eos_propagated

schedule_node-Owned : (n : Node) → Owned n → Owned (schedule_node n)
unfolding schedule_node
schedule_node-Owned n v = elim (Bool-cases (is_waiting n.exec_state)) [
  | inl free ↦ rw free (record {
    as_ready = ground (arith, v.as_ready, free);
    as_executing = ground (arith, v.as_executing, free);
    once = v.once;
  })
  | inr taken ↦ rw taken v
]

state_after-holders :
    (x : Ending) → (holders_ready (state_after x) ≡ 0) × (holders_executing (state_after x) ≡ 0)
unfolding state_after state_after_failure
state_after-holders (gather_failed streaming stop still) = ground arith
state_after-holders stopped = (refl, refl)
state_after-holders (succeeded keeps) = ground arith
state_after-holders (unsuccessful streaming) = ground arith

begin_task-Owned : (stop : Bool) (n : Node) → 0 < n.posted → Owned n → Owned (begin_task stop n)
unfolding begin_task
begin_task-Owned true n here v = record {
  as_ready = ground (arith, v.as_ready);
  as_executing = ground (arith, v.as_ready, v.as_executing);
  once = v.once;
}
begin_task-Owned false n here v = elim (Bool-cases (is_ready n.exec_state)) [
  | inl held ↦ rw held (record {
    as_ready = ground (arith, v.as_ready, held);
    as_executing = ground (arith, v.as_executing, held);
    once = v.once;
  })
  | inr lost ↦ absurd (ground (arith, v.as_ready, lost))
]

claim_for_end-Owned : (n : Node) → Owned n → Owned (claim_for_end n)
unfolding claim_for_end
claim_for_end-Owned n v = elim (Bool-cases (is_waiting n.exec_state || is_completed n.exec_state)) [
  | inl free ↦ rw free (record {
    as_ready = ground (arith, v.as_ready, free);
    as_executing = ground (arith, v.as_executing, free);
    once = v.once;
  })
  | inr taken ↦ rw taken v
]

propagate_end-Owned : (n : Node) → 0 < n.closing → Owned n → Owned (propagate_end n)
unfolding propagate_end
propagate_end-Owned n here v = elim (Bool-cases n.eos_propagated) [
  | inl done ↦ rw done (record {
    as_ready = ground (arith, v.as_ready, v.as_executing);
    as_executing = ground (arith, v.as_executing);
    once = ground (arith, v.once, done);
  })
  | inr first ↦ rw first (record {
    as_ready = v.as_ready;
    as_executing = ground (arith, v.as_executing);
    once = ground (arith, v.once, first);
  })
]

-- An event that needs a thread at some place happened: one stood there.
pub if_any-some :
    (k : ℕ) (after : Node × ℕ) (n' : Node) (a' : ℕ)
    → if_any k after ≡ some (n', a')
    → (0 < k) × (after.0 ≡ n') × (after.1 ≡ a')
if_any-some k after n' a' h = elim (Bool-cases (ltb 0 k)) [
  | inl here ↦
      let both : some after ≡ some (n', a') =
        sym (ap (λ b. if b then some after else none) here) ∙ h in
      let same : after ≡ (n', a') = cc in (ground arith, ap (λ x. x.0) same, ap (λ x. x.1) same)
  | inr nobody ↦
      let nothing : if_any k after ≡ none = ap (λ b. if b then some after else none) nobody in cc
]

pub act-Owned :
    (x : Event) (n n' : Node) (active active' : ℕ)
    → act x n active ≡ some (n', active')
    → Owned n
    → Owned n'
unfolding act
act-Owned schedule n n' active active' h v =
    let same : schedule_node n ≡ n' = cc in subst Owned same (schedule_node-Owned n v)
act-Owned count_task n n' active active' h v =
    let (here, same, _) = if_any-some n.claimed _ n' active' h in
    subst Owned same (record {
      as_ready = omega (arith, v.as_ready, here);
      as_executing = v.as_executing;
      once = v.once;
    })
act-Owned post n n' active active' h v =
    let (here, same, _) = if_any-some n.counted _ n' active' h in
    subst Owned same (record {
      as_ready = omega (arith, v.as_ready, here);
      as_executing = v.as_executing;
      once = v.once;
    })
act-Owned post_fails n n' active active' h v =
    let (here, same, _) = if_any-some n.counted _ n' active' h in
    subst Owned same (record {
      as_ready = ground (arith, v.as_ready, here);
      as_executing = ground (arith, v.as_ready, v.as_executing, here);
      once = v.once;
    })
act-Owned (begin stop) n n' active active' h v =
    let (here, same, _) = if_any-some n.posted _ n' active' h in
    subst Owned same (begin_task-Owned stop n here v)
act-Owned (give_back ending) n n' active active' h v =
    let (here, same, _) = if_any-some n.running _ n' active' h in
    let (r, e) = state_after-holders ending in
    subst Owned same (record {
      as_ready = ground (arith, v.as_ready, v.as_executing, here, r);
      as_executing = ground (arith, v.as_executing, here, e);
      once = v.once;
    })
act-Owned leave n n' active active' h v =
    let (here, same, _) = if_any-some n.leaving _ n' active' h in
    subst Owned same
      (record { as_ready = v.as_ready; as_executing = v.as_executing; once = v.once })
act-Owned claim_end n n' active active' h v =
    let same : claim_for_end n ≡ n' = cc in subst Owned same (claim_for_end-Owned n v)
act-Owned propagate n n' active active' h v =
    let (here, same, _) = if_any-some n.closing _ n' active' h in
    subst Owned same (propagate_end-Owned n here v)
act-Owned end_hook_returns n n' active active' h v =
    let (here, same, _) = if_any-some n.flushing _ n' active' h in
    subst Owned same (record {
      as_ready = ground (arith, v.as_ready, v.as_executing, here);
      as_executing = ground (arith, v.as_executing, here);
      once = omega (arith, v.once, here);
    })
