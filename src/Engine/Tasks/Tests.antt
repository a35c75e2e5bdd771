-- ===== src/Engine/Tasks/Tests.antt =====
-- The theorems on the scheduling state machine at concrete inputs: two threads race for one node.
use ai_pipe.Prelude.{ℕ, ◌+◌, ◌≤◌, ◌≡◌, refl, true, false, some, List, [], ◌∷◌, length, get_elem?}
use ai_pipe.Engine.Tasks.{
  executing, Node, new_node, Event, schedule, count_task, post, begin, give_back, succeeded, leave,
  claim_end, propagate, end_hook_returns, schedule_node, begin_task, claim_for_end, propagate_end,
  state_after, act, Engine, happen, happen_all, idle_engine, reset_states, reset_nodes, reset_node,
  Reach, idle, reset, Reach-happen_all,
}
use ai_pipe.Engine.Tasks.Places.{sum_over}
use ai_pipe.Engine.Tasks.Owners.{holders_ready, holders_executing}
use ai_pipe.Engine.Tasks.Counts.{one_owner, active_tasks_lem}
use ai_pipe.Engine.Tasks.Progress.{work, rest_reachable}

-- The node runs once and gives itself back, another thread closes it, and its task has not left yet.
abbrev history : List (ℕ × Event)
history =
    (0, schedule)
    ∷ (0, schedule)
    ∷ (0, count_task)
    ∷ (0, post)
    ∷ (0, begin false)
    ∷ (0, claim_end)
    ∷ (0, give_back (succeeded true))
    ∷ (0, claim_end)
    ∷ (0, propagate)
    ∷ []

abbrev closing_node : Node
closing_node = record {
  exec_state = executing;
  eos_propagated = true;
  flushes = 0;
  claimed = 0;
  counted = 0;
  posted = 0;
  running = 0;
  leaving = 1;
  closing = 0;
  flushing = 1;
}

abbrev closing_engine : Engine
closing_engine = record { nodes = closing_node ∷ []; active_tasks = 1 }

ran : happen_all (idle_engine 1) history ≡ some closing_engine
unfolding happen_all happen act schedule_node begin_task claim_for_end propagate_end state_after
    idle_engine new_node
ran = refl

reached : Reach 1 closing_engine
unfolding reset_states reset_nodes reset_node idle_engine new_node
reached = Reach-happen_all history (reset idle (refl, tt)) ran

one_owner_example :
    (closing_node.claimed + closing_node.counted + closing_node.posted + closing_node.running
        + closing_node.closing + closing_node.flushing
      ≤ 1)
    × (closing_node.claimed + closing_node.counted + closing_node.posted
        ≡ holders_ready closing_node.exec_state)
    × (closing_node.running + closing_node.closing + closing_node.flushing
        ≡ holders_executing closing_node.exec_state)
    × (closing_node.flushes ≤ 1)
one_owner_example = one_owner 1 closing_engine 0 closing_node reached refl

active_tasks_lem_example :
    closing_engine.active_tasks
    ≡ sum_over (λ n. n.counted + n.posted + n.running + n.leaving) closing_engine.nodes
active_tasks_lem_example = active_tasks_lem 1 closing_engine reached

rest_reachable_example :
    (ys : List (ℕ × Event)) × (e' : Engine) × (happen_all closing_engine ys ≡ some e')
    × (length ys ≤ sum_over work closing_engine.nodes)
    × (e'.active_tasks ≡ 0)
    × ((i : ℕ) (n : Node)
        → get_elem? e'.nodes i ≡ some n
        → (holders_ready n.exec_state ≡ 0) × (holders_executing n.exec_state ≡ 0))
rest_reachable_example = rest_reachable 1 closing_engine reached

-- A second thread saw the node before the first took the flag, and claims it after the hook has returned.
loser_test :
    happen_all closing_engine
      ((0, end_hook_returns) ∷ (0, leave) ∷ (0, claim_end) ∷ (0, propagate) ∷ [])
    ≡ some (record {
      nodes = record new_node { eos_propagated = true; flushes = 1 } ∷ [];
      active_tasks = 0;
    })
unfolding happen_all happen act claim_for_end propagate_end new_node
loser_test = refl

-- A reset beside a thread that is inside `process()`: the node is claimed and run a second time.
abbrev run_once : List (ℕ × Event)
run_once = (0, schedule) ∷ (0, count_task) ∷ (0, post) ∷ (0, begin false) ∷ []

abbrev run_engine : ℕ → Engine
run_engine threads = record {
  nodes = record new_node { exec_state = executing; running = threads } ∷ [];
  active_tasks = 1;
}

straggler_test :
    (happen_all (idle_engine 1) run_once ≡ some (run_engine 1))
    × (happen_all (reset_states (run_engine 1)) run_once ≡ some (run_engine 2))
unfolding happen_all happen act schedule_node begin_task idle_engine new_node reset_states
    reset_nodes reset_node
straggler_test = (refl, refl)
