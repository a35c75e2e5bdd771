-- ===== src/Engine/Tasks.antt =====
-- The scheduling state machine of a node and the engine's count of active tasks, in src/execution_engine_impl.cpp,
-- run by any number of threads. An event is one atomic access of a thread to the state of a node or to the
-- count, or its return from a hook of the node. A thread between two such accesses is counted at
-- the place where it stands. Which event comes next is free, so every interleaving is a list of events, and
-- any thread may try to claim a node at any time: the tests that the code makes before an attempt are left
-- out, for another thread can change what they read.
mod Places
pub mod Owners
pub mod Counts
pub mod Progress
mod Tests
use ai_pipe.Prelude.{
  ℕ, zero, suc, ◌+◌, ◌-◌, Bool, true, false, not, ◌&&◌, ◌||◌, Option, none, some, List, [], ◌∷◌,
  eqb, ltb, length, get_elem?, set, if◌then◌else◌, ◌>>=◌, ◌≡◌, subst, >>=-eq-some,
}

pub data NodeExecutionState : Type 0 where
  waiting ready executing completed failed : NodeExecutionState

-- A node: its two atomic members, how often its hook for the end of the stream has returned since the last reset, and how many threads
-- stand at each place of the code that works for it.
pub record Node : Type 0 where
  pub exec_state : NodeExecutionState
  pub eos_propagated : Bool
  pub flushes : ℕ
  -- in `scheduleNodeExecution`: before the count goes up, and before the task is posted
  pub claimed : ℕ
  pub counted : ℕ
  -- tasks in the pool that no worker has begun
  pub posted : ℕ
  -- in `executeNodeTask`, from the claim of the node to the store that gives it back; `process()` is inside
  pub running : ℕ
  -- tasks that are about to lower the count
  pub leaving : ℕ
  -- in `checkNodeEndOfStream`: after the claim, and around `onEndOfStream()`
  pub closing : ℕ
  pub flushing : ℕ

pub new_node : Node
new_node = record {
  exec_state = waiting;
  eos_propagated = false;
  flushes = 0;
  claimed = 0;
  counted = 0;
  posted = 0;
  running = 0;
  leaving = 0;
  closing = 0;
  flushing = 0;
}

-- How the work of `executeNodeTask` on the node ends, with what the loads of the flags and the strategy return.
pub data Ending : Type 0 where
  -- no inputs: whether the engine streams, whether it is to stop, and whether it streams when that is asked again
  gather_failed : Bool → Bool → Bool → Ending
  -- `process()` returned, and the engine is to stop
  stopped : Ending
  -- it succeeded: whether the strategy keeps the node in service
  succeeded : Bool → Ending
  -- it failed: whether the engine streams
  unsuccessful : Bool → Ending

-- `handleNodeFailure`
pub state_after_failure : Bool → NodeExecutionState
state_after_failure streaming = if streaming then waiting else failed

-- What is stored when the work ends.
pub state_after : Ending → NodeExecutionState
state_after (gather_failed streaming stop still) =
    if streaming && not stop then waiting else state_after_failure still
state_after stopped = waiting
state_after (succeeded keeps) = if keeps then waiting else completed
state_after (unsuccessful streaming) = state_after_failure streaming

pub data Event : Type 0 where
  -- `scheduleNodeExecution`
  schedule count_task post post_fails : Event
  -- `executeNodeTask`: whether the stop flag is set
  begin : Bool → Event
  give_back : Ending → Event
  leave : Event
  -- `checkNodeEndOfStream`
  claim_end propagate end_hook_returns : Event

abbrev pub is_waiting : NodeExecutionState → Bool
is_waiting waiting = true
is_waiting _ = false

abbrev pub is_ready : NodeExecutionState → Bool
is_ready ready = true
is_ready _ = false

abbrev pub is_completed : NodeExecutionState → Bool
is_completed completed = true
is_completed _ = false

-- A compare-and-exchange that fails changes nothing, and the thread leaves.
pub schedule_node : Node → Node
schedule_node n =
    if is_waiting n.exec_state then record n { exec_state = ready; claimed = suc n.claimed } else n

pub begin_task : Bool → Node → Node
begin_task stop n =
    let taken = record n { posted = n.posted - 1 } in
    if stop
    then record taken { exec_state = waiting; leaving = suc n.leaving }
    else if is_ready n.exec_state
    then record taken { exec_state = executing; running = suc n.running }
    else record taken { leaving = suc n.leaving }

pub claim_for_end : Node → Node
claim_for_end n =
    if is_waiting n.exec_state || is_completed n.exec_state
    then record n { exec_state = executing; closing = suc n.closing }
    else n

-- The exchange of the flag: the first thread runs the hook, any other gives the node back.
pub propagate_end : Node → Node
propagate_end n =
    let left = record n { closing = n.closing - 1 } in
    if n.eos_propagated
    then record left { exec_state = waiting }
    else record left { eos_propagated = true; flushing = suc n.flushing }

-- The accesses of a thread that depend on nothing but the place where it stands.
abbrev pub count_active : Node → Node
count_active n = record n { claimed = n.claimed - 1; counted = suc n.counted }

abbrev pub post_task : Node → Node
post_task n = record n { counted = n.counted - 1; posted = suc n.posted }

abbrev pub fail_post : Node → Node
fail_post n = record n { exec_state = waiting; counted = n.counted - 1; leaving = suc n.leaving }

abbrev pub give_node_back : Ending → Node → Node
give_node_back ending n = record n {
  exec_state = state_after ending;
  running = n.running - 1;
  leaving = suc n.leaving;
}

abbrev pub leave_node_task : Node → Node
leave_node_task n = record n { leaving = n.leaving - 1 }

abbrev pub end_hook_return : Node → Node
end_hook_return n = record n {
  exec_state = completed;
  flushing = n.flushing - 1;
  flushes = suc n.flushes;
}

-- `none` when no thread stands at the place.
abbrev pub if_any : ℕ → Node × ℕ → Option (Node × ℕ)
if_any k after = if ltb 0 k then some after else none

-- What the event does to the node and to the count of active tasks.
pub act : Event → Node → ℕ → Option (Node × ℕ)
act schedule n active = some (schedule_node n, active)
act count_task n active = if_any n.claimed (count_active n, suc active)
act post n active = if_any n.counted (post_task n, active)
act post_fails n active = if_any n.counted (fail_post n, active)
act (begin stop) n active = if_any n.posted (begin_task stop n, active)
act (give_back ending) n active = if_any n.running (give_node_back ending n, active)
act leave n active = if_any n.leaving (leave_node_task n, active - 1)
act claim_end n active = some (claim_for_end n, active)
act propagate n active = if_any n.closing (propagate_end n, active)
act end_hook_returns n active = if_any n.flushing (end_hook_return n, active)

pub record Engine : Type 0 where
  pub nodes : List Node
  pub active_tasks : ℕ

-- An event at the node with that index.
pub happen : Engine → ℕ × Event → Option Engine
happen e (i, v) = do
  n ← get_elem? e.nodes i
  after ← act v n e.active_tasks
  some (record { nodes = set e.nodes i after.0; active_tasks = after.1 })

-- A history: `none` when an event of it cannot happen.
pub happen_all : Engine → List (ℕ × Event) → Option Engine
happen_all e [] = some e
happen_all e (v ∷ vs) = do after ← happen e v; happen_all after vs

abbrev pub idle_nodes : ℕ → List Node
idle_nodes zero = []
idle_nodes (suc k) = new_node ∷ idle_nodes k

pub idle_engine : ℕ → Engine
idle_engine k = record { nodes = idle_nodes k; active_tasks = 0 }

-- What `resetInternalState`, at the start of an execution, and `reset` store in the states of the nodes and in the
-- count. The threads stay where they are.
pub reset_node : Node → Node
reset_node n = record n { exec_state = waiting; eos_propagated = false; flushes = 0 }

pub reset_nodes : List Node → List Node
reset_nodes [] = []
reset_nodes (n ∷ ns) = reset_node n ∷ reset_nodes ns

pub reset_states : Engine → Engine
reset_states e = record { nodes = reset_nodes e.nodes; active_tasks = 0 }

-- No thread is at work for any of the nodes.
abbrev pub IsAtRest : List Node → Type 0
IsAtRest [] = Unit {0}
IsAtRest (n ∷ ns) =
    (n.claimed + n.counted + n.posted + n.running + n.leaving + n.closing + n.flushing ≡ 0)
    × IsAtRest ns

-- What histories of an engine with that many nodes lead to, in which each reset finds no thread at work.
pub data Reach (k : ℕ) : Engine → Type 0 where
  idle : Reach k (idle_engine k)
  event : (v : ℕ × Event) {e e' : Engine} → Reach k e → happen e v ≡ some e' → Reach k e'
  reset : {e : Engine} → Reach k e → IsAtRest e.nodes → Reach k (reset_states e)

pub Reach-happen_all :
    {k : ℕ} (xs : List (ℕ × Event)) {e e' : Engine}
    → Reach k e
    → happen_all e xs ≡ some e'
    → Reach k e'
unfolding happen_all
Reach-happen_all {k} [] {e} {e'} r h = let same : e ≡ e' = cc in subst (Reach k) same r
Reach-happen_all (x ∷ xs) {e} {e'} r h =
    let (m, first, rest) = >>=-eq-some (happen e x) (λ after. happen_all after xs) h in
    Reach-happen_all xs (event x r first) rest
