-- ===== src/Pool/Alone.antt =====
-- The searches of src/work_stealing_thread_pool.hpp through the queues, as run while no other thread changes
-- the queues: `selectTargetQueue`, `tryEnqueueTask`, the loop of `enqueueTask` and `trySteal`.
pub mod Rounds
pub mod Enqueue
use ai_pipe.Prelude.{
  ℕ, zero, suc, ◌+◌, ◌-◌, ◌%◌, Bool, true, false, not, Option, none, some, List, [], ◌∷◌, length,
  get_or, set, eqb, ltb, leb, if◌then◌else◌,
}
use ai_pipe.Prelude.Words.{add_word}
use ai_pipe.Pool.Deque.{push_front, steal_back}
use ai_pipe.Pool.{Pool, is_running, admit, push_task, count_pending, publish_task}

-- `tl_worker_index` is the index of the worker that asks, if one does.
pub select_target_queue : Option ℕ → Pool → ℕ × Pool
select_target_queue (some i) p = (i, p)
select_target_queue none p = (
  p.next_worker_index % length p.queues,
  record p { next_worker_index = add_word p.next_worker_index 1 },
)

abbrev pub size_at : List (List ℕ) → ℕ → ℕ
size_at queues i = length (get_or queues i [])

-- The loop of `tryEnqueueTask`, with the rounds that are left: `none` when all queues are full.
pub find_room : ℕ → ℕ → ℕ → ℕ → List (List ℕ) → Option ℕ
find_room limit target zero i queues = some target
find_room limit target (suc rounds) i queues =
    let idx = (target + i) % length queues in
    let rest = find_room limit target rounds (suc i) queues in
    if ltb (size_at queues idx) limit
    then some idx
    else if eqb i (length queues - 1)
    then none
    else rest

-- A task enters a queue and the counters.
pub enqueue_at : ℕ → ℕ → Pool → Pool
enqueue_at task target p =
    let q = admit task p in
    publish_task (count_pending (push_task task p.admitted target (get_or q.queues target []) q))

pub try_enqueue_at : ℕ → Option ℕ → Pool → Pool × Bool
try_enqueue_at task none p = (p, false)
try_enqueue_at task (some target) p = (enqueue_at task target p, true)

pub try_enqueue_task : ℕ → Option ℕ → ℕ → Pool → Pool × Bool
try_enqueue_task limit me task p =
    if not (is_running p.state)
    then (p, false)
    else let (target, selected) = select_target_queue me p in
      let found =
        if ltb 0 limit
        then find_room limit target (length selected.queues) 0 selected.queues
        else some target in
      try_enqueue_at task found selected

-- The loop of `enqueueTask`. Of each round the list has what `isRunning` and the test for the timeout return;
-- when it is used up the loop still spins.
pub data Waited : Type 0 where
  room : ℕ → Waited
  pool_stopped timed_out spinning : Waited

pub wait_for_room : ℕ → List (Bool × Bool) → ℕ → List (List ℕ) → Waited
wait_for_room limit [] target queues =
    if leb limit (size_at queues target) then spinning else room target
wait_for_room limit ((running, late) ∷ rounds) target queues =
    let next = (target + 1) % length queues in
    let rest = wait_for_room limit rounds next queues in
    if leb limit (size_at queues target)
    then (if not running
        then pool_stopped
        else if late
        then timed_out
        else if ltb (size_at queues next) limit
        then room next
        else rest)
    else room target

pub stolen_or : ℕ → Option (ℕ × List ℕ) → Option (ℕ × ℕ × List ℕ) → Option (ℕ × ℕ × List ℕ)
stolen_or victim none rest = rest
stolen_or victim (some (task, left)) rest = some (victim, task, left)

-- The loop of `trySteal`: the victim, the task, and what is left of the victim's queue.
pub steal_from : ℕ → ℕ → ℕ → ℕ → List (List ℕ) → Option (ℕ × ℕ × List ℕ)
steal_from worker start zero i queues = none
steal_from worker start (suc rounds) i queues =
    let victim = (start + i) % length queues in
    let rest = steal_from worker start rounds (suc i) queues in
    if eqb victim worker then rest else stolen_or victim (steal_back (get_or queues victim [])) rest

-- `start` is what the random distribution returns.
pub try_steal : ℕ → ℕ → List (List ℕ) → Option (ℕ × ℕ × List ℕ)
try_steal worker start queues =
    if leb (length queues) 1 then none else steal_from worker start (length queues) 0 queues
