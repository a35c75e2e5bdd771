-- ===== src/Pool/Steps.antt =====
-- The steps of the threads of the pool of src/work_stealing_thread_pool.hpp, and its histories.
use ai_pipe.Prelude.{ℕ, ◌<◌, ◌≡◌, ◌≢◌, Bool, true, false, some, List, get_elem?}
use ai_pipe.Pool.Deque.{pop_front, steal_back}
use ai_pipe.Pool.{
  Pool, k_stopping, pick_out, busy, admit, push_task, count_pending, publish_task, take_task,
  steal_task, claim_task, leave_task, count_completed, retire_task, is_running, stop_pool,
  finish_pool, exit_worker, clear_queue, reset_pending, reset_unclaimed,
}

pub data Step (p : Pool) : Pool → Type 0 where
  -- `enqueueTask`, with any task and, since it looks for room, any queue
  admitted : (task : ℕ) → is_running p.state ≡ true → Step p (admit task p)
  pushed :
      (k target task : ℕ) (others queue : List ℕ)
      → pick_out k p.admitted ≡ some (task, others)
      → get_elem? p.queues target ≡ some queue
      → Step p (push_task task others target queue p)
  counted : 0 < p.pushed → Step p (count_pending p)
  published : 0 < p.counted → Step p (publish_task p)
  -- `workerLoop` of an idle worker
  popped :
      (worker task : ℕ) (rest queue : List ℕ)
      → busy p < p.workers
      → get_elem? p.queues worker ≡ some queue
      → pop_front queue ≡ some (task, rest)
      → Step p (take_task worker rest task p)
  stolen :
      (worker victim task : ℕ) (rest queue : List ℕ)
      → busy p < p.workers
      → victim ≢ worker
      → get_elem? p.queues victim ≡ some queue
      → steal_back queue ≡ some (task, rest)
      → Step p (steal_task victim rest task p)
  exited :
      busy p < p.workers
      → is_running p.state ≡ false
      → p.unclaimed_tasks ≡ 0
      → Step p (exit_worker p)
  -- `workerLoop` and `executeTask` of a worker with a task
  claimed :
      (k task : ℕ) (others : List ℕ)
      → pick_out k p.taken ≡ some (task, others)
      → Step p (claim_task task others p)
  left :
      (k task : ℕ) (others : List ℕ)
      → pick_out k p.executing ≡ some (task, others)
      → Step p (leave_task task others p)
  completed :
      (k task : ℕ) (others : List ℕ)
      → pick_out k p.finished ≡ some (task, others)
      → Step p (count_completed task others p)
  retired :
      (k task : ℕ) (others : List ℕ)
      → pick_out k p.retiring ≡ some (task, others)
      → Step p (retire_task task others p)
  -- `shutdown`, whose last store waits for all workers
  stopped : is_running p.state ≡ true → Step p (stop_pool p)
  joined : p.state ≡ k_stopping → p.workers ≡ 0 → Step p (finish_pool p)

-- What `shutdown(false)` does in addition.
pub data Discard (p : Pool) : Pool → Type 0 where
  cleared :
      (i : ℕ) (queue : List ℕ)
      → p.state ≡ k_stopping
      → get_elem? p.queues i ≡ some queue
      → Discard p (clear_queue i queue p)
  pending_reset : p.state ≡ k_stopping → Discard p (reset_pending p)
  unclaimed_reset : p.state ≡ k_stopping → Discard p (reset_unclaimed p)

-- What a history leads to from `p`; with the steps of `shutdown(false)` if they are allowed.
pub data Reach (discards : Bool) (p : Pool) : Pool → Type 0 where
  here : Reach discards p p
  step : {q r : Pool} → Reach discards p q → Step q r → Reach discards p r
  discard : {q r : Pool} → discards ≡ true → Reach discards p q → Discard q r → Reach discards p r
