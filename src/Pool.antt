-- ===== src/Pool.antt =====
-- src/work_stealing_thread_pool.hpp, run by any number of threads. A step is one access of a thread to a
-- queue, to an atomic counter or to the state, or its way out of a task. Threads are counted at the place
-- where they stand, with the task that they carry; which step comes next is free, so every interleaving of
-- submitters, workers and a shutdown is a sequence of steps. A task is a number. What the queues of a worker
-- are asked for when a method runs alone is in Alone.
pub mod Deque
pub mod Steps
pub mod Weights
pub mod Kept
pub mod Counters
pub mod Drain
pub mod Alone
mod Tests
use ai_pipe.Prelude.{
  ℕ, zero, suc, ◌+◌, ◌-◌, ◌<◌, ◌≡◌, ◌≢◌, Bool, true, false, not, Option, none, some, List, [], ◌∷◌,
  ◌++◌, length, get_elem?, set, ltb, ◌||◌,
}
use ai_pipe.Prelude.Words.{add_word, sub_word}
use ai_pipe.Pool.Deque.{push_front, pop_front, steal_back}

pub data State : Type 0 where
  k_running k_stopping k_stopped : State

pub record Pool : Type 0 where
  pub state : State
  pub queues : List (List ℕ)
  pub next_worker_index : ℕ
  pub pending_tasks : ℕ
  pub completed_tasks : ℕ
  pub unclaimed_tasks : ℕ
  pub steal_count : ℕ
  -- worker threads that have not returned
  pub workers : ℕ
  -- every task that was let in by the last test of `isRunning`, newest first
  pub submitted : List ℕ
  -- in `enqueueTask`: let in and not in a queue yet; in a queue and not counted as pending; not published
  pub admitted : List ℕ
  pub pushed : ℕ
  pub counted : ℕ
  -- in `workerLoop` and `executeTask`: out of a queue, claimed and in the task, out of the task, counted as completed
  pub taken : List ℕ
  pub executing : List ℕ
  pub finished : List ℕ
  pub retiring : List ℕ
  -- tasks that are no longer pending, and tasks that a shutdown without waiting has cleared
  pub done : List ℕ
  pub discarded : List ℕ

pub empty_queues : ℕ → List (List ℕ)
empty_queues zero = []
empty_queues (suc n) = [] ∷ empty_queues n

pub new_pool : ℕ → Pool
new_pool num_threads = record {
  state = k_running;
  queues = empty_queues num_threads;
  next_worker_index = 0;
  pending_tasks = 0;
  completed_tasks = 0;
  unclaimed_tasks = 0;
  steal_count = 0;
  workers = num_threads;
  submitted = [];
  admitted = [];
  pushed = 0;
  counted = 0;
  taken = [];
  executing = [];
  finished = [];
  retiring = [];
  done = [];
  discarded = [];
}

unfoldable pub put_back {ℓ} : {A : Type ℓ} → A → Option (A × List A) → Option (A × List A)
put_back x none = none
put_back x (some (y, ys)) = some (y, x ∷ ys)

-- One of the threads at a place, and the others.
unfoldable pub pick_out {ℓ} : {A : Type ℓ} → ℕ → List A → Option (A × List A)
pick_out k [] = none
pick_out zero (x ∷ xs) = some (x, xs)
pick_out (suc k) (x ∷ xs) = put_back x (pick_out k xs)

-- Workers that are busy with a task.
abbrev pub busy : Pool → ℕ
busy p = length p.taken + length p.executing + length p.finished + length p.retiring

-- `enqueueTask` from its last test on, and `publishTask`.
pub admit : ℕ → Pool → Pool
admit task p = record p { submitted = task ∷ p.submitted; admitted = task ∷ p.admitted }

pub push_task : ℕ → List ℕ → ℕ → List ℕ → Pool → Pool
push_task task others target queue p = record p {
  admitted = others;
  queues = set p.queues target (push_front task queue);
  pushed = suc p.pushed;
}

pub count_pending : Pool → Pool
count_pending p = record p {
  pushed = p.pushed - 1;
  pending_tasks = add_word p.pending_tasks 1;
  counted = suc p.counted;
}

pub publish_task : Pool → Pool
publish_task p = record p {
  counted = p.counted - 1;
  unclaimed_tasks = add_word p.unclaimed_tasks 1;
}

-- A worker takes a task out of a queue that then holds `rest`.
pub take_task : ℕ → List ℕ → ℕ → Pool → Pool
take_task worker rest task p = record p {
  queues = set p.queues worker rest;
  taken = task ∷ p.taken;
}

-- The count of steals goes up with the theft: it is read for information only.
pub steal_task : ℕ → List ℕ → ℕ → Pool → Pool
steal_task victim rest task p = record p {
  queues = set p.queues victim rest;
  taken = task ∷ p.taken;
  steal_count = add_word p.steal_count 1;
}

pub claim_task : ℕ → List ℕ → Pool → Pool
claim_task task others p = record p {
  taken = others;
  unclaimed_tasks = sub_word p.unclaimed_tasks 1;
  executing = task ∷ p.executing;
}

-- The task returns, or throws and the handler is called.
pub leave_task : ℕ → List ℕ → Pool → Pool
leave_task task others p = record p { executing = others; finished = task ∷ p.finished }

pub count_completed : ℕ → List ℕ → Pool → Pool
count_completed task others p = record p {
  finished = others;
  completed_tasks = add_word p.completed_tasks 1;
  retiring = task ∷ p.retiring;
}

pub retire_task : ℕ → List ℕ → Pool → Pool
retire_task task others p = record p {
  retiring = others;
  pending_tasks = sub_word p.pending_tasks 1;
  done = task ∷ p.done;
}

pub is_running : State → Bool
is_running k_running = true
is_running k_stopping = false
is_running k_stopped = false

-- The condition that an idle worker tests before it waits, and again when it is notified; the wait itself, and
-- which worker a notification wakes, are left to the choice of the next step.
pub is_awake : Pool → Bool
is_awake p = ltb 0 p.unclaimed_tasks || not (is_running p.state)

-- The compare-and-exchange of `shutdown`, and its last store.
pub stop_pool : Pool → Pool
stop_pool p = record p { state = k_stopping }

pub finish_pool : Pool → Pool
finish_pool p = record p { state = k_stopped }

pub exit_worker : Pool → Pool
exit_worker p = record p { workers = p.workers - 1 }

-- A shutdown that does not wait clears the queues one after another, and then both counters.
pub clear_queue : ℕ → List ℕ → Pool → Pool
clear_queue i queue p = record p { queues = set p.queues i []; discarded = queue ++ p.discarded }

pub reset_pending : Pool → Pool
reset_pending p = record p { pending_tasks = 0 }

pub reset_unclaimed : Pool → Pool
reset_unclaimed p = record p { unclaimed_tasks = 0 }
