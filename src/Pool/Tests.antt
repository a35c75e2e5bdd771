-- ===== src/Pool/Tests.antt =====
-- A pool of one thread that runs the task 7, and the searches through two queues.
use ai_pipe.Prelude.{
  ℕ, ◌+◌, ◌<◌, ◌≤◌, ◌≡◌, ◌≢◌, ◌⊎◌, refl, arith, true, false, none, some, List, [], ◌∷◌, ◌++◌,
  length, get_or, set,
}
use ai_pipe.Prelude.Words.{add_word}
use ai_pipe.Pool.Deque.{push_front, pop_front}
use ai_pipe.Pool.{
  Pool, new_pool, empty_queues, pick_out, admit, push_task, count_pending, publish_task, take_task,
  claim_task, leave_task, count_completed, retire_task, stop_pool, exit_worker, is_running,
  is_awake, busy,
}
use ai_pipe.Pool.Steps.{
  Reach, here, step, admitted, pushed, counted, published, popped, claimed, left, completed,
  retired, exited,
}
use ai_pipe.Pool.Weights.{is_task, weigh, weigh_queues}
use ai_pipe.Pool.Kept.{tasks_kept}
use ai_pipe.Pool.Drain.{Quiet, counters_lem, shutdown_finishes}
use ai_pipe.Pool.Alone.{wait_for_room, room, try_steal, try_enqueue_task, size_at}
use ai_pipe.Pool.Alone.Rounds.{steady, wait_for_room_lem, try_steal_lem}
use ai_pipe.Pool.Alone.Enqueue.{try_enqueue_task_lem}

abbrev submitted_7 : Pool
submitted_7 = publish_task (count_pending (push_task 7 [] 0 [] (admit 7 (new_pool 1))))

submitting : Reach false (new_pool 1) submitted_7
unfolding new_pool admit push_task push_front count_pending publish_task pick_out empty_queues
    is_running
submitting =
    step
      (step (step (step here (admitted 7 refl)) (pushed 0 0 7 [] [] refl refl))
        (counted (omega arith)))
      (published (omega arith))

submitted_7-Quiet : Quiet submitted_7
unfolding new_pool admit push_task push_front count_pending publish_task
submitted_7-Quiet = record { none_admitted = refl; none_pushed = refl; none_counted = refl }

abbrev ran_7 : Pool
ran_7 = exit_worker (
    retire_task 7 [] (
      count_completed 7 []
        (leave_task 7 [] (claim_task 7 [] (take_task 0 [] 7 (stop_pool submitted_7))))))

running_7 : Reach false (stop_pool submitted_7) ran_7
unfolding new_pool admit push_task push_front count_pending publish_task pick_out empty_queues
    is_running stop_pool take_task pop_front claim_task leave_task count_completed retire_task
running_7 =
    step
      (step
        (step
          (step
            (step (step here (popped 0 7 [] (7 ∷ []) (omega arith) refl refl))
              (claimed 0 7 [] refl))
            (left 0 7 [] refl))
          (completed 0 7 [] refl))
        (retired 0 7 [] refl))
      (exited (omega arith) refl refl)

tasks_kept_example :
    weigh (is_task 7) submitted_7.submitted
    ≡ weigh (is_task 7) submitted_7.admitted
      + weigh_queues (is_task 7) submitted_7.queues
      + (weigh (is_task 7) submitted_7.taken
          + weigh (is_task 7) submitted_7.executing
          + weigh (is_task 7) submitted_7.finished
          + weigh (is_task 7) submitted_7.retiring)
      + weigh (is_task 7) submitted_7.done
      + weigh (is_task 7) submitted_7.discarded
tasks_kept_example = tasks_kept false 1 7 submitting

counters_lem_example :
    (submitted_7.pending_tasks + length submitted_7.done ≡ length submitted_7.submitted)
    × (submitted_7.completed_tasks ≡ length submitted_7.retiring + length submitted_7.done)
    × (busy submitted_7 ≤ submitted_7.workers)
    × (weigh_queues (λ task. 1) submitted_7.queues ≢ 0 → is_awake submitted_7 ≡ true)
unfolding new_pool admit push_task push_front count_pending publish_task
counters_lem_example = counters_lem 1 submitting submitted_7-Quiet (omega arith)

shutdown_finishes_example :
    (weigh (is_task 7) ran_7.done ≡ weigh (is_task 7) submitted_7.submitted)
    × (ran_7.pending_tasks ≡ 0)
unfolding new_pool admit push_task push_front count_pending publish_task is_running stop_pool
    take_task claim_task leave_task count_completed retire_task exit_worker
shutdown_finishes_example =
    shutdown_finishes 1 7 (omega arith) submitting submitted_7-Quiet (omega arith) refl running_7
      refl

abbrev two_queues : List (List ℕ)
two_queues = (1 ∷ []) ∷ (2 ∷ 3 ∷ []) ∷ []

try_steal_lem_example :
    ((victim task : ℕ) × (rest : List ℕ) × (try_steal 0 5 two_queues ≡ some (victim, task, rest))
      × (victim ≢ 0)
      × (victim < 2)
      × (get_or two_queues victim [] ≡ rest ++ task ∷ []))
    ⊎ ((try_steal 0 5 two_queues ≡ none) × ((j : ℕ) → j < 2 → j ≢ 0 → get_or two_queues j [] ≡ []))
try_steal_lem_example = try_steal_lem 0 5 two_queues (omega arith)

wait_for_room_lem_example :
    (found : ℕ) × (wait_for_room 2 (steady 3) 1 two_queues ≡ room found)
    × (found < 2)
    × (size_at two_queues found < 2)
wait_for_room_lem_example =
    wait_for_room_lem 2 3 1 1 two_queues (omega arith) (omega arith) (omega arith)

abbrev pool_of_two : Pool
pool_of_two = record (new_pool 2) { queues = two_queues }

try_enqueue_task_lem_example :
    ((i : ℕ) × ((try_enqueue_task 2 none 9 pool_of_two).1 ≡ true)
      × (i < 2)
      × (length (get_or two_queues i []) < 2)
      × ((try_enqueue_task 2 none 9 pool_of_two).0.queues
          ≡ set two_queues i (9 ∷ get_or two_queues i []))
      × ((try_enqueue_task 2 none 9 pool_of_two).0.pending_tasks
          ≡ add_word pool_of_two.pending_tasks 1)
      × ((try_enqueue_task 2 none 9 pool_of_two).0.unclaimed_tasks
          ≡ add_word pool_of_two.unclaimed_tasks 1))
    ⊎ (((try_enqueue_task 2 none 9 pool_of_two).1 ≡ false)
        × ((try_enqueue_task 2 none 9 pool_of_two).0.queues ≡ two_queues)
        × ((j : ℕ) → j < 2 → 2 ≤ length (get_or two_queues j [])))
unfolding new_pool is_running
try_enqueue_task_lem_example =
    try_enqueue_task_lem 2 none 9 pool_of_two refl (omega arith) (omega arith)
