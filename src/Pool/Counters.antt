-- ===== src/Pool/Counters.antt =====
-- What the counters of the pool of src/work_stealing_thread_pool.hpp say while no shutdown discards tasks.
-- A task is in its queue before it is counted, so a counter may be behind by the submissions on their way.
use ai_pipe.Prelude.{ℕ, ◌+◌, ◌%◌, ◌≤◌, ◌<◌, ◌≡◌, arith, false, ◌∷◌}
use ai_pipe.Prelude.Words.{word}
use ai_pipe.Pool.Deque.{push_front}
use ai_pipe.Pool.{
  Pool, admit, push_task, count_pending, publish_task, take_task, steal_task, claim_task,
  leave_task, count_completed, retire_task, stop_pool, finish_pool, exit_worker, new_pool, busy,
}
use ai_pipe.Pool.Steps.{
  Step, admitted, pushed, counted, published, popped, stolen, exited, claimed, left, completed,
  retired, stopped, joined, Reach, here, step, discard,
}
use ai_pipe.Pool.Weights.{
  one, weigh, weigh-pick_out, weigh-steal_back, weigh-pop_front, weigh_queues-set,
  weigh_queues-empty_queues, queued, carried, weigh-one,
}

pub record Counts (p : Pool) : Type 0 where
  pub pending : (p.pending_tasks + p.pushed) % word ≡ (queued one p + carried one p) % word
  pub pending_small : p.pending_tasks < word
  pub unclaimed :
      (p.unclaimed_tasks + p.pushed + p.counted) % word ≡ (queued one p + weigh one p.taken) % word
  pub unclaimed_small : p.unclaimed_tasks < word
  pub completed : p.completed_tasks ≡ (weigh one p.retiring + weigh one p.done) % word
  pub none_discarded : weigh one p.discarded ≡ 0
  pub busy_workers : carried one p ≤ p.workers

busy-carried : (p : Pool) → busy p ≡ carried one p
busy-carried p =
    omega
      (arith, weigh-one p.taken, weigh-one p.executing, weigh-one p.finished, weigh-one p.retiring)

pub Step-Counts : {p q : Pool} → Step p q → Counts p → Counts q
unfolding weigh admit push_task push_front count_pending publish_task take_task steal_task
    claim_task leave_task count_completed retire_task stop_pool finish_pool exit_worker
Step-Counts (admitted task on) c = omega (arith, c.pending, c.unclaimed)
Step-Counts {p} (pushed k target task others queue out at) c =
    omega (arith, weigh_queues-set one p.queues target queue (task ∷ queue) at)
Step-Counts (counted some_there) c = omega (arith)
Step-Counts (published some_there) c = omega (arith)
Step-Counts {p} (popped worker task rest queue idle at out) c = omega (
  arith,
  weigh-pop_front one queue task rest out,
  weigh_queues-set one p.queues worker queue rest at,
  busy-carried p,
)
Step-Counts {p} (stolen worker victim task rest queue idle other at out) c = omega (
  arith,
  weigh-steal_back one queue task rest out,
  weigh_queues-set one p.queues victim queue rest at,
  busy-carried p,
)
Step-Counts {p} (exited idle off none_left) c = omega (arith, busy-carried p)
Step-Counts {p} (claimed k task others out) c =
    omega (arith, weigh-pick_out one k p.taken task others out)
Step-Counts {p} (left k task others out) c =
    omega (arith, weigh-pick_out one k p.executing task others out)
Step-Counts {p} (completed k task others out) c =
    omega (arith, weigh-pick_out one k p.finished task others out)
Step-Counts {p} (retired k task others out) c =
    omega (arith, weigh-pick_out one k p.retiring task others out)
Step-Counts (stopped on) c = omega arith
Step-Counts (joined stopping no_workers) c = omega arith

pub Reach-Counts : (n : ℕ) {p : Pool} → Reach false (new_pool n) p → Counts p
unfolding new_pool weigh
Reach-Counts n here = omega (arith, weigh_queues-empty_queues one n)
Reach-Counts n (step r s) = Step-Counts s (Reach-Counts n r)
Reach-Counts n (discard on r s) = absurd (cc)
