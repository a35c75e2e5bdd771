-- ===== src/Pool/Kept.antt =====
-- No step of the pool of src/work_stealing_thread_pool.hpp loses or doubles a task.
use ai_pipe.Prelude.{ℕ, ◌+◌, ◌≡◌, arith, Bool, [], ◌∷◌}
use ai_pipe.Pool.Deque.{push_front}
use ai_pipe.Pool.{
  Pool, admit, push_task, count_pending, publish_task, take_task, steal_task, claim_task,
  leave_task, count_completed, retire_task, stop_pool, finish_pool, exit_worker, clear_queue,
  reset_pending, reset_unclaimed, new_pool,
}
use ai_pipe.Pool.Steps.{
  Step, admitted, pushed, counted, published, popped, stolen, exited, claimed, left, completed,
  retired, stopped, joined, Discard, cleared, pending_reset, unclaimed_reset, Reach, here, step,
  discard,
}
use ai_pipe.Pool.Weights.{
  is_task, weigh, weigh_queues, weigh-append, weigh-pick_out, weigh-steal_back, weigh-pop_front,
  weigh_queues-set, weigh_queues-empty_queues, everywhere,
}

Step-keeps :
    (w : ℕ → ℕ) {p q : Pool}
    → Step p q
    → weigh w p.submitted ≡ everywhere w p
    → weigh w q.submitted ≡ everywhere w q
unfolding weigh admit push_task push_front count_pending publish_task take_task steal_task
    claim_task leave_task count_completed retire_task stop_pool finish_pool exit_worker
Step-keeps w (admitted task on) h = omega (arith, h)
Step-keeps w {p} (pushed k target task others queue out at) h = omega (
  arith,
  h,
  weigh-pick_out w k p.admitted task others out,
  weigh_queues-set w p.queues target queue (task ∷ queue) at,
)
Step-keeps w (counted some_there) h = h
Step-keeps w (published some_there) h = h
Step-keeps w {p} (popped worker task rest queue idle at out) h = omega (
  arith,
  h,
  weigh-pop_front w queue task rest out,
  weigh_queues-set w p.queues worker queue rest at,
)
Step-keeps w {p} (stolen worker victim task rest queue idle other at out) h = omega (
  arith,
  h,
  weigh-steal_back w queue task rest out,
  weigh_queues-set w p.queues victim queue rest at,
)
Step-keeps w (exited idle off none_left) h = h
Step-keeps w {p} (claimed k task others out) h =
    omega (arith, h, weigh-pick_out w k p.taken task others out)
Step-keeps w {p} (left k task others out) h =
    omega (arith, h, weigh-pick_out w k p.executing task others out)
Step-keeps w {p} (completed k task others out) h =
    omega (arith, h, weigh-pick_out w k p.finished task others out)
Step-keeps w {p} (retired k task others out) h =
    omega (arith, h, weigh-pick_out w k p.retiring task others out)
Step-keeps w (stopped on) h = h
Step-keeps w (joined stopping no_workers) h = h

Discard-keeps :
    (w : ℕ → ℕ) {p q : Pool}
    → Discard p q
    → weigh w p.submitted ≡ everywhere w p
    → weigh w q.submitted ≡ everywhere w q
unfolding clear_queue reset_pending reset_unclaimed weigh
Discard-keeps w {p} (cleared i queue stopping at) h =
    omega (arith, h, weigh-append w queue p.discarded, weigh_queues-set w p.queues i queue [] at)
Discard-keeps w (pending_reset stopping) h = h
Discard-keeps w (unclaimed_reset stopping) h = h

pub Reach-keeps :
    (w : ℕ → ℕ) (b : Bool) (n : ℕ) {p : Pool}
    → Reach b (new_pool n) p
    → weigh w p.submitted ≡ everywhere w p
unfolding new_pool weigh
Reach-keeps w b n here = omega (arith, weigh_queues-empty_queues w n)
Reach-keeps w b n (step r s) = Step-keeps w s (Reach-keeps w b n r)
Reach-keeps w b n (discard on r s) = Discard-keeps w s (Reach-keeps w b n r)

-- After any history of a new pool, with submitters, workers and shutdowns interleaved in any way, every task
-- stands as often as it was let in, at these places together: on its way into a queue, in a queue, with
-- a worker, done, or cleared by a shutdown that does not wait. So it is executed at most that often.
pub tasks_kept :
    (b : Bool) (n task : ℕ) {p : Pool}
    → Reach b (new_pool n) p
    → weigh (is_task task) p.submitted
      ≡ weigh (is_task task) p.admitted
        + weigh_queues (is_task task) p.queues
        + (weigh (is_task task) p.taken
            + weigh (is_task task) p.executing
            + weigh (is_task task) p.finished
            + weigh (is_task task) p.retiring)
        + weigh (is_task task) p.done
        + weigh (is_task task) p.discarded
tasks_kept b n task r = Reach-keeps (is_task task) b n r
