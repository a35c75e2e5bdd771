-- ===== src/Pool/Drain.antt =====
-- What the counters and a shutdown that waits promise to the users of the pool of
-- src/work_stealing_thread_pool.hpp.
use ai_pipe.Prelude.{
  ℕ, ◌+◌, ◌≤◌, ◌<◌, ◌≡◌, ◌≢◌, ◌⊎◌, refl, ap, arith, Bool, true, false, List, length, inl, inr,
}
use ai_pipe.Prelude.Words.{word}
use ai_pipe.Pool.Deque.{push_front}
use ai_pipe.Pool.{
  Pool, admit, push_task, count_pending, publish_task, take_task, steal_task, claim_task,
  leave_task, count_completed, retire_task, stop_pool, finish_pool, exit_worker, new_pool, is_awake,
  is_running, busy,
}
use ai_pipe.Pool.Steps.{
  Step, admitted, pushed, counted, published, popped, stolen, exited, claimed, left, completed,
  retired, stopped, joined, Reach, here, step, discard,
}
use ai_pipe.Pool.Weights.{
  one, is_task, weigh, weigh_queues, weigh-pick_out, weigh-steal_back, weigh-pop_front,
  weigh_queues-set, queued, carried, weigh-one, weigh-le, weigh_queues-le,
}
use ai_pipe.Pool.Kept.{Reach-keeps}
use ai_pipe.Pool.Counters.{Counts, Reach-Counts, Step-Counts}

-- No thread is inside `enqueueTask` behind its last test.
pub record Quiet (p : Pool) : Type 0 where
  pub none_admitted : length p.admitted ≡ 0
  pub none_pushed : p.pushed ≡ 0
  pub none_counted : p.counted ≡ 0

-- After any history of a new pool without a discarding shutdown, in which fewer than 2^64 tasks were let in,
-- while no submission is on its way: the pending tasks and the tasks that are done are all that were let in,
-- the completed ones are those that are done or about to leave the pending count, at most as many tasks
-- are with workers as there are workers, and if a queue holds a task then the condition that an idle
-- worker waits for is true.
pub counters_lem :
    (n : ℕ) {p : Pool}
    → Reach false (new_pool n) p
    → Quiet p
    → length p.submitted < word
    → (p.pending_tasks + length p.done ≡ length p.submitted)
      × (p.completed_tasks ≡ length p.retiring + length p.done)
      × (busy p ≤ p.workers)
      × (weigh_queues one p.queues ≢ 0 → is_awake p ≡ true)
unfolding is_awake
counters_lem n {p} r quiet few =
    let c = Reach-Counts n r in
    let kept = Reach-keeps one false n r in
    let lengths : (length p.submitted ≡ weigh one p.submitted)
        × (length p.done ≡ weigh one p.done)
        × (length p.retiring ≡ weigh one p.retiring)
        × (length p.admitted ≡ weigh one p.admitted)
        × (busy p ≡ carried one p) =
      omega (
        arith,
        weigh-one p.submitted,
        weigh-one p.done,
        weigh-one p.retiring,
        weigh-one p.admitted,
        weigh-one p.taken,
        weigh-one p.executing,
        weigh-one p.finished,
      ) in
    (
      omega (
        arith, c.pending, c.pending_small, c.none_discarded, quiet.none_pushed, quiet.none_admitted,
      ),
      omega (arith, c.completed),
      omega (arith, c.busy_workers),
      λ some_queued.
          let positive : 0 < p.unclaimed_tasks =
            omega (arith, c.unclaimed, c.unclaimed_small, quiet.none_pushed, quiet.none_counted) in
          ground arith,
    )

-- A pool that was told to stop while no submission was on its way.
record Draining (n : ℕ) (tasks : List ℕ) (p : Pool) : Type 0 where
  off : is_running p.state ≡ false
  same : p.submitted ≡ tasks
  none_admitted : weigh one p.admitted ≡ 0
  none_pushed : p.pushed ≡ 0
  none_counted : p.counted ≡ 0
  few : queued one p + carried one p < word
  emptied : (n ≤ p.workers) ⊎ (queued one p + weigh one p.taken ≡ 0)

Step-Draining :
    {n : ℕ} {tasks : List ℕ} {p q : Pool}
    → Step p q
    → Counts p
    → Draining n tasks p
    → Draining n tasks q
unfolding weigh admit push_task push_front count_pending publish_task take_task steal_task
    claim_task leave_task count_completed retire_task stop_pool finish_pool exit_worker is_running
Step-Draining (admitted task on) c d = absurd (cc (d.off))
Step-Draining {p = p} (pushed k target task others queue out at) c d =
    absurd (omega (arith, weigh-pick_out one k p.admitted task others out, d.none_admitted))
Step-Draining (counted some_there) c d = absurd (omega (arith, d.none_pushed))
Step-Draining (published some_there) c d = absurd (omega (arith, d.none_counted))
Step-Draining {p = p} (popped worker task rest queue idle at out) c d = ground (
  arith,
  weigh-pop_front one queue task rest out,
  weigh_queues-set one p.queues worker queue rest at,
)
Step-Draining {p = p} (stolen worker victim task rest queue idle other at out) c d = ground (
  arith,
  weigh-steal_back one queue task rest out,
  weigh_queues-set one p.queues victim queue rest at,
)
Step-Draining (exited idle off none_left) c d = record {
  off = off;
  same = d.same;
  none_admitted = d.none_admitted;
  none_pushed = d.none_pushed;
  none_counted = d.none_counted;
  few = d.few;
  emptied = inr (omega (arith, c.unclaimed, d.none_pushed, d.none_counted, d.few));
}
Step-Draining {p = p} (claimed k task others out) c d =
    ground (arith, weigh-pick_out one k p.taken task others out)
Step-Draining {p = p} (left k task others out) c d =
    ground (arith, weigh-pick_out one k p.executing task others out)
Step-Draining {p = p} (completed k task others out) c d =
    ground (arith, weigh-pick_out one k p.finished task others out)
Step-Draining {p = p} (retired k task others out) c d =
    ground (arith, weigh-pick_out one k p.retiring task others out)
Step-Draining (stopped on) c d = absurd (cc (d.off))
Step-Draining (joined stopping no_workers) c d = ground arith

Reach-Draining :
    {n : ℕ} {tasks : List ℕ} {p q : Pool}
    → Reach false p q
    → Counts p
    → Draining n tasks p
    → Draining n tasks q × Counts q
Reach-Draining here c d = (d, c)
Reach-Draining (step r s) c d =
    let (d', c') = Reach-Draining r c d in (Step-Draining s c' d', Step-Counts s c')
Reach-Draining (discard on r s) c d = absurd cc

Step-workers :
    {n : ℕ} {p q : Pool}
    → Step p q
    → (is_running p.state ≡ true → p.workers ≡ n)
    → is_running q.state ≡ true
    → q.workers ≡ n
unfolding admit push_task count_pending publish_task take_task steal_task claim_task leave_task
    count_completed retire_task stop_pool finish_pool exit_worker is_running
Step-workers (admitted task on) h = h
Step-workers (pushed k target task others queue out at) h = h
Step-workers (counted some_there) h = h
Step-workers (published some_there) h = h
Step-workers (popped worker task rest queue idle at out) h = h
Step-workers (stolen worker victim task rest queue idle other at out) h = h
Step-workers (exited idle off none_left) h = λ on. absurd cc
Step-workers (claimed k task others out) h = h
Step-workers (left k task others out) h = h
Step-workers (completed k task others out) h = h
Step-workers (retired k task others out) h = h
Step-workers (stopped on) h = λ off. absurd cc
Step-workers (joined stopping no_workers) h = λ off. absurd cc

Reach-workers :
    (n : ℕ) {p : Pool} → Reach false (new_pool n) p → is_running p.state ≡ true → p.workers ≡ n
unfolding new_pool
Reach-workers n here = λ on. refl
Reach-workers n (step r s) = Step-workers s (Reach-workers n r)
Reach-workers n (discard on r s) = absurd cc

Reach-trans : {b : Bool} {p q r : Pool} → Reach b p q → Reach b q r → Reach b p r
Reach-trans r here = r
Reach-trans r (step s t) = step (Reach-trans r s) t
Reach-trans r (discard on s t) = discard on (Reach-trans r s) t

-- When `shutdown` stops a new pool with at least one thread after any history without a discarding
-- shutdown, while no submission is on its way and fewer than 2^64 tasks were let in, then once all workers
-- have returned every task is done, as often as it was let in, and none is pending.
pub shutdown_finishes :
    (n : ℕ) {p q : Pool} (task : ℕ)
    → 0 < n
    → Reach false (new_pool n) p
    → Quiet p
    → length p.submitted < word
    → is_running p.state ≡ true
    → Reach false (stop_pool p) q
    → q.workers ≡ 0
    → (weigh (is_task task) q.done ≡ weigh (is_task task) p.submitted) × (q.pending_tasks ≡ 0)
unfolding stop_pool is_running
shutdown_finishes n {p} {q} task threads r quiet few on later gone =
    let all = Reach-trans (step r (stopped on)) later in
    let kept = Reach-keeps one false n r in
    let c = Reach-Counts n r in
    let start : Draining n p.submitted (stop_pool p) = record {
      off = refl;
      same = refl;
      none_admitted = omega (arith, weigh-one p.admitted, quiet.none_admitted);
      none_pushed = quiet.none_pushed;
      none_counted = quiet.none_counted;
      few = omega (arith, kept, few, weigh-one p.submitted);
      emptied = inl (omega (arith, Reach-workers n r on));
    } in
    let (d, c') = Reach-Draining later (Step-Counts (stopped on) c) start in
    let kept' = Reach-keeps (is_task task) false n all in
    let empty : queued one q + weigh one q.taken ≡ 0 = ground (arith, d.emptied) in
    (
      omega (
        arith,
        ap (weigh (is_task task)) d.same,
        kept',
        empty,
        c'.busy_workers,
        c'.none_discarded,
        d.none_admitted,
        weigh-le task q.admitted,
        weigh-le task q.taken,
        weigh-le task q.executing,
        weigh-le task q.finished,
        weigh-le task q.retiring,
        weigh-le task q.discarded,
        weigh_queues-le task q.queues,
      ),
      omega (arith, empty, c'.pending, c'.pending_small, c'.busy_workers, d.none_pushed),
    )
