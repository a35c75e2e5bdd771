-- ===== src/Pool/Alone/Enqueue.antt =====
-- `tryEnqueueTask` of src/work_stealing_thread_pool.hpp, when it runs alone.
use ai_pipe.Prelude.{
  ℕ, ◌≤◌, ◌<◌, ◌≡◌, ◌⊎◌, refl, ap, subst, ◌∙◌, arith, true, false, Option, none, some, List, [],
  ◌∷◌, length, get_or, set, inl, inr, Option-cases, lt→ltb,
}
use ai_pipe.Prelude.Words.{add_word}
use ai_pipe.Pool.{Pool, is_running, admit, push_task, count_pending, publish_task}
use ai_pipe.Pool.Deque.{push_front}
use ai_pipe.Pool.Alone.{
  find_room, enqueue_at, try_enqueue_at, try_enqueue_task, select_target_queue,
}
use ai_pipe.Pool.Alone.Rounds.{rounds_to, find_room-some, find_room-none}

-- What `enqueue_at` does to the queues and the counters.
enqueued :
    (task target : ℕ) (p : Pool)
    → ((enqueue_at task target p).queues ≡ set p.queues target (task ∷ get_or p.queues target []))
      × ((enqueue_at task target p).pending_tasks ≡ add_word p.pending_tasks 1)
      × ((enqueue_at task target p).unclaimed_tasks ≡ add_word p.unclaimed_tasks 1)
unfolding enqueue_at admit push_task push_front count_pending publish_task
enqueued task target p = (refl, refl, refl)

select_keeps :
    (me : Option ℕ) (p : Pool)
    → ((select_target_queue me p).1.queues ≡ p.queues)
      × ((select_target_queue me p).1.pending_tasks ≡ p.pending_tasks)
      × ((select_target_queue me p).1.unclaimed_tasks ≡ p.unclaimed_tasks)
unfolding select_target_queue
select_keeps none p = (refl, refl, refl)
select_keeps (some i) p = (refl, refl, refl)

all_full :
    (limit target : ℕ) (queues : List (List ℕ))
    → find_room limit target (length queues) 0 queues ≡ none
    → (j : ℕ) → j < length queues
    → limit ≤ length (get_or queues j [])
all_full limit target queues full j lt =
    let (i, below, at) = rounds_to (length queues) target j lt in
    subst (λ k. limit ≤ length (get_or queues k [])) at
      (find_room-none limit target (length queues) 0 queues i (omega arith) (omega arith) below
        full)

-- `tryEnqueueTask` of a running pool with a limit on its queues, from any thread, while the queues are left
-- alone: either it returns true, and then the task stands in front of a queue that had room, whose
-- limit it keeps, and is counted as pending and unclaimed; or it returns false, and then every queue is full
-- and none changes.
pub try_enqueue_task_lem :
    (limit : ℕ) (me : Option ℕ) (task : ℕ) (p : Pool)
    → is_running p.state ≡ true
    → 0 < limit
    → 0 < length p.queues
    → ((i : ℕ) × ((try_enqueue_task limit me task p).1 ≡ true)
        × (i < length p.queues)
        × (length (get_or p.queues i []) < limit)
        × ((try_enqueue_task limit me task p).0.queues
            ≡ set p.queues i (task ∷ get_or p.queues i []))
        × ((try_enqueue_task limit me task p).0.pending_tasks ≡ add_word p.pending_tasks 1)
        × ((try_enqueue_task limit me task p).0.unclaimed_tasks ≡ add_word p.unclaimed_tasks 1))
      ⊎ (((try_enqueue_task limit me task p).1 ≡ false)
          × ((try_enqueue_task limit me task p).0.queues ≡ p.queues)
          × ((j : ℕ) → j < length p.queues → limit ≤ length (get_or p.queues j [])))
unfolding try_enqueue_task try_enqueue_at
try_enqueue_task_lem limit me task p on bounded some_queue =
    let target = (select_target_queue me p).0 in
    let selected = (select_target_queue me p).1 in
    let (qs, pend, uncl) = select_keeps me p in
    rw (on, lt→ltb 0 limit bounded)
      (elim (Option-cases (find_room limit target (length selected.queues) 0 selected.queues)) [
        | inl full ↦ rw full (
            inr (
              refl,
              qs,
              all_full limit target p.queues
                  (subst (λ q. find_room limit target (length q) 0 q ≡ none) qs full),
            ))
        | inr (i, found) ↦
            let found' = subst (λ q. find_room limit target (length q) 0 q ≡ some i) qs found in
            let (free, below) =
              find_room-some limit target (length p.queues) 0 p.queues i (omega arith) some_queue
                found' in
            let (qs', pend', uncl') = enqueued task i selected in
            rw found (
              inl (
                i,
                refl,
                below,
                free,
                qs' ∙ ap (λ q. set q i (task ∷ get_or q i [])) qs,
                pend' ∙ ap (λ k. add_word k 1) pend,
                uncl' ∙ ap (λ k. add_word k 1) uncl,
              ))
      ])
