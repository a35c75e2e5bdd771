-- ===== src/Queue/Node/Tests.antt =====
-- The theorems on the node queue at concrete inputs, and runs of its code.
use ai_pipe.Prelude.{ℕ, ◌+◌, ◌-◌, ◌≡◌, refl, arith, true, some, List, [], ◌∷◌}
use ai_pipe.Queue.Ring.{size}
use ai_pipe.Queue.Ring.Tests.{zero_default, ring_of_two, ring_of_two-Holds}
use ai_pipe.Queue.Node.{
  NodeQueue, Config, keep_latest, make_queue, push_drop_head, push_keep_latest,
}
use ai_pipe.Queue.Node.Push.{PushedAfter}
use ai_pipe.Queue.Node.Policies.{Fresh, window, push_drop_head_lem, push_keep_latest_lem}
use ai_pipe.Queue.Node.Balance.{Op, pushes, pops, run, run_accounts}

abbrev latest_two : Config
latest_two = record {
  capacity = 3;
  drop_policy = keep_latest;
  keep_latest_n = 2;
  track_statistics = true;
  node_name = "join";
  port_name = "in";
}

abbrev history : List (Op ℕ)
history = pushes 1 ∷ pushes 2 ∷ pushes 3 ∷ pops ∷ []

abbrev queue_of_two : NodeQueue ℕ
queue_of_two = record (make_queue latest_two) { queue = ring_of_two }

two-Fresh : Fresh queue_of_two 0 (1 ∷ 2 ∷ [])
unfolding make_queue
two-Fresh = record { holds = ring_of_two-Holds; counter = omega arith; below = omega arith }

push_keep_latest_lem_example :
    (q' : NodeQueue ℕ) × (push_keep_latest queue_of_two 3 ≡ some (true, q'))
    × PushedAfter queue_of_two 0 (1 ∷ 2 ∷ []) 3 (3 - window queue_of_two) q'
push_keep_latest_lem_example = push_keep_latest_lem queue_of_two two-Fresh 3

push_drop_head_lem_example :
    (q' : NodeQueue ℕ) × (push_drop_head queue_of_two 3 ≡ some (true, q'))
    × PushedAfter queue_of_two 0 (1 ∷ 2 ∷ []) 3 (3 - queue_of_two.queue.capacity) q'
push_drop_head_lem_example = push_drop_head_lem queue_of_two two-Fresh 3

run_accounts_example :
    (q' : NodeQueue ℕ) × (run (make_queue latest_two) history ≡ some q')
    × (q'.stats.total_pushed ≡ q'.stats.total_popped + q'.stats.total_dropped + size q'.queue)
run_accounts_example = run_accounts latest_two history refl (omega arith) (omega arith)
