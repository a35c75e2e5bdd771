-- ===== src/Engine/Ports/Readiness.antt =====
-- What `tryScheduleNode` of src/execution_engine_impl.cpp asks the batch strategy, and what it answers.
use ai_pipe.Prelude.{
  ℕ, suc, ◌≤◌, ◌≡◌, refl, arith, Bool, true, false, ◌&&◌, ◌||◌, Option, List, [], ◌∷◌, leb,
  if◌then◌else◌,
}
use ai_pipe.Schedule.{schedule_now, wait_for_inputs, should_schedule}
use ai_pipe.Engine.Ports.{NodePorts, port_drained, holds_data, count_inputs, situation_of}

-- Every port from `i` on that is not drained holds data.
abbrev pub open_ports_hold : NodePorts → ℕ → List (Option ℕ) → Bool
open_ports_hold s i [] = true
open_ports_hold s i (q ∷ qs) = (port_drained s i || holds_data q) && open_ports_hold s (suc i) qs

count_inputs-le :
    (s : NodePorts) (i : ℕ) (qs : List (Option ℕ))
    → (count_inputs s i qs).1 ≤ (count_inputs s i qs).0
unfolding count_inputs
count_inputs-le s i [] = omega arith
count_inputs-le s i (q ∷ qs) = ground (arith, count_inputs-le s (suc i) qs)

count_inputs-open :
    (s : NodePorts) (i : ℕ) (qs : List (Option ℕ))
    → leb (count_inputs s i qs).0 (count_inputs s i qs).1 ≡ open_ports_hold s i qs
unfolding count_inputs
count_inputs-open s i [] = refl
count_inputs-open s i (q ∷ qs) =
    ground (arith, count_inputs-open s (suc i) qs, count_inputs-le s (suc i) qs)

-- For a node with incoming edges the batch strategy decides, from what the engine counts, to schedule it now
-- when every input port that is not drained holds data, and to wait for inputs otherwise.
pub schedules_open_ports :
    (s : NodePorts)
    → should_schedule (situation_of s false)
      ≡ (if open_ports_hold s 0 s.input_queues then schedule_now else wait_for_inputs)
unfolding should_schedule situation_of
schedules_open_ports s = ground (arith, count_inputs-open s 0 s.input_queues)
