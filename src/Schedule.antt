-- ===== src/Schedule.antt =====
-- `BatchSchedulerStrategy` of src/scheduler_strategies.hpp, with the types of
-- include/ai_pipe/i_scheduler_strategy.hpp that it uses. The reasons of results are text for the log and
-- are left out, but for the sink that a completion check waits for.
pub mod Batch
pub mod Stream
use Prim.Native.String.{String}
use ai_pipe.Prelude.{
  ℕ, Bool, true, false, ◌&&◌, Option, none, some, List, [], ◌∷◌, eqb, ltb, leb, if◌then◌else◌,
}

pub data Decision : Type 0 where
  schedule_now wait_for_inputs skip_execution defer_to_next_cycle : Decision

-- The fields of a `SchedulingContext` that decisions read.
pub record Situation : Type 0 where
  pub expected_input_count : ℕ
  pub ready_input_count : ℕ
  pub is_source_node : Bool
  pub has_initial_input : Bool

abbrev pub all_inputs_ready : Situation → Bool
all_inputs_ready c = leb c.expected_input_count c.ready_input_count

unfoldable pub should_schedule : Situation → Decision
should_schedule c =
    if c.is_source_node && c.has_initial_input
    then schedule_now
    else (if c.is_source_node && eqb c.expected_input_count 0
        then schedule_now
        else (if all_inputs_ready c then schedule_now else wait_for_inputs))

-- `SinkExecutionCount`
pub record Sink : Type 0 where
  pub name : String
  pub executions : ℕ

-- Why an execution is complete or not: tasks are active, a sink has not executed, or neither.
pub data Completion : Type 0 where
  tasks_remain : Completion
  sink_waits : String → Completion
  complete : Completion

pub first_idle : List Sink → Completion
first_idle [] = complete
first_idle (s ∷ sinks) = if eqb s.executions 0 then sink_waits s.name else first_idle sinks

pub check_completion : ℕ → List Sink → Completion
check_completion active_node_count sinks =
    if ltb 0 active_node_count then tasks_remain else first_idle sinks

abbrev pub is_complete : Completion → Bool
is_complete complete = true
is_complete tasks_remain = false
is_complete (sink_waits name) = false
