-- ===== src/Engine/Control.antt =====
-- Starting, stopping and resetting the engine of src/execution_engine_impl.cpp: its state, its flags and the hooks
-- `setup` and `teardown` of its nodes. Each function is what a method does in one piece under the
-- engine's mutex or in one exchange; where a method waits it has a function before and one after the wait,
-- so that a history of calls has what other threads do in between. `none` is an access to the compiled
-- graph where there is none, which C++ leaves undefined.
pub mod Methods
pub mod Histories
pub mod Hooks
mod Sound
mod Begins
pub mod Running
pub mod Ends
mod Tests
use Prim.Native.String.{String, ◌++◌ as ◌+++◌}
use ai_pipe.Prelude.{
  ℕ, zero, suc, ◌+◌, Bool, true, false, not, ◌&&◌, ◌||◌, Option, none, some, List, [], ◌∷◌, eqb,
  ltb, if◌then◌else◌, ◌>>=◌,
}
use ai_pipe.Errors.{Error, error_of, node_exception_error}
use ai_pipe.Errors.Codes.{
  invalid_argument, invalid_state, already_running, not_initialized, execution_failed,
  execution_timeout, execution_stopped, streaming_not_supported, node_unknown_exception,
  not_streaming,
}
use ai_pipe.Errors.Results.{Result, has_value, has_error, VoidResult, void_ok, void_err, void_is_ok}

pub data EngineState : Type 0 where
  idle running stopped error : EngineState

abbrev pub is_idle : EngineState → Bool
is_idle idle = true
is_idle _ = false

abbrev pub is_running : EngineState → Bool
is_running running = true
is_running _ = false

abbrev pub is_stopped : EngineState → Bool
is_stopped stopped = true
is_stopped _ = false

abbrev pub is_error_state : EngineState → Bool
is_error_state error = true
is_error_state _ = false

-- What happened to the node with that index.
pub data Hook : Type 0 where
  set_up setup_failed torn_down : ℕ → Hook

pub record Control : Type 0 where
  pub engine_state : EngineState
  -- the topological order of the compiled graph
  pub compiled_graph : Option (List ℕ)
  -- the nodes that are set up, and the hooks that were called; newest first
  pub set_up_nodes : List ℕ
  pub hooks : List Hook
  pub stop_flag : Bool
  pub streaming_mode : Bool
  pub completion_reported : Bool
  pub sink_count : ℕ
  pub sinks_at_eos : ℕ
  pub end_of_stream_reached : Bool
  -- how often the callbacks were called
  pub results : ℕ
  pub ends_of_stream : ℕ

unfoldable pub new_control : Control
new_control = record {
  engine_state = idle;
  compiled_graph = none;
  set_up_nodes = [];
  hooks = [];
  stop_flag = false;
  streaming_mode = false;
  completion_reported = false;
  sink_count = 0;
  sinks_at_eos = 0;
  end_of_stream_reached = false;
  results = 0;
  ends_of_stream = 0;
}

-- What a call of `setup` does.
pub data SetupOutcome : Type 0 where
  returns : VoidResult → SetupOutcome
  throws : String → SetupOutcome
  throws_unknown : SetupOutcome

pub setup_result : String → SetupOutcome → VoidResult
setup_result name (returns r) = r
setup_result name (throws what) = void_err (node_exception_error ("setup threw: " +++ what) name)
setup_result name throws_unknown =
    void_err (error_of node_unknown_exception "setup threw unknown exception" name)

-- The loop over the nodes that are set up, from the newest on.
unfoldable pub teardown_from : List ℕ → List Hook → List Hook
teardown_from [] hooks = hooks
teardown_from (i ∷ is) hooks = teardown_from is (torn_down i ∷ hooks)

unfoldable pub teardown_nodes : Control → Control
teardown_nodes c = record c { set_up_nodes = []; hooks = teardown_from c.set_up_nodes c.hooks }

-- The loop of `setupNodes` over the topological order, where `setup` tells what the hook of a node does.
unfoldable pub setup_from : (ℕ → VoidResult) → List ℕ → Control → Control × VoidResult
setup_from setup [] c = (c, void_ok)
setup_from setup (i ∷ is) c =
    let rest =
      setup_from setup is
        (record c { set_up_nodes = i ∷ c.set_up_nodes; hooks = set_up i ∷ c.hooks }) in
    if void_is_ok (setup i)
    then rest
    else (teardown_nodes (record c { hooks = setup_failed i ∷ c.hooks }), setup i)

unfoldable pub setup_unless_done :
    (ℕ → VoidResult) → List ℕ → Control → Option (Control × VoidResult)
setup_unless_done setup (i ∷ is) c = some (c, void_ok)
setup_unless_done setup [] c = do order ← c.compiled_graph; some (setup_from setup order c)

unfoldable pub setup_nodes : (ℕ → VoidResult) → Control → Option (Control × VoidResult)
setup_nodes setup c = setup_unless_done setup c.set_up_nodes c

-- `initialize`, with what the compilation of the graph returns, or no graph at all. The number of sinks is
-- counted over the nodes of the new graph.
unfoldable pub initialize : Option (Result (List ℕ × ℕ)) → Control → Control × VoidResult
initialize none c = (c, void_err (error_of invalid_argument "Graph pointer is null" ""))
initialize (some (has_error e)) c = (teardown_nodes c, void_err e)
initialize (some (has_value (order, sinks))) c = (
  record (teardown_nodes c) {
    compiled_graph = some order;
    engine_state = idle;
    stop_flag = false;
    streaming_mode = false;
    completion_reported = false;
    sink_count = sinks;
  },
  void_ok,
)
