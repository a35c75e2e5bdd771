-- ===== src/Pipeline/Tests.antt =====
-- The facade at concrete histories: a graph of two nodes, the results of the second.
use ai_pipe.Prelude.{◌≡◌, refl, true, false, Option, none, some, List, [], ◌∷◌}
use ai_pipe.Pool.{pick_out}
use ai_pipe.Errors.{Error, error_of, is_ok, has_code}
use ai_pipe.Errors.Codes.{graph_empty, error_number}
use ai_pipe.Errors.Results.{void_ok, void_err, void_is_ok, has_value, has_error}
use ai_pipe.Engine.Control.{running as engine_runs, new_control}
use ai_pipe.Engine.Control.Methods.{check_completion_and_notify, raise_stop, stop_running}
use ai_pipe.Pipeline.{
  Event, is_idle, continues, continue_thread, proceed, store_idle, start_thread, with_engine,
  on_engine, unclaimed, calls_result, calls_error, one_shot_result, complete_promise, resident,
  Pipeline, new_pipeline, running, batch, stream, one_shot, checks_completion, node_throws,
  occur_all, is_streaming, is_open, set_engine, notify, occur, occur_at, on_result, resident_result,
}
use ai_pipe.Pipeline.Methods.{
  Work, reached, is_ready, run, submit, start, reset, cancel, initialize_pipeline, stop_at,
  stop_async,
}
use ai_pipe.Pipeline.Threads.{engine_quiet}
use ai_pipe.Pipeline.Histories.{Action, initializes, runs_batch, take_action, facade_of}
use ai_pipe.Pipeline.Refusals.{refusal_code, not_ready_refuses}
use ai_pipe.Pipeline.Recovery.{EngineReset, reset-is_ready, start_undefined}
use ai_pipe.Pipeline.Cancelled.{cancelled-not_ready}
use ai_pipe.Pipeline.Promises.{IsFulfilled, winners}
use ai_pipe.Pipeline.Futures.{future_once}

abbrev work : Work
work = record { setup = λ i. void_ok; distributed = true; pushed = void_ok }

abbrev or_new : Option Pipeline → Pipeline
or_new none = new_pipeline
or_new (some p) = p

abbrev compiles : Action
compiles = initializes false batch (has_value (0 ∷ 1 ∷ [], 1))

abbrev initialized : Pipeline
initialized = or_new (take_action compiles new_pipeline)

-- The engine completes the execution, and its thread calls the callback, while the call waits.
abbrev runs : Action
runs =
    runs_batch work
      (checks_completion 0 true (("sink:out", 5) ∷ [])
        ∷ continues 0
        ∷ continues 0
        ∷ continues 0
        ∷ [])
      (reached 0 []) "3"

abbrev ended : Pipeline
ended = or_new (take_action runs initialized)

not_ready_refuses_example :
    (e f g : Error) × (run work [] (reached 0 []) "3" new_pipeline
      ≡ some (new_pipeline, has_error e))
    × (submit work new_pipeline ≡ some (new_pipeline, void_err f))
    × (start true work.setup new_pipeline ≡ some (new_pipeline, void_err g))
    × (e.code ≡ refusal_code new_pipeline.state)
    × (f.code ≡ refusal_code new_pipeline.state)
    × (g.code ≡ refusal_code new_pipeline.state)
unfolding new_pipeline is_ready
not_ready_refuses_example = not_ready_refuses work [] (reached 0 []) "3" true new_pipeline refl

abbrev executing : Pipeline
executing = record new_pipeline {
  has_graph = true;
  engine = some new_control;
  handlers = resident;
  state = running;
}

reset-is_ready_example :
    (is_ready (reset [] executing) ≡ true)
    × ((reset [] executing).last_error ≡ none)
    × EngineReset (reset [] executing).engine
unfolding new_pipeline
reset-is_ready_example = reset-is_ready [] executing refl

abbrev no_nodes : Error
no_nodes = error_of graph_empty "Graph is empty" ""

start_undefined_example :
    (is_ready (reset [] (initialize_pipeline false stream (has_error no_nodes) new_pipeline).0)
      ≡ true)
    × (start true work.setup
          (reset [] (initialize_pipeline false stream (has_error no_nodes) new_pipeline).0)
        ≡ none)
unfolding void_is_ok void_err is_ok has_code error_number error_of
start_undefined_example = start_undefined no_nodes work.setup new_pipeline refl

cancelled-not_ready_example :
    is_ready (
      occur_all
        (node_throws "no device" "sink" ∷ continues 0 ∷ [])
        (cancel (checks_completion 0 true [] ∷ []) executing))
    ≡ false
unfolding new_pipeline is_streaming new_control cancel stop_async stop_at raise_stop stop_running
    set_engine on_engine with_engine occur_all occur occur_at start_thread
    check_completion_and_notify
cancelled-not_ready_example =
    cancelled-not_ready (checks_completion 0 true [] ∷ [])
      (node_throws "no device" "sink" ∷ continues 0 ∷ []) executing refl refl refl

-- Without the conditions: the thread has read RUNNING before `cancel`, and makes the facade idle afterwards.
cancel_race_test :
    is_ready (
      occur_all
        (continues 0 ∷ [])
        (cancel (checks_completion 0 true [] ∷ continues 0 ∷ continues 0 ∷ []) executing))
    ≡ true
unfolding new_pipeline is_streaming new_control cancel stop_async stop_at raise_stop stop_running
    set_engine on_engine with_engine occur_all occur occur_at start_thread
    check_completion_and_notify continue_thread pick_out proceed on_result resident_result
    store_idle notify is_ready
cancel_race_test = refl

-- A call of `runAsync` whose callbacks two threads hold.
abbrev waiting_facade : Pipeline
waiting_facade = record executing {
  handlers = one_shot 0;
  futures = unclaimed ∷ [];
  threads =
      calls_result (one_shot 0) (("sink:out", 5) ∷ [])
      ∷ calls_error (one_shot 0) "no device" "sink"
      ∷ [];
}

abbrev first_wins : List Event
first_wins = continues 0 ∷ continues 0 ∷ []

future_once_example :
    (winners 0 (occur_all first_wins waiting_facade).threads ≡ 0)
    × (winners 0 (occur_all (continues 0 ∷ []) (occur_all first_wins waiting_facade)).threads ≡ 0)
    × IsFulfilled
        (occur_all (continues 0 ∷ []) (occur_all first_wins waiting_facade))
        0
        (has_value (("sink:out", 5) ∷ []))
unfolding new_pipeline new_control is_open occur_all occur occur_at continue_thread pick_out proceed
    on_result one_shot_result complete_promise notify start_thread
future_once_example =
    future_once 0 first_wins (continues 0 ∷ []) (has_value (("sink:out", 5) ∷ [])) waiting_facade
      refl refl

-- The facade runs a second execution while a thread holds the callback for results of the first.
abbrev late_run : Pipeline
late_run = record executing {
  engine = some (record new_control { engine_state = engine_runs });
  threads = calls_result resident [] ∷ [];
}

-- Another execution begins while a callback of the one before is on its way: the facade ends idle, and its engine
-- runs.
late_test :
    (is_idle (occur_all (continues 0 ∷ continues 0 ∷ []) late_run).state ≡ true)
    × (engine_quiet (occur_all (continues 0 ∷ continues 0 ∷ []) late_run).engine ≡ false)
unfolding take_action facade_of new_pipeline new_control occur_all occur occur_at continue_thread
    pick_out proceed on_result resident_result store_idle is_streaming notify start_thread
late_test = (refl, refl)
