-- ===== src/Pipeline/Methods.antt =====
-- The methods of the facade of src/pipeline_impl.cpp.
use Prim.Native.String.{String, ◌++◌ as ◌+++◌}
use ai_pipe.Prelude.{
  ℕ, Bool, true, not, ◌&&◌, Option, none, some, List, [], ◌∷◌, ◌++◌, eqb, length, set,
  if◌then◌else◌, ◌>>=◌,
}
use ai_pipe.Errors.{Error, error_of}
use ai_pipe.Errors.Codes.{
  invalid_state, execution_failed, execution_timeout, graph_cycle_detected, error_number,
}
use ai_pipe.Errors.Results.{
  Result, has_value, has_error, VoidResult, void_ok, void_err, void_is_ok, void_error_code,
}
use ai_pipe.Engine.Control.{Control, EngineState, new_control, initialize}
use ai_pipe.Engine.Control.Methods.{
  begin_execution, fail_distribution, stop_execution_async, stop_execution_sync_end, time_out,
  finish_wait, raise_stop, stop_running, start_streaming, stop_streaming_begin, stop_streaming_end,
  reset_control,
}
use ai_pipe.Pipeline.{
  Event, ExecutionMode, Pipeline, PortDataMap, error, execution_started, unclaimed, fulfilled,
  occur_all, idle, is_idle, is_open, is_running, is_stream, is_streaming, is_there, notify,
  on_engine, one_shot, resident, unregistered, running, set_engine, stopping, validate_state,
}

-- What the engine finds: what the hook `setup` of a node returns, and whether the inputs can be distributed; a
-- streaming engine pushes them instead.
pub record Work : Type 0 where
  pub setup : ℕ → VoidResult
  pub distributed : Bool
  pub pushed : VoidResult

-- `ExecutionEngine::execute` up to its wait.
unfoldable pub distribute : Work → Control × VoidResult → Control × VoidResult
distribute w (c, result) =
    if void_is_ok result && not w.distributed then fail_distribution c else (c, result)

unfoldable pub execute : Work → Control → Option (Control × VoidResult)
execute w c =
    if c.streaming_mode
    then some (c, w.pushed)
    else (do begun ← begin_execution w.setup c; some (distribute w begun))

-- The engine's answer to a call of the facade, with the new state of the engine in place.
unfoldable pub put_engine : Pipeline → Control × VoidResult → Pipeline × VoidResult
put_engine p (c, result) = (set_engine c p, result)

unfoldable pub ask_engine :
    (Control → Option (Control × VoidResult)) → Pipeline → Option (Pipeline × VoidResult)
ask_engine call p = do c ← p.engine; answer ← call c; some (put_engine p answer)

-- A call that is valid claims RUNNING.
unfoldable pub claim : Pipeline → Pipeline
claim p = notify execution_started (record p { state = running })

-- `stopExecutionAsync`, while the events occur between its exchange of the flag and its part under the mutex.
unfoldable pub stop_at : List Event → Option Control → Pipeline → Pipeline
stop_at between none p = p
stop_at between (some c) p =
    if c.stop_flag
    then p
    else on_engine stop_running (occur_all between (set_engine (raise_stop c) p))

unfoldable pub stop_async : List Event → Pipeline → Pipeline
stop_async between p = stop_at between p.engine p

-- How a wait for the end of an execution ends: after that many milliseconds, or with a count of active tasks; with
-- what occurs before the waiter takes the mutex.
pub data Wait : Type 0 where
  timed_out : String → List Event → Wait
  reached : ℕ → List Event → Wait

unfoldable pub finish_at :
    Bool → ℕ → EngineState → Option Control → Pipeline → Pipeline × VoidResult
finish_at was_stopped active seen none p = (p, void_ok)
finish_at was_stopped active seen (some c) p = put_engine p (finish_wait was_stopped active seen c)

unfoldable pub wait_for_completion : Wait → Control → Pipeline → Pipeline × VoidResult
wait_for_completion (timed_out ms between) c p = (stop_async between p, time_out ms)
wait_for_completion (reached active between) c p =
    let q = occur_all between p in finish_at c.stop_flag active c.engine_state q.engine q

-- The wait of `execute`, if it came to it, while the events occur: a streaming engine waits for its tasks only.
unfoldable pub wait_at : Wait → Option Control → Pipeline → Pipeline × VoidResult
wait_at w none p = (p, void_ok)
wait_at w (some c) p = if c.streaming_mode then (p, void_ok) else wait_for_completion w c p

unfoldable pub wait_engine : List Event → Wait → Pipeline × VoidResult → Pipeline × VoidResult
wait_engine meanwhile w (p, result) =
    let q = occur_all meanwhile p in if void_is_ok result then wait_at w q.engine q else (p, result)

unfoldable pub error_or : Option Error → Error → Error
error_or none e = e
error_or (some last) e = last

-- `run` after the engine has answered; `ms` is the text of the milliseconds that have passed.
unfoldable pub run_end : String → Pipeline × VoidResult → Pipeline × Result PortDataMap
run_end ms (p, result) =
    if void_is_ok result
    then (record p { state = idle }, has_value p.last_results)
    else if eqb (error_number (void_error_code result)) (error_number execution_timeout)
    then (
      record p { state = error },
      has_error (error_of execution_timeout (("Execution timed out after " +++ ms) +++ "ms") ""),
    )
    else (record p { state = error }, has_error (error_or p.last_error result.error))

unfoldable pub run :
    Work → List Event → Wait → String → Pipeline → Option (Pipeline × Result PortDataMap)
run work meanwhile w ms p =
    let valid = validate_state "run" p in
    if void_is_ok valid
    then (do
      begun ← ask_engine (execute work) (claim p)
      some (run_end ms (wait_engine meanwhile w begun)))
    else some (p, has_error valid.error)

unfoldable pub submit_end : Pipeline × VoidResult → Pipeline × VoidResult
submit_end (p, result) =
    if void_is_ok result then (p, void_ok) else (record p { state = error }, result)

unfoldable pub submit : Work → Pipeline → Option (Pipeline × VoidResult)
submit work p =
    let valid = validate_state "submit" p in
    if void_is_ok valid
    then (do begun ← ask_engine (execute work) (claim p); some (submit_end begun))
    else some (p, valid)

-- `runAsync`: the number of the future that it returns. When the engine refuses, the promise is broken with
-- an error unless a callback was first.
unfoldable pub async_end : ℕ → Pipeline × VoidResult → Pipeline × ℕ
async_end k (p, result) =
    if not (void_is_ok result) && is_open k p.futures
    then (
      record p {
        state = error;
        handlers = resident;
        futures = set p.futures k (
            fulfilled (has_error (error_of execution_failed "Failed to start async execution" "")));
      },
      k,
    )
    else (p, k)

unfoldable pub run_async : Work → Pipeline → Option (Pipeline × ℕ)
run_async work p =
    let valid = validate_state "runAsync" p in
    let k = length p.futures in
    if void_is_ok valid
    then (do
      begun ←
          ask_engine (execute work)
            (record (claim p) { handlers = one_shot k; futures = p.futures ++ unclaimed ∷ [] })
      some (async_end k begun))
    else some (record p { futures = p.futures ++ fulfilled (has_error valid.error) ∷ [] }, k)

-- `initialize` of the facade, with whether the graph has a cycle, the mode of the options, and what the
-- engine's compilation of the graph returns; the old engine has joined its threads by then. Custom strategies are left
-- out; a new engine accepts them.
unfoldable pub initialize_end : Pipeline × VoidResult → Pipeline × VoidResult
initialize_end (p, result) =
    if void_is_ok result
    then (record p { state = idle; handlers = resident }, void_ok)
    else (record p { state = error }, result)

unfoldable pub initialize_pipeline :
    Bool → ExecutionMode → Result (List ℕ × ℕ) → Pipeline → Pipeline × VoidResult
initialize_pipeline has_cycle mode compiled p =
    let given = record p { mode = mode; has_graph = true } in
    if has_cycle
    then (
      record given { state = error },
      void_err (error_of graph_cycle_detected "Pipeline graph contains a cycle" ""),
    )
    else initialize_end (
        put_engine (record given { handlers = unregistered; threads = [] })
          (initialize (some compiled) new_control))

-- `start`, with whether the scheduler supports streaming.
unfoldable pub start_end : Pipeline × VoidResult → Pipeline × VoidResult
start_end (p, result) =
    if void_is_ok result then (p, void_ok) else (record p { state = error }, result)

unfoldable pub start : Bool → (ℕ → VoidResult) → Pipeline → Option (Pipeline × VoidResult)
start supports setup p =
    let valid = validate_state "start streaming" p in
    let mode_error =
      error_of invalid_state
        "Cannot start streaming in batch mode. Pipeline must be configured with STREAM execution mode"
        "" in
    if not (void_is_ok valid)
    then some (p, valid)
    else if not (is_stream p.mode)
    then some (p, void_err mode_error)
    else (do
      begun ← ask_engine (start_streaming supports setup) (record p { state = running })
      some (start_end begun))

-- `stopStreaming` of a streaming engine, while the events occur.
unfoldable pub stop_streaming : List Event → Pipeline → Pipeline
stop_streaming meanwhile p =
    on_engine stop_streaming_end (occur_all meanwhile (on_engine stop_streaming_begin p))

unfoldable pub stop : List Event → Pipeline → Pipeline
stop meanwhile p =
    if is_streaming p then record (stop_streaming meanwhile p) { state = idle } else p

-- `cancel`; the token of the context is left out.
unfoldable pub cancel : List Event → Pipeline → Pipeline
cancel meanwhile p =
    if not (is_running p.state) && not (is_streaming p)
    then p
    else if is_streaming p
    then record (stop_streaming meanwhile p) { state = stopping }
    else record (stop_async meanwhile p) { state = stopping }

-- `reset`: of an execution that runs, the events occur before its engine is idle.
unfoldable pub end_execution : List Event → Pipeline → Pipeline
end_execution meanwhile p =
    if is_streaming p
    then stop meanwhile p
    else if is_running p.state
    then occur_all meanwhile (cancel [] p)
    else p

unfoldable pub reset : List Event → Pipeline → Pipeline
reset meanwhile p =
    let ended =
      on_engine (λ c. reset_control (stop_execution_sync_end (stop_execution_async c)))
        (end_execution meanwhile p) in
    record ended { last_results = []; last_error = none; state = idle }

unfoldable pub is_ready : Pipeline → Bool
is_ready p = is_idle p.state && is_there p.engine && p.has_graph
