-- ===== src/Engine/Control/Methods.antt =====
-- The methods of the engine of src/execution_engine_impl.cpp that start, stop and end an execution or a stream.
use Prim.Native.String.{String, ◌++◌ as ◌+++◌}
use ai_pipe.Prelude.{
  ℕ, suc, Bool, true, false, not, ◌&&◌, ◌||◌, Option, none, some, List, eqb, ltb, if◌then◌else◌,
  ◌>>=◌,
}
use ai_pipe.Errors.{error_of}
use ai_pipe.Errors.Codes.{
  invalid_state, already_running, not_initialized, execution_failed, execution_timeout,
  execution_stopped, streaming_not_supported, not_streaming,
}
use ai_pipe.Errors.Results.{VoidResult, void_ok, void_err, void_is_ok}
use ai_pipe.Engine.Control.{
  Control, EngineState, error, idle, is_error_state, is_idle, is_running, is_stopped, running,
  setup_nodes, stopped, teardown_nodes,
}

-- What `resetInternalState` does to these members.
unfoldable pub reset_internal_state : Control → Control
reset_internal_state c = record c {
  stop_flag = false;
  completion_reported = false;
  sinks_at_eos = 0;
  end_of_stream_reached = false;
}

-- The part of `execute` in batch mode under the mutex.
unfoldable pub after_setup : Control × VoidResult → Control × VoidResult
after_setup (c, result) =
    if void_is_ok result
    then (record (reset_internal_state c) { engine_state = running }, void_ok)
    else (record c { engine_state = error }, result)

unfoldable pub begin_compiled :
    (ℕ → VoidResult) → Option (List ℕ) → Control → Option (Control × VoidResult)
begin_compiled setup none c = some (
  c,
  void_err (error_of not_initialized "Engine not initialized (missing graph or thread pool)" ""),
)
begin_compiled setup (some order) c = do done ← setup_nodes setup c; some (after_setup done)

unfoldable pub begin_execution : (ℕ → VoidResult) → Control → Option (Control × VoidResult)
begin_execution setup c =
    if is_running c.engine_state
    then some (c, void_err (error_of already_running "Engine is already running" ""))
    else begin_compiled setup c.compiled_graph c

-- `execute` when the inputs cannot be distributed.
unfoldable pub fail_distribution : Control → Control × VoidResult
fail_distribution c = (
  record c { engine_state = error },
  void_err (error_of execution_failed "Failed to distribute initial inputs to source nodes" ""),
)

-- `stopExecutionAsync`: the exchange of the flag, and the part under the mutex of the thread whose exchange succeeded.
unfoldable pub raise_stop : Control → Control
raise_stop c = record c { stop_flag = true }

unfoldable pub stop_running : Control → Control
stop_running c = record c {
  engine_state = if is_running c.engine_state then stopped else c.engine_state;
}

-- Both, when nothing comes between them.
unfoldable pub stop_execution_async : Control → Control
stop_execution_async c = if c.stop_flag then c else stop_running (raise_stop c)

unfoldable pub state_to_string : EngineState → String
state_to_string idle = "IDLE"
state_to_string running = "RUNNING"
state_to_string stopped = "STOPPED"
state_to_string error = "ERROR"

-- What `waitForCompletion` returns when the time is up and it has stopped the execution; `ms` is the text of the
-- number of milliseconds.
unfoldable pub time_out : String → VoidResult
time_out ms =
    void_err (error_of execution_timeout (("Execution timed out after " +++ ms) +++ "ms") "")

-- The end of `waitForCompletion` under the mutex, with what it has loaded before: whether the stop flag was set, the
-- count of active tasks, and the state.
unfoldable pub finish_wait : Bool → ℕ → EngineState → Control → Control × VoidResult
finish_wait was_stopped active seen c =
    if was_stopped && not (is_stopped seen)
    then (
      record c { engine_state = stopped },
      void_err (error_of execution_stopped "Execution was stopped externally" ""),
    )
    else if eqb active 0 && (is_running seen || is_idle seen)
    then (record c { engine_state = idle }, void_ok)
    else if not (is_error_state seen) && not (is_stopped seen)
    then (
      record c { engine_state = error },
      void_err (error_of execution_failed "Execution finished abnormally" ""),
    )
    else (
      c,
      void_err (
          error_of execution_failed (("Execution ended in " +++ state_to_string seen) +++ " state")
            ""),
    )

-- `startStreaming`, with whether the scheduler supports it.
unfoldable pub after_stream_setup : Control × VoidResult → Control × VoidResult
after_stream_setup (c, result) =
    if void_is_ok result
    then (
      record c {
        completion_reported = false;
        streaming_mode = true;
        stop_flag = false;
        engine_state = running;
      },
      void_ok,
    )
    else (c, result)

unfoldable pub start_streaming : Bool → (ℕ → VoidResult) → Control → Option (Control × VoidResult)
start_streaming supports setup c =
    if not (is_idle c.engine_state)
    then some
        (c, void_err (error_of invalid_state "Cannot start streaming - engine is not idle" ""))
    else if not supports
    then some (
      c,
      void_err (
          error_of streaming_not_supported
            "Current scheduler strategy does not support streaming mode" ""),
    )
    else (do done ← setup_nodes setup c; some (after_stream_setup done))

-- `stopStreaming` before its waits, and after them.
unfoldable pub stop_streaming_begin : Control → Control
stop_streaming_begin c = if c.streaming_mode then record c { stop_flag = true } else c

unfoldable pub stop_streaming_end : Control → Control
stop_streaming_end c = record c { streaming_mode = false; engine_state = idle }

-- `reset` after `stopExecutionSync`.
unfoldable pub reset_control : Control → Control
reset_control c = record (teardown_nodes c) {
  completion_reported = false;
  stop_flag = false;
  streaming_mode = false;
  sinks_at_eos = 0;
  end_of_stream_reached = false;
  engine_state = idle;
}

-- `stopExecutionSync` after its wait.
unfoldable pub stop_execution_sync_end : Control → Control
stop_execution_sync_end c = record c {
  engine_state = if is_running c.engine_state then stopped else c.engine_state;
}

-- `checkCompletionAndNotify`, with the count of active tasks and what the scheduler says: whether it reports the
-- completion, and what it does.
abbrev pub reports_completion : ℕ → Bool → Control → Bool
reports_completion active is_complete c =
    not c.streaming_mode && eqb active 0 && is_complete && not c.completion_reported

unfoldable pub check_completion_and_notify : ℕ → Bool → Control → Control
check_completion_and_notify active is_complete c =
    if reports_completion active is_complete c
    then record c {
      completion_reported = true;
      engine_state = if is_running c.engine_state then idle else c.engine_state;
      results = suc c.results;
    }
    else c

-- `recordSinkEndOfStream`
unfoldable pub record_sink_end_of_stream : Control → Control
record_sink_end_of_stream c =
    let counted = record c { sinks_at_eos = suc c.sinks_at_eos } in
    if eqb c.sink_count 0 || ltb counted.sinks_at_eos c.sink_count || c.end_of_stream_reached
    then counted
    else record counted { end_of_stream_reached = true; ends_of_stream = suc c.ends_of_stream }

-- `waitForEndOfStream`: at once, and after a wait that ended in time or not.
unfoldable pub wait_for_end_of_stream : Bool → Control → Control → VoidResult
wait_for_end_of_stream in_time before after =
    if before.end_of_stream_reached
    then void_ok
    else if not before.streaming_mode
    then void_err (error_of not_streaming "waitForEndOfStream requires streaming mode" "")
    else if not in_time
    then void_err (error_of execution_timeout "Timed out waiting for end of stream" "")
    else if after.end_of_stream_reached
    then void_ok
    else void_err (error_of execution_stopped "Engine stopped before end of stream" "")
