-- ===== src/Pipeline.antt =====
-- The facade `Pipeline` of src/pipeline_impl.cpp over the engine of Engine/Control. Of its calls none overlaps
-- another one; what the engine's threads do while a call waits is a list of events, which cut their way through the
-- callbacks where other threads can come between. A map of results has numbers
-- for the packets. `none` is undefined behaviour of the engine.
pub mod Methods
pub mod Threads
pub mod Events
pub mod Histories
mod Waits
mod Runs
mod Calls
pub mod Idle
pub mod Refusals
pub mod Recovery
pub mod Cancelled
mod Promises
pub mod Futures
mod Tests
use Prim.Native.String.{String, ◌++◌ as ◌+++◌}
use ai_pipe.Prelude.{
  ℕ, zero, suc, Bool, true, false, not, ◌&&◌, ◌||◌, Option, none, some, List, [], ◌∷◌, ◌++◌, eqb,
  length, set, if◌then◌else◌, ◌>>=◌,
}
use ai_pipe.Errors.{Error, error_of, node_exception_error}
use ai_pipe.Errors.Codes.{
  ErrorCode, invalid_state, not_initialized, already_running, execution_failed, execution_timeout,
  graph_cycle_detected, error_number,
}
use ai_pipe.Errors.Results.{
  Result, has_value, has_error, VoidResult, void_ok, void_err, void_is_ok, void_error_code,
}
use ai_pipe.Engine.Control.{Control, new_control, initialize}
use ai_pipe.Engine.Control.Methods.{
  begin_execution, fail_distribution, raise_stop, stop_running, stop_execution_async,
  stop_execution_sync_end, time_out, finish_wait, start_streaming, stop_streaming_begin,
  stop_streaming_end, reset_control, check_completion_and_notify, reports_completion,
}
use ai_pipe.Pool.{pick_out}

abbrev pub PortDataMap : Type 0
PortDataMap = List (String × ℕ)

pub data PipelineState : Type 0 where
  uninitialized idle running stopping error : PipelineState

pub data ExecutionMode : Type 0 where
  batch stream : ExecutionMode

-- What an observer is told.
pub data Notice : Type 0 where
  execution_started : Notice
  execution_completed : PortDataMap → Notice
  execution_failed_with : Error → Notice

-- Which callbacks are registered with the engine: none, those of `setupEngineCallbacks`, or those of the call of
-- `runAsync` that has the future with that number.
pub data Handlers : Type 0 where
  unregistered resident : Handlers
  one_shot : ℕ → Handlers

-- A promise of `runAsync` with its flag `done`: no callback was called yet, one of them is at work, or the future
-- has its result.
pub data Promise : Type 0 where
  unclaimed claimed : Promise
  fulfilled : Result PortDataMap → Promise

-- Where a thread of the engine stands outside the engine's own steps. A thread that calls a callback holds a copy
-- of it, whatever is registered meanwhile.
pub data Thread : Type 0 where
  -- it has reported the completion, and takes the callback next
  reports : PortDataMap → Thread
  calls_result : Handlers → PortDataMap → Thread
  calls_error : Handlers → String → String → Thread
  -- in the callback of `setupEngineCallbacks`, after it has read RUNNING
  rests : PortDataMap → Thread
  -- in the callbacks of `runAsync`, after the exchange of `done`
  completes : ℕ → PortDataMap → Thread
  fails : ℕ → Error → Thread
  -- in `stopExecutionAsync`, after the exchange of the stop flag
  lands_stop : Thread

pub record Pipeline : Type 0 where
  pub state : PipelineState
  pub mode : ExecutionMode
  pub has_graph : Bool
  pub engine : Option Control
  pub handlers : Handlers
  pub last_results : PortDataMap
  pub last_error : Option Error
  pub notices : List Notice
  -- of each call of `runAsync`
  pub futures : List Promise
  -- the threads of the engine on their way to or in a callback
  pub threads : List Thread

pub new_pipeline : Pipeline
new_pipeline = record {
  state = uninitialized;
  mode = batch;
  has_graph = false;
  engine = none;
  handlers = unregistered;
  last_results = [];
  last_error = none;
  notices = [];
  futures = [];
  threads = [];
}

abbrev pub is_uninitialized : PipelineState → Bool
is_uninitialized uninitialized = true
is_uninitialized _ = false

abbrev pub is_idle : PipelineState → Bool
is_idle idle = true
is_idle _ = false

abbrev pub is_error_state : PipelineState → Bool
is_error_state error = true
is_error_state _ = false

abbrev pub is_running_state : PipelineState → Bool
is_running_state running = true
is_running_state _ = false

-- `isRunning`
abbrev pub is_running : PipelineState → Bool
is_running running = true
is_running stopping = true
is_running _ = false

abbrev pub is_stream : ExecutionMode → Bool
is_stream stream = true
is_stream batch = false

abbrev pub engine_streams : Option Control → Bool
engine_streams none = false
engine_streams (some c) = c.streaming_mode

pub is_streaming : Pipeline → Bool
is_streaming p = engine_streams p.engine

abbrev pub is_there {ℓ} : {A : Type ℓ} → Option A → Bool
is_there none = false
is_there (some a) = true

pub validate_state : String → Pipeline → VoidResult
validate_state operation p =
    let cannot = "Cannot " +++ operation in
    if is_uninitialized p.state
    then void_err (error_of not_initialized (cannot +++ " - pipeline not initialized") "")
    else if is_error_state p.state
    then void_err
        (error_of invalid_state (cannot +++ " - pipeline in error state. Call reset() first") "")
    else if is_running p.state
    then void_err (error_of already_running (cannot +++ " - pipeline already running") "")
    else if not (is_there p.engine) || not p.has_graph
    then void_err (error_of not_initialized (cannot +++ " - missing engine or graph") "")
    else void_ok

pub notify : Notice → Pipeline → Pipeline
notify n p = record p { notices = p.notices ++ n ∷ [] }

pub start_thread : Thread → Pipeline → Pipeline
start_thread t p = record p { threads = t ∷ p.threads }

-- The callbacks of `setupEngineCallbacks`: that for results up to its test of the state.
pub resident_result : PortDataMap → Pipeline → Pipeline
resident_result results p =
    let stored = record p { last_results = results; last_error = none } in
    if not (is_streaming p) && is_running_state p.state
    then start_thread (rests results) stored
    else notify (execution_completed results) stored

pub store_idle : PortDataMap → Pipeline → Pipeline
store_idle results p = notify (execution_completed results) (record p { state = idle })

pub resident_error : String → String → Pipeline → Pipeline
resident_error message node p =
    let e = node_exception_error message node in
    let next = if is_streaming p then p.state else error in
    notify (execution_failed_with e) (record p { last_error = some e; state = next })

-- Whether the flag `done` of the call with that number is still unset.
pub is_open : ℕ → List Promise → Bool
is_open k [] = false
is_open zero (unclaimed ∷ fs) = true
is_open zero (claimed ∷ fs) = false
is_open zero (fulfilled r ∷ fs) = false
is_open (suc k) (f ∷ fs) = is_open k fs

-- The callbacks of `runAsync`: the exchange of the flag, after which only the first goes on, and the rest.
pub one_shot_result : ℕ → PortDataMap → Pipeline → Pipeline
one_shot_result k results p =
    if is_open k p.futures
    then start_thread (completes k results) (record p { futures = set p.futures k claimed })
    else p

pub complete_promise : ℕ → PortDataMap → Pipeline → Pipeline
complete_promise k results p =
    record (notify (execution_completed results)
      (record p { state = idle; last_results = results; handlers = resident })) {
        futures = set p.futures k (fulfilled (has_value results));
      }

pub one_shot_error : ℕ → String → String → Pipeline → Pipeline
one_shot_error k message node p =
    if is_open k p.futures
    then start_thread (fails k (node_exception_error message node))
        (record p { futures = set p.futures k claimed })
    else p

pub fail_promise : ℕ → Error → Pipeline → Pipeline
fail_promise k e p =
    record (notify (execution_failed_with e)
      (record p { state = error; last_error = some e; handlers = resident })) {
        futures = set p.futures k (fulfilled (has_error e));
      }

pub on_result : Handlers → PortDataMap → Pipeline → Pipeline
on_result unregistered results p = p
on_result resident results p = resident_result results p
on_result (one_shot k) results p = one_shot_result k results p

pub on_error : Handlers → String → String → Pipeline → Pipeline
on_error unregistered message node p = p
on_error resident message node p = resident_error message node p
on_error (one_shot k) message node p = one_shot_error k message node p

pub set_engine : Control → Pipeline → Pipeline
set_engine c p = record p { engine = some c }

-- What a call does to the engine, if there is one.
unfoldable pub with_engine : (Control → Control) → Option Control → Pipeline → Pipeline
with_engine f none p = p
with_engine f (some c) p = set_engine (f c) p

unfoldable pub on_engine : (Control → Control) → Pipeline → Pipeline
on_engine f p = with_engine f p.engine p

-- The next step of a thread.
pub proceed : Thread → Pipeline → Pipeline
proceed (reports results) p = start_thread (calls_result p.handlers results) p
proceed (calls_result h results) p = on_result h results p
proceed (calls_error h message node) p = on_error h message node p
proceed (rests results) p = store_idle results p
proceed (completes k results) p = complete_promise k results p
proceed (fails k e) p = fail_promise k e p
proceed lands_stop p = on_engine stop_running p

-- What the engine's threads do: a check for completion that may report results, a node that throws, the exchange of
-- the stop flag after a failure outside streaming, and the next step of the thread with that number.
pub data Event : Type 0 where
  checks_completion : ℕ → Bool → PortDataMap → Event
  node_throws : String → String → Event
  node_fails : Event
  continues : ℕ → Event

pub continue_thread : Option (Thread × List Thread) → Pipeline → Pipeline
continue_thread none p = p
continue_thread (some (t, others)) p = proceed t (record p { threads = others })

pub fail_node : Control → Pipeline → Pipeline
fail_node c p =
    if c.streaming_mode || c.stop_flag
    then p
    else start_thread lands_stop (set_engine (raise_stop c) p)

pub occur_at : Event → Option Control → Pipeline → Pipeline
occur_at v none p = p
occur_at (checks_completion active is_complete results) (some c) p =
    if reports_completion active is_complete c
    then start_thread (reports results)
        (set_engine (check_completion_and_notify active is_complete c) p)
    else p
occur_at (node_throws message node) (some c) p =
    start_thread (calls_error p.handlers message node) p
occur_at node_fails (some c) p = fail_node c p
occur_at (continues k) (some c) p = continue_thread (pick_out k p.threads) p

pub occur : Event → Pipeline → Pipeline
occur v p = occur_at v p.engine p

pub occur_all : List Event → Pipeline → Pipeline
occur_all [] p = p
occur_all (v ∷ vs) p = occur_all vs (occur v p)
