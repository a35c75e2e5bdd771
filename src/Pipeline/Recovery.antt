-- ===== src/Pipeline/Recovery.antt =====
-- `reset` of the facade of src/pipeline_impl.cpp.
use ai_pipe.Prelude.{
  ℕ, ◌≡◌, refl, sym, ap, subst, ◌∙◌, arith, true, false, ◌&&◌, Option, none, some, List, [],
}
use ai_pipe.Errors.{Error, is_ok, has_code, no_error}
use ai_pipe.Errors.Codes.{error_number}
use ai_pipe.Errors.Results.{has_error, VoidResult, void_ok, void_err, void_is_ok}
use ai_pipe.Engine.Control.{
  idle as at_rest, Control, new_control, initialize, setup_nodes, setup_unless_done, teardown_nodes,
  teardown_from,
}
use ai_pipe.Engine.Control.Methods.{
  start_streaming, raise_stop, stop_running, stop_execution_async, stop_execution_sync_end,
  reset_control, stop_streaming_begin, stop_streaming_end,
}
use ai_pipe.Pipeline.Events.{equipped, happen_all-equipped}
use ai_pipe.Pipeline.{
  unregistered, Pipeline, error, stream, Event, is_there, is_streaming, validate_state, occur_all,
  set_engine, with_engine, on_engine,
}
use ai_pipe.Pipeline.Methods.{
  initialize_end, put_engine, initialize_pipeline, ask_engine, start, stop_at, stop_async,
  stop_streaming, stop, cancel, end_execution, reset, is_ready,
}

with_engine-equipped :
    (f : Control → Control) (e : Option Control) (p : Pipeline)
    → e ≡ p.engine
    → equipped (with_engine f e p) ≡ equipped p
unfolding with_engine set_engine
with_engine-equipped f none p same = refl
with_engine-equipped f (some c) p same = ap (λ b. b && p.has_graph) (ap is_there same)

on_engine-equipped : (f : Control → Control) (p : Pipeline) → equipped (on_engine f p) ≡ equipped p
unfolding on_engine
on_engine-equipped f p = with_engine-equipped f p.engine p refl

stop-equipped : (meanwhile : List Event) (p : Pipeline) → equipped (stop meanwhile p) ≡ equipped p
unfolding stop stop_streaming
stop-equipped meanwhile p =
    let begun = on_engine stop_streaming_begin p in
    ground (
      arith,
      on_engine-equipped stop_streaming_end (occur_all meanwhile begun),
      happen_all-equipped meanwhile begun,
      on_engine-equipped stop_streaming_begin p,
    )

stop_at-equipped :
    (between : List Event) (e : Option Control) (p : Pipeline)
    → e ≡ p.engine
    → equipped (stop_at between e p) ≡ equipped p
unfolding stop_at set_engine
stop_at-equipped between none p same = refl
stop_at-equipped between (some c) p same =
    let raised = record p { engine = some (raise_stop c) } in
    ground (
      arith,
      on_engine-equipped stop_running (occur_all between raised),
      happen_all-equipped between raised,
      ap is_there same,
    )

cancel-equipped :
    (meanwhile : List Event) (p : Pipeline) → equipped (cancel meanwhile p) ≡ equipped p
unfolding cancel stop_streaming stop_async
cancel-equipped meanwhile p =
    let begun = on_engine stop_streaming_begin p in
    ground (
      arith,
      on_engine-equipped stop_streaming_end (occur_all meanwhile begun),
      happen_all-equipped meanwhile begun,
      on_engine-equipped stop_streaming_begin p,
      stop_at-equipped meanwhile p.engine p refl,
    )

end_execution-equipped :
    (meanwhile : List Event) (p : Pipeline) → equipped (end_execution meanwhile p) ≡ equipped p
unfolding end_execution
end_execution-equipped meanwhile p = ground (
  arith,
  stop-equipped meanwhile p,
  happen_all-equipped meanwhile (cancel [] p),
  cancel-equipped [] p,
)

-- The engine is at rest, with no flag set, no sink at its end and no node set up, if there is one.
abbrev pub EngineReset : Option Control → Type 0
EngineReset none = Unit {0}
EngineReset (some c) =
    (c.engine_state ≡ at_rest)
    × (c.streaming_mode ≡ false)
    × (c.stop_flag ≡ false)
    × (c.completion_reported ≡ false)
    × (c.end_of_stream_reached ≡ false)
    × (c.sinks_at_eos ≡ 0)
    × (c.set_up_nodes ≡ [])

reset-engine :
    (e : Option Control) (p : Pipeline)
    → e ≡ p.engine
    → EngineReset
        (with_engine
          (λ c. reset_control (stop_execution_sync_end (stop_execution_async c)))
          e
          p).engine
unfolding with_engine set_engine reset_control teardown_nodes
reset-engine none p same = subst EngineReset same tt
reset-engine (some d) p same = (refl, refl, refl, refl, refl, refl, refl)

-- A facade that has a graph and an engine is ready after `reset`, whatever state it was in and whatever happened
-- meanwhile: its last error is forgotten, and its engine is idle: no node is set up, no sink is counted at
-- its end, and the flags for streaming, a stop, a reported completion and the end of the stream are unset.
pub reset-is_ready :
    (meanwhile : List Event) (p : Pipeline)
    → equipped p ≡ true
    → (is_ready (reset meanwhile p) ≡ true)
      × ((reset meanwhile p).last_error ≡ none)
      × EngineReset (reset meanwhile p).engine
unfolding reset on_engine is_ready
reset-is_ready meanwhile p has =
    let q = end_execution meanwhile p in
    let f = λ (c : Control). reset_control (stop_execution_sync_end (stop_execution_async c)) in
    (
      with_engine-equipped f q.engine q refl ∙ end_execution-equipped meanwhile p ∙ has,
      refl,
      reset-engine q.engine q refl,
    )

abbrev failed_facade : Pipeline → Pipeline
failed_facade p = record p {
  mode = stream;
  has_graph = true;
  engine = some new_control;
  handlers = unregistered;
  threads = [];
  state = error;
}

initialize-failed :
    (e : Error) (p : Pipeline)
    → void_is_ok (void_err e) ≡ false
    → (initialize_pipeline false stream (has_error e) p).0 ≡ failed_facade p
unfolding initialize_pipeline initialize_end put_engine set_engine initialize teardown_nodes
    teardown_from new_control
initialize-failed e p fails = ground (arith, fails)

reset-start :
    (setup : ℕ → VoidResult) (p : Pipeline)
    → (is_ready (reset [] (failed_facade p)) ≡ true)
      × (start true setup (reset [] (failed_facade p)) ≡ none)
unfolding is_ready reset end_execution on_engine with_engine set_engine is_streaming new_control
    reset_control stop_execution_sync_end stop_execution_async stop_running raise_stop
    teardown_nodes teardown_from start validate_state void_is_ok is_ok has_code error_number void_ok
    no_error ask_engine start_streaming setup_nodes setup_unless_done
reset-start setup p = (refl, refl)

-- In stream mode, after an initialization that failed because the graph does not compile, `reset` makes the facade
-- ready, but `start` then reads the compiled graph that is not there: its behaviour is undefined.
pub start_undefined :
    (e : Error) (setup : ℕ → VoidResult) (p : Pipeline)
    → void_is_ok (void_err e) ≡ false
    → (is_ready (reset [] (initialize_pipeline false stream (has_error e) p).0) ≡ true)
      × (start true setup (reset [] (initialize_pipeline false stream (has_error e) p).0) ≡ none)
start_undefined e setup p fails =
    subst (λ q. (is_ready (reset [] q) ≡ true) × (start true setup (reset [] q) ≡ none))
      (sym (initialize-failed e p fails)) (reset-start setup p)
