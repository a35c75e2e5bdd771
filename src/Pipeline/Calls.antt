-- ===== src/Pipeline/Calls.antt =====
-- The other calls of src/pipeline_impl.cpp leave the facade idle only with an engine that is.
use ai_pipe.Prelude.{
  ℕ, ◌≡◌, refl, sym, ap, subst, arith, Bool, true, false, not, ◌&&◌, Option, none, some, List, [],
  ◌∷◌, ◌++◌, length, Bool-cases, inl, inr, ◌>>=◌,
}
use ai_pipe.Errors.Results.{Result, has_value, has_error, VoidResult, void_is_ok}
use ai_pipe.Engine.Control.{Control, new_control, initialize, teardown_nodes}
use ai_pipe.Engine.Control.Methods.{
  start_streaming, stop_streaming_begin, stop_streaming_end, stop_execution_async,
  stop_execution_sync_end, reset_control,
}
use ai_pipe.Pipeline.{
  Pipeline, running, ExecutionMode, one_shot, Event, is_running, is_stream, is_streaming,
  validate_state, notify, occur_all, set_engine, unclaimed, fulfilled, with_engine, on_engine,
}
use ai_pipe.Pipeline.Methods.{
  Work, initialize_end, put_engine, initialize_pipeline, ask_engine, execute, claim, submit_end,
  submit, async_end, run_async, start_end, start, stop_async, stop_streaming, stop, cancel,
  end_execution, reset,
}
use ai_pipe.Pipeline.Threads.{engine_quiet, any_late, may_rest, IdleEngine}
use ai_pipe.Pipeline.Histories.{facade_of}
use ai_pipe.Pipeline.Runs.{asked-busy, busy-IdleEngine, facade_of-bind}
use ai_pipe.Pipeline.Waits.{stop_async-IdleEngine}

submit_end-busy :
    (d : Pipeline × VoidResult) → may_rest d.0 ≡ false → may_rest (submit_end d).0 ≡ false
unfolding submit_end
submit_end-busy (p, result) h = ground (arith, h)

async_end-busy :
    (k : ℕ) (d : Pipeline × VoidResult) → may_rest d.0 ≡ false → may_rest (async_end k d).0 ≡ false
unfolding async_end
async_end-busy k (p, result) h = ground (arith, h)

start_end-busy :
    (d : Pipeline × VoidResult) → may_rest d.0 ≡ false → may_rest (start_end d).0 ≡ false
unfolding start_end
start_end-busy (p, result) h = ground (arith, h)

-- A call that asks the engine and leaves the facade claimed or in error.
begun-IdleEngine {ℓ} :
    {B : Type ℓ} (call : Control → Option (Control × VoidResult))
    (f : Pipeline × VoidResult → Pipeline × B) (p q : Pipeline)
    → may_rest p ≡ false
    → ((d : Pipeline × VoidResult) → may_rest d.0 ≡ false → may_rest (f d).0 ≡ false)
    → facade_of (ask_engine call p >>= λ begun. some (f begun)) ≡ some q
    → IdleEngine q
begun-IdleEngine call f p q claimed keeps h =
    let ((r, result), answered, same) = facade_of-bind (ask_engine call p) f q h in
    subst IdleEngine same (
      busy-IdleEngine (f (r, result)).0
        (keeps (r, result) (asked-busy call p r result claimed answered)))

pub submit-IdleEngine :
    (work : Work) (p q : Pipeline)
    → IdleEngine p
    → any_late p.threads ≡ false
    → facade_of (submit work p) ≡ some q
    → IdleEngine q
unfolding submit claim notify facade_of
submit-IdleEngine work p q h early runs_to =
    elim (Bool-cases (void_is_ok (validate_state "submit" p))) [
      | inl valid ↦
          let h' : facade_of
                (ask_engine (execute work) (claim p) >>= λ begun. some (submit_end begun))
              ≡ some q =
            ground (arith, runs_to, valid) in
          begun-IdleEngine (execute work) submit_end (claim p) q early submit_end-busy h'
      | inr invalid ↦ let same : p ≡ q = ground (arith, runs_to, invalid) in subst IdleEngine same h
    ]

pub run_async-IdleEngine :
    (work : Work) (p q : Pipeline)
    → IdleEngine p
    → any_late p.threads ≡ false
    → facade_of (run_async work p) ≡ some q
    → IdleEngine q
unfolding run_async claim notify facade_of
run_async-IdleEngine work p q h early runs_to =
    let k = length p.futures in
    let claimed = record (claim p) {
      handlers = one_shot k;
      futures = p.futures ++ unclaimed ∷ [];
    } in
    elim (Bool-cases (void_is_ok (validate_state "runAsync" p))) [
      | inl valid ↦
          let h' : facade_of
                (ask_engine (execute work) claimed >>= λ begun. some (async_end k begun))
              ≡ some q =
            ground (arith, runs_to, valid) in
          begun-IdleEngine (execute work) (async_end k) claimed q early (async_end-busy k) h'
      | inr invalid ↦
          let refused = record p {
            futures = p.futures ++ fulfilled (has_error (validate_state "runAsync" p).error) ∷ [];
          } in
          let same : refused ≡ q = ground (arith, runs_to, invalid) in
          let h' : IdleEngine refused = h in subst IdleEngine same h'
    ]

pub start-IdleEngine :
    (supports : Bool) (setup : ℕ → VoidResult) (p q : Pipeline)
    → IdleEngine p
    → any_late p.threads ≡ false
    → facade_of (start supports setup p) ≡ some q
    → IdleEngine q
unfolding start facade_of
start-IdleEngine supports setup p q h early runs_to =
    elim (Bool-cases (void_is_ok (validate_state "start streaming" p) && is_stream p.mode)) [
      | inl valid ↦
          let claimed = record p { state = running } in
          let h' : facade_of (
                ask_engine (start_streaming supports setup) claimed >>= λ begun.
                some (start_end begun))
              ≡ some q =
            ground (arith, runs_to, valid) in
          begun-IdleEngine (start_streaming supports setup) start_end claimed q early start_end-busy
            h'
      | inr invalid ↦ let same : p ≡ q = ground (arith, runs_to, invalid) in subst IdleEngine same h
    ]

with_engine-quiet :
    (f : Control → Control) (e : Option Control) (p : Pipeline)
    → e ≡ p.engine
    → ((c : Control) → engine_quiet (some (f c)) ≡ true)
    → engine_quiet (with_engine f e p).engine ≡ true
unfolding with_engine set_engine
with_engine-quiet f none p same quiet = ap engine_quiet (sym same)
with_engine-quiet f (some c) p same quiet = quiet c

stopped_stream-quiet :
    (meanwhile : List Event) (p : Pipeline)
    → engine_quiet (stop_streaming meanwhile p).engine ≡ true
unfolding stop_streaming on_engine stop_streaming_end
stopped_stream-quiet meanwhile p =
    let q = occur_all meanwhile (on_engine stop_streaming_begin p) in
    with_engine-quiet stop_streaming_end q.engine q refl (λ c. refl)

late-may_rest : (p : Pipeline) → any_late p.threads ≡ true → may_rest p ≡ true
late-may_rest p late = ground (arith, late)

pub stop-IdleEngine :
    (meanwhile : List Event) (p : Pipeline) → IdleEngine p → IdleEngine (stop meanwhile p)
unfolding stop stop_streaming on_engine stop_streaming_end
stop-IdleEngine meanwhile p h = elim (Bool-cases (is_streaming p)) [
  | inl streams ↦
      let q = occur_all meanwhile (on_engine stop_streaming_begin p) in
      let quiet = with_engine-quiet stop_streaming_end q.engine q refl (λ c. refl) in
      rw streams (λ rests. quiet)
  | inr no_stream ↦ rw no_stream h
]

pub cancel-IdleEngine :
    (meanwhile : List Event) (p : Pipeline) → IdleEngine p → IdleEngine (cancel meanwhile p)
unfolding cancel
cancel-IdleEngine meanwhile p h =
    elim (Bool-cases (not (is_running p.state) && not (is_streaming p))) [
      | inl nothing ↦ rw nothing h
      | inr something ↦ elim (Bool-cases (is_streaming p)) [
        | inl streams ↦ rw (something, streams) (λ rested. stopped_stream-quiet meanwhile p)
        | inr batch ↦
            let stopped = stop_async meanwhile p in
            let kept = stop_async-IdleEngine meanwhile p h in
            rw (something, batch) (λ rested. kept (late-may_rest stopped rested))
      ]
    ]

pub reset-IdleEngine : (meanwhile : List Event) (p : Pipeline) → IdleEngine (reset meanwhile p)
unfolding reset on_engine reset_control teardown_nodes
reset-IdleEngine meanwhile p =
    let q = end_execution meanwhile p in
    let quiet =
      with_engine-quiet (λ c. reset_control (stop_execution_sync_end (stop_execution_async c)))
        q.engine q refl (λ c. refl) in
    λ rests. quiet

pub initialize-IdleEngine :
    (has_cycle : Bool) (mode : ExecutionMode) (compiled : Result (List ℕ × ℕ)) (p : Pipeline)
    → IdleEngine p
    → IdleEngine (initialize_pipeline has_cycle mode compiled p).0
unfolding initialize_pipeline initialize_end put_engine set_engine initialize teardown_nodes
    new_control
initialize-IdleEngine true mode compiled p h = λ rested. h (late-may_rest p rested)
initialize-IdleEngine false mode (has_error e) p h = λ rested. ground (arith, rested)
initialize-IdleEngine false mode (has_value (order, sinks)) p h = λ rested. ground (arith, rested)
