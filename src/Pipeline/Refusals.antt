-- ===== src/Pipeline/Refusals.antt =====
-- What the facade of src/pipeline_impl.cpp refuses.
use Prim.Native.String.{String}
use ai_pipe.Prelude.{◌≡◌, arith, Bool, false, some, List}
use ai_pipe.Errors.{Error, is_ok, has_code, error_of}
use ai_pipe.Errors.Codes.{ErrorCode, error_number, not_initialized, invalid_state, already_running}
use ai_pipe.Errors.Results.{has_error, void_err, void_is_ok}
use ai_pipe.Pipeline.{
  Pipeline, PipelineState, uninitialized, idle, running, stopping, error, Event, validate_state,
}
use ai_pipe.Pipeline.Methods.{Work, Wait, run, submit, start, is_ready}

-- The code with which the state refuses a call.
abbrev pub refusal_code : PipelineState → ErrorCode
refusal_code uninitialized = not_initialized
refusal_code error = invalid_state
refusal_code running = already_running
refusal_code stopping = already_running
refusal_code idle = not_initialized

validate_refuses :
    (operation : String) (p : Pipeline)
    → is_ready p ≡ false
    → (void_is_ok (validate_state operation p) ≡ false)
      × ((validate_state operation p).error.code ≡ refusal_code p.state)
unfolding is_ready validate_state void_is_ok is_ok has_code error_number void_err error_of
validate_refuses operation p h = ground (arith, h)

-- A facade that is not ready refuses `run`, `submit` and `start` with the code of its state and does not change.
pub not_ready_refuses :
    (work : Work) (meanwhile : List Event) (w : Wait) (ms : String) (supports : Bool) (p : Pipeline)
    → is_ready p ≡ false
    → (e f g : Error) × (run work meanwhile w ms p ≡ some (p, has_error e))
      × (submit work p ≡ some (p, void_err f))
      × (start supports work.setup p ≡ some (p, void_err g))
      × (e.code ≡ refusal_code p.state)
      × (f.code ≡ refusal_code p.state)
      × (g.code ≡ refusal_code p.state)
unfolding run submit start void_err
not_ready_refuses work meanwhile w ms supports p h =
    let r = validate_refuses "run" p h in
    let s = validate_refuses "submit" p h in
    let t = validate_refuses "start streaming" p h in
    (
      (validate_state "run" p).error,
      (validate_state "submit" p).error,
      (validate_state "start streaming" p).error,
      ground (arith, r.0),
      ground (arith, s.0),
      ground (arith, t.0),
      r.1,
      s.1,
      t.1,
    )
