-- ===== src/Engine/Control/Histories.antt =====
-- Histories of the engine of src/execution_engine_impl.cpp: its methods, in any order and with any outcome of what
-- they call, as pieces between which other threads run.
use ai_pipe.Prelude.{ℕ, Bool, true, false, ◌&&◌, ◌≡◌, refl, Option, none, some, List, ◌>>=◌}
use ai_pipe.Errors.Results.{Result, VoidResult}
use ai_pipe.Engine.Control.{Control, EngineState, new_control, is_running, initialize}
use ai_pipe.Engine.Control.Methods.{
  begin_execution, fail_distribution, raise_stop, stop_running, stop_execution_sync_end,
  finish_wait, start_streaming, stop_streaming_begin, stop_streaming_end, reset_control,
  check_completion_and_notify, record_sink_end_of_stream,
}

pub data Call : Type 0 where
  initializes : Option (Result (List ℕ × ℕ)) → Call
  begins : (ℕ → VoidResult) → Call
  distribution_fails raises_stop stops_running stops_sync : Call
  finishes : Bool → ℕ → EngineState → Call
  starts_streaming : Bool → (ℕ → VoidResult) → Call
  begins_stop ends_stop resets : Call
  checks_completion : ℕ → Bool → Call
  reaches_sink : Call

unfoldable pub state_of : Option (Control × VoidResult) → Option Control
state_of none = none
state_of (some (c, result)) = some c

-- What a step leads to, after something that may be undefined.
pub state_of-bind :
    (o : Option (Control × VoidResult)) (f : Control × VoidResult → Control × VoidResult)
    (c : Control)
    → state_of (o >>= λ d. some (f d)) ≡ some c
    → (d : Control × VoidResult) × (o ≡ some d) × ((f d).0 ≡ c)
unfolding state_of
state_of-bind none f c h = cc
state_of-bind (some d) f c h = (d, refl, cc)

unfoldable pub perform : Call → Control → Option Control
perform (initializes graph) c = some (initialize graph c).0
perform (begins setup) c = state_of (begin_execution setup c)
perform distribution_fails c = some (fail_distribution c).0
perform raises_stop c = some (raise_stop c)
perform stops_running c = some (stop_running c)
perform stops_sync c = some (stop_execution_sync_end c)
perform (finishes was_stopped active seen) c = some (finish_wait was_stopped active seen c).0
perform (starts_streaming supports setup) c = state_of (start_streaming supports setup c)
perform begins_stop c = some (stop_streaming_begin c)
perform ends_stop c = some (stop_streaming_end c)
perform resets c = some (reset_control c)
perform (checks_completion active is_complete) c =
    some (check_completion_and_notify active is_complete c)
perform reaches_sink c = some (record_sink_end_of_stream c)

abbrev pub is_initialize : Call → Bool
is_initialize (initializes graph) = true
is_initialize _ = false

-- What a new engine can become; if `careful`, `initialize` is not called while it runs.
pub data Reach (careful : Bool) : Control → Type 0 where
  new : Reach careful new_control
  call :
      (v : Call) {c c' : Control}
      → Reach careful c
      → (careful && (is_initialize v && is_running c.engine_state)) ≡ false
      → perform v c ≡ some c'
      → Reach careful c'
