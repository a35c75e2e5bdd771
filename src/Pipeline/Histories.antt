-- ===== src/Pipeline/Histories.antt =====
-- Histories of the facade of src/pipeline_impl.cpp: calls that do not overlap.
use Prim.Native.String.{String}
use ai_pipe.Prelude.{ℕ, ◌≡◌, Bool, true, false, ◌&&◌, Option, none, some, List}
use ai_pipe.Errors.Results.{Result, VoidResult}
use ai_pipe.Pipeline.{Pipeline, new_pipeline, ExecutionMode, Event, occur_all}
use ai_pipe.Pipeline.Threads.{any_late}
use ai_pipe.Pipeline.Methods.{
  Work, Wait, initialize_pipeline, run, submit, run_async, start, stop, cancel, reset,
}

-- A call of the facade, with what the engine finds and what happens meanwhile.
pub data Action : Type 0 where
  initializes : Bool → ExecutionMode → Result (List ℕ × ℕ) → Action
  runs_batch : Work → List Event → Wait → String → Action
  submits : Work → Action
  runs_async : Work → Action
  starts : Bool → (ℕ → VoidResult) → Action
  stops cancels resets happens : List Event → Action

unfoldable pub facade_of {ℓ} : {A : Type ℓ} → Option (Pipeline × A) → Option Pipeline
facade_of none = none
facade_of (some (p, a)) = some p

unfoldable pub take_action : Action → Pipeline → Option Pipeline
take_action (initializes has_cycle mode compiled) p =
    some (initialize_pipeline has_cycle mode compiled p).0
take_action (runs_batch work meanwhile w ms) p = facade_of (run work meanwhile w ms p)
take_action (submits work) p = facade_of (submit work p)
take_action (runs_async work) p = facade_of (run_async work p)
take_action (starts supports setup) p = facade_of (start supports setup p)
take_action (stops meanwhile) p = some (stop meanwhile p)
take_action (cancels meanwhile) p = some (cancel meanwhile p)
take_action (resets meanwhile) p = some (reset meanwhile p)
take_action (happens events) p = some (occur_all events p)

abbrev pub begins : Action → Bool
begins (runs_batch work meanwhile w ms) = true
begins (submits work) = true
begins (runs_async work) = true
begins (starts supports setup) = true
begins _ = false

-- What a new facade can become, where no execution or stream begins while a callback for results is on its way.
pub data Reach : Pipeline → Type 0 where
  new : Reach new_pipeline
  action :
      (v : Action) {p q : Pipeline}
      → Reach p
      → (begins v && any_late p.threads) ≡ false
      → take_action v p ≡ some q
      → Reach q
