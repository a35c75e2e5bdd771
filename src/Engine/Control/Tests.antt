-- ===== src/Engine/Control/Tests.antt =====
-- The engine at concrete histories: a graph of two nodes, the second of which fails to set up the first time.
use ai_pipe.Prelude.{
  ℕ, zero, suc, ◌+◌, ◌≡◌, ◌⊎◌, refl, arith, Bool, true, false, Option, none, some, [], ◌∷◌, leb,
  if◌then◌else◌,
}
use ai_pipe.Errors.{error_of, no_error, is_ok, has_code}
use ai_pipe.Errors.Codes.{node_exception, error_number}
use ai_pipe.Errors.Results.{VoidResult, void_ok, void_err, void_is_ok, has_value}
use ai_pipe.Engine.Control.{
  Control, new_control, running, initialize, teardown_nodes, teardown_from, setup_nodes,
  setup_unless_done, setup_from,
}
use ai_pipe.Engine.Control.Methods.{
  begin_execution, begin_compiled, after_setup, reset_internal_state,
}
use ai_pipe.Engine.Control.Histories.{initializes, begins, perform, state_of, Reach, new, call}
use ai_pipe.Engine.Control.Hooks.{open_after, AllUp}
use ai_pipe.Engine.Control.Running.{hooks_paired, running-AllUp}
use ai_pipe.Engine.Control.Ends.{reach_sinks, reach_sinks_lem}

abbrev second_fails : ℕ → VoidResult
second_fails zero = void_ok
second_fails (suc n) = void_err (error_of node_exception "no device" "sink")

abbrev all_work : ℕ → VoidResult
all_work n = void_ok

abbrev compiled : Control
compiled = (initialize (some (has_value (0 ∷ 1 ∷ [], 1))) new_control).0

abbrev or_new : Option Control → Control
or_new none = new_control
or_new (some c) = c

abbrev failed : Control
failed = or_new (state_of (begin_execution second_fails compiled))

abbrev started : Control
started = or_new (state_of (begin_execution all_work failed))

history : (careful : Bool) → Reach careful started
unfolding new_control initialize teardown_nodes teardown_from begin_execution begin_compiled
    setup_nodes setup_unless_done setup_from after_setup reset_internal_state void_is_ok is_ok
    has_code error_number void_ok no_error void_err error_of perform state_of
history true =
    call (begins all_work)
      (call (begins second_fails)
        (call (initializes (some (has_value (0 ∷ 1 ∷ [], 1)))) new refl refl) refl refl)
      refl refl
history false =
    call (begins all_work)
      (call (begins second_fails)
        (call (initializes (some (has_value (0 ∷ 1 ∷ [], 1)))) new refl refl) refl refl)
      refl refl

hooks_paired_example :
    (open_after started.hooks ≡ some started.set_up_nodes)
    × ((started.set_up_nodes ≡ []) ⊎ AllUp started)
hooks_paired_example = hooks_paired (history false)

running-AllUp_example : AllUp started
unfolding new_control initialize teardown_nodes teardown_from begin_execution begin_compiled
    setup_nodes setup_unless_done setup_from after_setup reset_internal_state void_is_ok is_ok
    has_code error_number void_ok no_error void_err error_of perform state_of
running-AllUp_example = running-AllUp (history true) refl

abbrev two_sinks : Control
two_sinks = record new_control { sink_count = 2 }

reach_sinks_lem_example :
    ((reach_sinks 3 two_sinks).end_of_stream_reached
      ≡ leb two_sinks.sink_count (two_sinks.sinks_at_eos + 3))
    × ((reach_sinks 3 two_sinks).ends_of_stream ≡ (
        if leb two_sinks.sink_count (two_sinks.sinks_at_eos + 3)
        then suc two_sinks.ends_of_stream
        else two_sinks.ends_of_stream))
unfolding new_control
reach_sinks_lem_example = reach_sinks_lem 3 two_sinks (omega arith) refl

abbrev executing : Control
executing = record new_control { engine_state = running }
