-- ===== src/Engine/Control/Running.antt =====
-- What the histories of the engine of src/execution_engine_impl.cpp keep true of its nodes.
use ai_pipe.Prelude.{◌≡◌, ◌⊎◌, refl, subst, Bool, true, false, ◌&&◌, some, [], inl}
use ai_pipe.Engine.Control.{Control, new_control, is_running, teardown_nodes, initialize}
use ai_pipe.Engine.Control.Methods.{
  fail_distribution, raise_stop, stop_running, stop_execution_sync_end, finish_wait,
  stop_streaming_begin, stop_streaming_end, reset_control, check_completion_and_notify,
  record_sink_end_of_stream,
}
use ai_pipe.Engine.Control.Histories.{
  Call, initializes, begins, distribution_fails, raises_stop, stops_running, stops_sync, finishes,
  starts_streaming, begins_stop, ends_stop, resets, checks_completion, reaches_sink, perform, Reach,
  new, call, is_initialize,
}
use ai_pipe.Engine.Control.Hooks.{open_after, AllUp}
use ai_pipe.Engine.Control.Sound.{
  Sound, Aside-Sound, raise_stop-Aside, stop_running-Aside, stop_execution_sync_end-Aside,
  finish_wait-Aside, stop_streaming_begin-Aside, check_completion-Aside, record_sink-Aside,
}
use ai_pipe.Engine.Control.Begins.{
  teardown-Kept, initialize-Sound, begin_execution-Sound, start_streaming-Sound,
}

fails-Sound :
    {careful : Bool} (c : Control) → Sound careful c → Sound careful (fail_distribution c).0
unfolding fail_distribution
fails-Sound c s =
    Aside-Sound
      (record { same_graph = refl; same_nodes = refl; same_hooks = refl; ran = λ on. absurd cc }) s

ends-Sound : {careful : Bool} (c : Control) → Sound careful c → Sound careful (stop_streaming_end c)
unfolding stop_streaming_end
ends-Sound c s =
    Aside-Sound
      (record { same_graph = refl; same_nodes = refl; same_hooks = refl; ran = λ on. absurd cc }) s

resets-Sound : {careful : Bool} (c : Control) → Sound careful c → Sound careful (reset_control c)
unfolding reset_control teardown_nodes
resets-Sound c s = record {
  kept = teardown-Kept c (reset_control c) s.kept refl refl;
  running = λ sure on. absurd cc;
}

perform-Sound :
    {careful : Bool} (v : Call) (c c' : Control)
    → (careful && (is_initialize v && is_running c.engine_state)) ≡ false
    → Sound careful c
    → perform v c ≡ some c'
    → Sound careful c'
unfolding perform
perform-Sound {careful} v c c' off s h = go v off h
  where
    done : (d : Control) → Sound careful d → some d ≡ some c' → Sound careful c'
    done d t e = let same : d ≡ c' = cc in subst (Sound careful) same t

    go :
        (v : Call)
        → (careful && (is_initialize v && is_running c.engine_state)) ≡ false
        → perform v c ≡ some c'
        → Sound careful c'
    go (initializes graph) off h = done (initialize graph c).0 (initialize-Sound graph c off s) h
    go (begins setup) off h = begin_execution-Sound setup c c' s h
    go distribution_fails off h = done (fail_distribution c).0 (fails-Sound c s) h
    go raises_stop off h = done (raise_stop c) (Aside-Sound (raise_stop-Aside c) s) h
    go stops_running off h = done (stop_running c) (Aside-Sound (stop_running-Aside c) s) h
    go stops_sync off h =
        done (stop_execution_sync_end c) (Aside-Sound (stop_execution_sync_end-Aside c) s) h
    go (finishes was_stopped active seen) off h =
        done (finish_wait was_stopped active seen c).0
          (Aside-Sound (finish_wait-Aside was_stopped active seen c) s) h
    go (starts_streaming supports setup) off h = start_streaming-Sound supports setup c c' s h
    go begins_stop off h =
        done (stop_streaming_begin c) (Aside-Sound (stop_streaming_begin-Aside c) s) h
    go ends_stop off h = done (stop_streaming_end c) (ends-Sound c s) h
    go resets off h = done (reset_control c) (resets-Sound c s) h
    go (checks_completion active is_complete) off h =
        done (check_completion_and_notify active is_complete c)
          (Aside-Sound (check_completion-Aside active is_complete c) s) h
    go reaches_sink off h =
        done (record_sink_end_of_stream c) (Aside-Sound (record_sink-Aside c) s) h

Reach-Sound : {careful : Bool} {c : Control} → Reach careful c → Sound careful c
unfolding new_control open_after
Reach-Sound new = record {
  kept = record { balanced = refl; whole = inl refl };
  running = λ sure on. absurd cc;
}
Reach-Sound (call v {c} {c'} r off h) = perform-Sound v c c' off (Reach-Sound r) h

-- After any history of calls of a new engine, whatever the hooks of the nodes return or throw, every node that was
-- set up is either torn down or still set up, a node is torn down only when it is the last one that
-- was set up and is not torn down yet, and either no node is set up or all nodes of the compiled
-- graph are, in its topological order.
pub hooks_paired :
    {c : Control}
    → Reach false c
    → (open_after c.hooks ≡ some c.set_up_nodes) × ((c.set_up_nodes ≡ []) ⊎ AllUp c)
hooks_paired r = let k = (Reach-Sound r).kept in (k.balanced, k.whole)

-- After any history of calls of a new engine in which `initialize` is not called while the engine runs, all
-- nodes of the compiled graph are set up whenever the engine runs.
pub running-AllUp : {c : Control} → Reach true c → is_running c.engine_state ≡ true → AllUp c
running-AllUp r on = (Reach-Sound r).running refl on
