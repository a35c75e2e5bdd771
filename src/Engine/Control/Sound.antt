-- ===== src/Engine/Control/Sound.antt =====
-- What each method of the engine of src/execution_engine_impl.cpp keeps true of the hooks of its nodes.
use ai_pipe.Prelude.{ℕ, ◌≡◌, refl, sym, ap, ◌∙◌, arith, Bool, true, some, inl, inr}
use ai_pipe.Engine.Control.{Control, EngineState, is_running}
use ai_pipe.Engine.Control.Methods.{
  raise_stop, stop_running, stop_execution_sync_end, finish_wait, stop_streaming_begin,
  check_completion_and_notify, record_sink_end_of_stream,
}
use ai_pipe.Engine.Control.Hooks.{open_after, AllUp, Kept}

pub record Sound (careful : Bool) (c : Control) : Type 0 where
  pub kept : Kept c
  pub running : careful ≡ true → is_running c.engine_state ≡ true → AllUp c

-- The nodes are left alone, and the engine does not begin to run.
pub record Aside (c c' : Control) : Type 0 where
  pub same_graph : c.compiled_graph ≡ c'.compiled_graph
  pub same_nodes : c.set_up_nodes ≡ c'.set_up_nodes
  pub same_hooks : c.hooks ≡ c'.hooks
  pub ran : is_running c'.engine_state ≡ true → is_running c.engine_state ≡ true

AllUp-Aside : {c c' : Control} → Aside c c' → AllUp c → AllUp c'
AllUp-Aside a (order, there, all) = (order, sym a.same_graph ∙ there, sym a.same_nodes ∙ all)

pub Aside-Sound :
    {careful : Bool} {c c' : Control} → Aside c c' → Sound careful c → Sound careful c'
Aside-Sound {careful} {c} {c'} a s = record {
  kept = record {
    balanced = ap open_after (sym a.same_hooks) ∙ s.kept.balanced ∙ ap some a.same_nodes;
    whole = elim s.kept.whole [
      | inl none_up ↦ inl (sym a.same_nodes ∙ none_up)
      | inr up ↦ inr (AllUp-Aside a up)
    ];
  };
  running = λ sure on. AllUp-Aside a (s.running sure (a.ran on));
}

pub raise_stop-Aside : (c : Control) → Aside c (raise_stop c)
unfolding raise_stop
raise_stop-Aside c = record {
  same_graph = refl;
  same_nodes = refl;
  same_hooks = refl;
  ran = λ on. on;
}

pub stop_running-Aside : (c : Control) → Aside c (stop_running c)
unfolding stop_running
stop_running-Aside c = record {
  same_graph = ground arith;
  same_nodes = ground arith;
  same_hooks = ground arith;
  ran = λ on. ground (arith, on);
}

pub stop_execution_sync_end-Aside : (c : Control) → Aside c (stop_execution_sync_end c)
unfolding stop_execution_sync_end
stop_execution_sync_end-Aside c = record {
  same_graph = ground arith;
  same_nodes = ground arith;
  same_hooks = ground arith;
  ran = λ on. ground (arith, on);
}

pub finish_wait-Aside :
    (was_stopped : Bool) (active : ℕ) (seen : EngineState) (c : Control)
    → Aside c ((finish_wait was_stopped active seen c).0)
unfolding finish_wait
finish_wait-Aside was_stopped active seen c = record {
  same_graph = ground arith;
  same_nodes = ground arith;
  same_hooks = ground arith;
  ran = λ on. ground (arith, on);
}

pub stop_streaming_begin-Aside : (c : Control) → Aside c (stop_streaming_begin c)
unfolding stop_streaming_begin
stop_streaming_begin-Aside c = record {
  same_graph = ground arith;
  same_nodes = ground arith;
  same_hooks = ground arith;
  ran = λ on. ground (arith, on);
}

pub check_completion-Aside :
    (active : ℕ) (is_complete : Bool) (c : Control)
    → Aside c (check_completion_and_notify active is_complete c)
unfolding check_completion_and_notify
check_completion-Aside active is_complete c = record {
  same_graph = ground arith;
  same_nodes = ground arith;
  same_hooks = ground arith;
  ran = λ on. ground (arith, on);
}

pub record_sink-Aside : (c : Control) → Aside c (record_sink_end_of_stream c)
unfolding record_sink_end_of_stream
record_sink-Aside c = record {
  same_graph = ground arith;
  same_nodes = ground arith;
  same_hooks = ground arith;
  ran = λ on. ground (arith, on);
}
