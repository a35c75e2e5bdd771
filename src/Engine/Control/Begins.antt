-- ===== src/Engine/Control/Begins.antt =====
-- What the calls that begin an execution or a stream of the engine of src/execution_engine_impl.cpp keep true of the
-- hooks of its nodes.
use ai_pipe.Prelude.{
  ℕ, ◌≡◌, refl, sym, ap, subst, ◌∙◌, arith, Bool, true, false, ◌&&◌, Option, none, some, List, [],
  ◌>>=◌, Bool-cases, inl, inr,
}
use ai_pipe.Errors.Results.{Result, VoidResult, has_value, has_error, void_is_ok}
use ai_pipe.Engine.Control.{
  EngineState, idle, running, stopped, error, Control, is_running, is_idle, teardown_from,
  teardown_nodes, setup_nodes, initialize,
}
use ai_pipe.Engine.Control.Methods.{
  after_setup, begin_compiled, begin_execution, reset_internal_state, after_stream_setup,
  start_streaming,
}
use ai_pipe.Engine.Control.Histories.{state_of, state_of-bind}
use ai_pipe.Engine.Control.Hooks.{
  open_after, Kept, teardown_from-open_after, SetUp, setup_nodes-SetUp,
}
use ai_pipe.Engine.Control.Sound.{Sound}

pub teardown-Kept :
    (c d : Control)
    → Kept c
    → d.hooks ≡ teardown_from c.set_up_nodes c.hooks
    → d.set_up_nodes ≡ []
    → Kept d
teardown-Kept c d k hooks nodes = record {
  balanced =
      ap open_after hooks
      ∙ teardown_from-open_after c.set_up_nodes c.hooks k.balanced
      ∙ ap some (sym nodes);
  whole = inl nodes;
}

pub initialize-Sound :
    {careful : Bool} (graph : Option (Result (List ℕ × ℕ))) (c : Control)
    → (careful && is_running c.engine_state) ≡ false
    → Sound careful c
    → Sound careful (initialize graph c).0
unfolding initialize teardown_nodes
initialize-Sound none c off s = s
initialize-Sound (some (has_error e)) c off s = record {
  kept = teardown-Kept c (initialize (some (has_error e)) c).0 s.kept refl refl;
  running = λ sure on. absurd (ground (arith, off, sure, on));
}
initialize-Sound (some (has_value (order, sinks))) c off s = record {
  kept = teardown-Kept c (initialize (some (has_value (order, sinks))) c).0 s.kept refl refl;
  running = λ sure on. absurd cc;
}

after_setup-Sound :
    {careful : Bool} (c c' : Control) (result : VoidResult)
    → SetUp c c' result
    → Sound careful (after_setup (c', result)).0
unfolding after_setup reset_internal_state
after_setup-Sound c c' result s = elim (Bool-cases (void_is_ok result)) [
  | inl fine ↦
      let d = s.all_up fine in
      let k = s.kept in
      rw fine (record {
        kept = record { balanced = k.balanced; whole = k.whole };
        running = λ sure on. d;
      })
  | inr wrong ↦
      let k = s.kept in
      rw wrong (record {
        kept = record { balanced = k.balanced; whole = k.whole };
        running = λ sure on. absurd cc;
      })
]

after_stream_setup-Sound :
    {careful : Bool} (c c' : Control) (result : VoidResult)
    → is_running c.engine_state ≡ false
    → SetUp c c' result
    → Sound careful (after_stream_setup (c', result)).0
unfolding after_stream_setup
after_stream_setup-Sound c c' result off s = elim (Bool-cases (void_is_ok result)) [
  | inl fine ↦
      let d = s.all_up fine in
      let k = s.kept in
      rw fine (record {
        kept = record { balanced = k.balanced; whole = k.whole };
        running = λ sure on. d;
      })
  | inr wrong ↦
      rw wrong
        (record { kept = s.kept; running = λ sure on. absurd (cc (ap is_running s.same_state)) })
]

begin_compiled-Sound :
    {careful : Bool} (setup : ℕ → VoidResult) (graph : Option (List ℕ)) (c c' : Control)
    → Sound careful c
    → state_of (begin_compiled setup graph c) ≡ some c'
    → Sound careful c'
unfolding begin_compiled state_of
begin_compiled-Sound {careful} setup none c c' s h =
    let same : c ≡ c' = cc in subst (Sound careful) same s
begin_compiled-Sound {careful} setup (some order) c c' s h =
    let ((d, result), done, same) = state_of-bind (setup_nodes setup c) after_setup c' h in
    subst (Sound careful) same
      (after_setup-Sound c d result (setup_nodes-SetUp setup c d result s.kept done))

pub begin_execution-Sound :
    {careful : Bool} (setup : ℕ → VoidResult) (c c' : Control)
    → Sound careful c
    → state_of (begin_execution setup c) ≡ some c'
    → Sound careful c'
unfolding begin_execution state_of
begin_execution-Sound {careful} setup c c' s h = elim (Bool-cases (is_running c.engine_state)) [
  | inl on ↦ let same : c ≡ c' = ground (arith, h, on) in subst (Sound careful) same s
  | inr off ↦
      let h' : state_of (begin_compiled setup c.compiled_graph c) ≡ some c' =
        ground (arith, h, off) in
      begin_compiled-Sound setup c.compiled_graph c c' s h'
]

stream_setup-Sound :
    {careful : Bool} (setup : ℕ → VoidResult) (c c' : Control)
    → is_running c.engine_state ≡ false
    → Sound careful c
    → state_of (do done ← setup_nodes setup c; some (after_stream_setup done)) ≡ some c'
    → Sound careful c'
stream_setup-Sound {careful} setup c c' off s h =
    let ((d, result), done, same) = state_of-bind (setup_nodes setup c) after_stream_setup c' h in
    subst (Sound careful) same
      (after_stream_setup-Sound c d result off (setup_nodes-SetUp setup c d result s.kept done))

idle-not-running : (e : EngineState) → is_idle e ≡ true → is_running e ≡ false
idle-not-running idle h = refl
idle-not-running running h = cc
idle-not-running stopped h = cc
idle-not-running error h = cc

pub start_streaming-Sound :
    {careful : Bool} (supports : Bool) (setup : ℕ → VoidResult) (c c' : Control)
    → Sound careful c
    → state_of (start_streaming supports setup c) ≡ some c'
    → Sound careful c'
unfolding start_streaming state_of
start_streaming-Sound {careful} supports setup c c' s h =
    elim (Bool-cases (is_idle c.engine_state && supports)) [
      | inl ready ↦
          let h' : state_of (do done ← setup_nodes setup c; some (after_stream_setup done))
              ≡ some c' =
            ground (arith, h, ready) in
          stream_setup-Sound setup c c' (idle-not-running c.engine_state (ground (arith, ready))) s
            h'
      | inr unready ↦ let same : c ≡ c' = ground (arith, h, unready) in subst (Sound careful) same s
    ]
