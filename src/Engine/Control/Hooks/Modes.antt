-- ===== src/Engine/Control/Hooks/Modes.antt =====
-- The setup of the nodes of the engine of src/execution_engine_impl.cpp leaves the streaming mode as it is.
use ai_pipe.Prelude.{
  ℕ, ◌≡◌, refl, sym, ap, ◌∙◌, arith, Option, none, some, List, [], ◌∷◌, >>=-eq-some, Bool-cases,
  inl, inr,
}
use ai_pipe.Errors.Results.{VoidResult}
use ai_pipe.Engine.Control.{
  Control, set_up, is_running, teardown_nodes, setup_from, setup_unless_done, setup_nodes,
}
use ai_pipe.Engine.Control.Methods.{
  after_setup, begin_compiled, begin_execution, reset_internal_state,
}

setup_from-mode :
    (setup : ℕ → VoidResult) (order : List ℕ) (c : Control)
    → (setup_from setup order c).0.streaming_mode ≡ c.streaming_mode
unfolding setup_from teardown_nodes
setup_from-mode setup [] c = refl
setup_from-mode setup (i ∷ is) c = ground (
  arith,
  setup_from-mode setup is
      (record c { set_up_nodes = i ∷ c.set_up_nodes; hooks = set_up i ∷ c.hooks }),
)

setup_unless_done-mode :
    (setup : ℕ → VoidResult) (nodes : List ℕ) (c d : Control) (result : VoidResult)
    → setup_unless_done setup nodes c ≡ some (d, result)
    → d.streaming_mode ≡ c.streaming_mode
unfolding setup_unless_done
setup_unless_done-mode setup (i ∷ is) c d result h =
    let same : c ≡ d = cc in ap (λ e. e.streaming_mode) (sym same)
setup_unless_done-mode setup [] c d result h =
    let (order, there, ends) =
      >>=-eq-some c.compiled_graph (λ order. some (setup_from setup order c)) h in
    let same : (setup_from setup order c).0 ≡ d = cc in
    ap (λ e. e.streaming_mode) (sym same) ∙ setup_from-mode setup order c

after_setup-mode :
    (d : Control × VoidResult) → (after_setup d).0.streaming_mode ≡ d.0.streaming_mode
unfolding after_setup reset_internal_state
after_setup-mode (c, result) = ground arith

begin_compiled-mode :
    (setup : ℕ → VoidResult) (graph : Option (List ℕ)) (c d : Control) (result : VoidResult)
    → begin_compiled setup graph c ≡ some (d, result)
    → d.streaming_mode ≡ c.streaming_mode
unfolding begin_compiled setup_nodes
begin_compiled-mode setup none c d result h =
    let same : c ≡ d = cc in ap (λ e. e.streaming_mode) (sym same)
begin_compiled-mode setup (some order) c d result h =
    let ((e, r), done, ends) =
      >>=-eq-some (setup_nodes setup c) (λ done. some (after_setup done)) h in
    let same : (after_setup (e, r)).0 ≡ d = cc in
    ap (λ e. e.streaming_mode) (sym same)
    ∙ after_setup-mode (e, r)
    ∙ setup_unless_done-mode setup c.set_up_nodes c e r done

-- `execute` does not change whether the engine streams.
pub begin_execution-mode :
    (setup : ℕ → VoidResult) (c d : Control) (result : VoidResult)
    → begin_execution setup c ≡ some (d, result)
    → d.streaming_mode ≡ c.streaming_mode
unfolding begin_execution
begin_execution-mode setup c d result h = elim (Bool-cases (is_running c.engine_state)) [
  | inl on ↦ let same : c ≡ d = ground (arith, h, on) in ap (λ e. e.streaming_mode) (sym same)
  | inr off ↦
      let h' : begin_compiled setup c.compiled_graph c ≡ some (d, result) =
        ground (arith, h, off) in
      begin_compiled-mode setup c.compiled_graph c d result h'
]
