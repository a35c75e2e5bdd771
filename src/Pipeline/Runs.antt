-- ===== src/Pipeline/Runs.antt =====
-- `run` of src/pipeline_impl.cpp leaves the facade idle only with an engine that is.
use Prim.Native.String.{String}
use ai_pipe.Prelude.{
  ◌≡◌, refl, sym, ap, subst, ◌∙◌, arith, true, false, Option, none, some, List, Bool-cases, ◌||◌,
  inl, inr, ◌>>=◌, >>=-eq-some,
}
use ai_pipe.Errors.{is_ok, has_code, error_of}
use ai_pipe.Errors.Codes.{error_number}
use ai_pipe.Errors.Results.{VoidResult, void_err, void_is_ok}
use ai_pipe.Engine.Control.{Control}
use ai_pipe.Engine.Control.Methods.{begin_execution, fail_distribution}
use ai_pipe.Pipeline.{Pipeline, Event, is_idle, engine_streams, validate_state, notify, set_engine}
use ai_pipe.Pipeline.Methods.{
  Work, Wait, put_engine, ask_engine, execute, distribute, claim, wait_engine, run_end, run,
}
use ai_pipe.Engine.Control.Hooks.Modes.{begin_execution-mode}
use ai_pipe.Pipeline.Threads.{engine_quiet, any_late, may_rest, IdleEngine}
use ai_pipe.Pipeline.Histories.{facade_of}
use ai_pipe.Pipeline.Waits.{Waited, wait_engine-Waited}

-- What an answer of the engine makes of the facade.
pub record Asked (call : Control → Option (Control × VoidResult)) (p q : Pipeline)
    (result : VoidResult) : Type 0 where
  pub before : Control
  pub after : Control
  pub asked : p.engine ≡ some before
  pub answered : call before ≡ some (after, result)
  pub given : set_engine after p ≡ q

pub ask_engine-Asked :
    (call : Control → Option (Control × VoidResult)) (p q : Pipeline) (result : VoidResult)
    → ask_engine call p ≡ some (q, result)
    → Asked call p q result
unfolding ask_engine put_engine
ask_engine-Asked call p q result h =
    let (c, asked, more) =
      >>=-eq-some p.engine (λ c. call c >>= λ answer. some (put_engine p answer)) h in
    let ((d, r), answered, ends) =
      >>=-eq-some (call c) (λ answer. some (put_engine p answer)) more in
    let same : set_engine d p ≡ q = cc in
    let same_result : r ≡ result = cc in
    record {
      before = c;
      after = d;
      asked = asked;
      answered = answered ∙ ap (λ r. some (d, r)) same_result;
      given = same;
    }

pub valid-idle :
    (operation : String) (p : Pipeline)
    → void_is_ok (validate_state operation p) ≡ true
    → is_idle p.state ≡ true
unfolding validate_state void_is_ok is_ok has_code error_number void_err error_of
valid-idle operation p h = ground (arith, h)

distribute-mode :
    (w : Work) (d : Control × VoidResult) → (distribute w d).0.streaming_mode ≡ d.0.streaming_mode
unfolding distribute fail_distribution
distribute-mode w (c, result) = ground arith

execute-mode :
    (w : Work) (c d : Control) (result : VoidResult)
    → execute w c ≡ some (d, result)
    → d.streaming_mode ≡ c.streaming_mode
unfolding execute
execute-mode w c d result h = elim (Bool-cases c.streaming_mode) [
  | inl streams ↦
      let same : c ≡ d = ground (arith, h, streams) in ap (λ e. e.streaming_mode) (sym same)
  | inr batch ↦
      let h' : (begin_execution w.setup c >>= λ begun. some (distribute w begun))
          ≡ some (d, result) =
        ground (arith, h, batch) in
      let ((e, r), begun, ends) =
        >>=-eq-some (begin_execution w.setup c) (λ begun. some (distribute w begun)) h' in
      let same : (distribute w (e, r)).0 ≡ d = cc in
      ap (λ e. e.streaming_mode) (sym same)
      ∙ distribute-mode w (e, r)
      ∙ begin_execution-mode w.setup c e r begun
]

run_end-IdleEngine :
    (ms : String) (d : Pipeline × VoidResult) → Waited d → IdleEngine (run_end ms d).0
unfolding run_end
run_end-IdleEngine ms (p, result) (kept, quiet) rested = elim (Bool-cases (void_is_ok result)) [
  | inl fine ↦ ground (arith, quiet fine, fine)
  | inr wrong ↦
      let before : may_rest p ≡ true = ground (arith, rested, wrong) in
      ground (arith, kept before, wrong)
]

pub facade_of-bind {ℓ κ} :
    {A : Type ℓ} {B : Type κ} (o : Option A) (f : A → Pipeline × B) (q : Pipeline)
    → facade_of (o >>= λ a. some (f a)) ≡ some q
    → (a : A) × (o ≡ some a) × ((f a).0 ≡ q)
unfolding facade_of
facade_of-bind none f q h = cc
facade_of-bind (some a) f q h = (a, refl, cc)

-- An engine that was asked by an idle facade to execute does not stream.
asked-still :
    (work : Work) (p q r : Pipeline) (result : VoidResult)
    → IdleEngine p
    → is_idle p.state ≡ true
    → q.engine ≡ p.engine
    → ask_engine (execute work) q ≡ some (r, result)
    → engine_streams r.engine ≡ false
unfolding set_engine
asked-still work p q r result h rests same asking =
    let a = ask_engine-Asked (execute work) q r result asking in
    let there : p.engine ≡ some a.before = sym same ∙ a.asked in
    let quiet : engine_quiet (some a.before) ≡ true =
      sym (ap engine_quiet there) ∙ h (ap (λ b. b || any_late p.threads) rests) in
    let still : a.before.streaming_mode ≡ false = ground (arith, quiet) in
    ap (λ s. engine_streams s.engine) (sym a.given)
    ∙ execute-mode work a.before a.after result a.answered
    ∙ still

-- A facade that has claimed an execution while no callback is on its way is busy.
pub asked-busy :
    (call : Control → Option (Control × VoidResult)) (p q : Pipeline) (result : VoidResult)
    → may_rest p ≡ false
    → ask_engine call p ≡ some (q, result)
    → may_rest q ≡ false
unfolding set_engine
asked-busy call p q result claimed asking =
    let a = ask_engine-Asked call p q result asking in ap may_rest (sym a.given) ∙ claimed

pub busy-IdleEngine : (p : Pipeline) → may_rest p ≡ false → IdleEngine p
busy-IdleEngine p busy = λ rested. absurd cc

pub run-IdleEngine :
    (work : Work) (meanwhile : List Event) (w : Wait) (ms : String) (p q : Pipeline)
    → IdleEngine p
    → any_late p.threads ≡ false
    → facade_of (run work meanwhile w ms p) ≡ some q
    → IdleEngine q
unfolding run claim notify facade_of
run-IdleEngine work meanwhile w ms p q h early runs_to =
    elim (Bool-cases (void_is_ok (validate_state "run" p))) [
      | inl valid ↦
          let asking = ask_engine (execute work) (claim p) in
          let h' : facade_of (asking >>= λ begun. some (run_end ms (wait_engine meanwhile w begun)))
              ≡ some q =
            ground (arith, runs_to, valid) in
          let ((r, result), answered, same) =
            facade_of-bind asking (λ begun. run_end ms (wait_engine meanwhile w begun)) q h' in
          let still =
            asked-still work p (claim p) r result h (valid-idle "run" p valid) refl answered in
          let busy = asked-busy (execute work) (claim p) r result early answered in
          subst IdleEngine same (
            run_end-IdleEngine ms (wait_engine meanwhile w (r, result))
              (wait_engine-Waited meanwhile w r result still (busy-IdleEngine r busy)))
      | inr invalid ↦ let same : p ≡ q = ground (arith, runs_to, invalid) in subst IdleEngine same h
    ]
