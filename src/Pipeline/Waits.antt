-- ===== src/Pipeline/Waits.antt =====
-- The waits of src/pipeline_impl.cpp for its engine leave the facade idle only with an engine that is.
use ai_pipe.Prelude.{
  ℕ, ◌≡◌, refl, sym, ap, subst, ◌∙◌, arith, true, false, Option, none, some, List, Bool, Bool-cases,
  inl, inr, if◌then◌else◌,
}
use ai_pipe.Errors.{is_ok, has_code, error_of}
use ai_pipe.Errors.Codes.{error_number}
use ai_pipe.Errors.Results.{VoidResult, void_ok, void_err, void_is_ok}
use ai_pipe.Engine.Control.{Control, EngineState}
use ai_pipe.Engine.Control.Methods.{finish_wait, time_out, raise_stop, stop_running}
use ai_pipe.Pipeline.{
  Pipeline, Event, engine_streams, occur_all, set_engine, with_engine, on_engine,
}
use ai_pipe.Pipeline.Methods.{
  Wait, timed_out, reached, put_engine, wait_at, wait_engine, wait_for_completion, finish_at,
  stop_at, stop_async,
}
use ai_pipe.Pipeline.Threads.{engine_quiet, IdleEngine, stop_running-quiet}
use ai_pipe.Pipeline.Events.{occur_all-IdleEngine, happen_all-streams}

set_engine-IdleEngine :
    (f : Control → Control) (e : Option Control) (p : Pipeline)
    → e ≡ p.engine
    → ((c : Control) → engine_quiet (some c) ≡ true → engine_quiet (some (f c)) ≡ true)
    → IdleEngine p
    → IdleEngine (with_engine f e p)
unfolding with_engine set_engine
set_engine-IdleEngine f none p same keeps h = h
set_engine-IdleEngine f (some c) p same keeps h =
    λ rested. keeps c (ap engine_quiet same ∙ h rested)

stop_at-IdleEngine :
    (between : List Event) (e : Option Control) (p : Pipeline)
    → e ≡ p.engine
    → IdleEngine p
    → IdleEngine (stop_at between e p)
unfolding stop_at raise_stop set_engine on_engine
stop_at-IdleEngine between none p same h = h
stop_at-IdleEngine between (some c) p same h = elim (Bool-cases c.stop_flag) [
  | inl set_before ↦ rw set_before h
  | inr first ↦
      let raised = set_engine (raise_stop c) p in
      let q = occur_all between raised in
      rw first (
        set_engine-IdleEngine stop_running q.engine q refl stop_running-quiet
          (occur_all-IdleEngine between raised (λ rested. ap engine_quiet same ∙ h rested)))
]

pub stop_async-IdleEngine :
    (between : List Event) (p : Pipeline) → IdleEngine p → IdleEngine (stop_async between p)
unfolding stop_async
stop_async-IdleEngine between p h = stop_at-IdleEngine between p.engine p refl h

finish_wait-quiet :
    (was_stopped : Bool) (active : ℕ) (seen : EngineState) (c : Control)
    → c.streaming_mode ≡ false
    → void_is_ok (finish_wait was_stopped active seen c).1 ≡ true
    → engine_quiet (some (finish_wait was_stopped active seen c).0) ≡ true
unfolding finish_wait void_is_ok is_ok has_code error_number void_err error_of
finish_wait-quiet was_stopped active seen c still h = ground (arith, still, h)

finish_wait-keeps :
    (was_stopped : Bool) (active : ℕ) (seen : EngineState) (c : Control)
    → engine_quiet (some c) ≡ true
    → engine_quiet (some (finish_wait was_stopped active seen c).0) ≡ true
unfolding finish_wait
finish_wait-keeps was_stopped active seen c quiet = ground (arith, quiet)

-- What the end of a wait keeps, and that the engine is idle when it ends well.
abbrev pub Waited : Pipeline × VoidResult → Type 0
Waited d = IdleEngine d.0 × (void_is_ok d.1 ≡ true → engine_quiet d.0.engine ≡ true)

finish_at-Waited :
    (was_stopped : Bool) (active : ℕ) (seen : EngineState) (e : Option Control) (p : Pipeline)
    → e ≡ p.engine
    → engine_streams e ≡ false
    → IdleEngine p
    → Waited (finish_at was_stopped active seen e p)
unfolding finish_at put_engine set_engine
finish_at-Waited was_stopped active seen none p same still h =
    (h, λ fine. ap engine_quiet (sym same))
finish_at-Waited was_stopped active seen (some c) p same still h = (
  λ rested. finish_wait-keeps was_stopped active seen c (ap engine_quiet same ∙ h rested),
  finish_wait-quiet was_stopped active seen c still,
)

wait_for_completion-Waited :
    (w : Wait) (c : Control) (p : Pipeline)
    → some c ≡ p.engine
    → c.streaming_mode ≡ false
    → IdleEngine p
    → Waited (wait_for_completion w c p)
unfolding wait_for_completion time_out void_is_ok is_ok has_code error_number void_err error_of
wait_for_completion-Waited (timed_out ms between) c p same still h =
    (stop_async-IdleEngine between p h, λ fine. absurd cc)
wait_for_completion-Waited (reached active between) c p same still h =
    let q = occur_all between p in
    finish_at-Waited c.stop_flag active c.engine_state q.engine q refl
      (happen_all-streams between p ∙ sym (ap engine_streams same) ∙ still)
      (occur_all-IdleEngine between p h)

wait_at-Waited :
    (w : Wait) (e : Option Control) (p : Pipeline)
    → e ≡ p.engine
    → engine_streams e ≡ false
    → IdleEngine p
    → Waited (wait_at w e p)
unfolding wait_at
wait_at-Waited w none p same still h = (h, λ fine. ap engine_quiet (sym same))
wait_at-Waited w (some c) p same still h =
    subst (λ b. Waited (if b then (p, void_ok) else wait_for_completion w c p)) (sym still)
      (wait_for_completion-Waited w c p same still h)

pub wait_engine-Waited :
    (meanwhile : List Event) (w : Wait) (p : Pipeline) (result : VoidResult)
    → engine_streams p.engine ≡ false
    → IdleEngine p
    → Waited (wait_engine meanwhile w (p, result))
unfolding wait_engine
wait_engine-Waited meanwhile w p result still h =
    let q = occur_all meanwhile p in
    let still' : engine_streams q.engine ≡ false = happen_all-streams meanwhile p ∙ still in
    elim (Bool-cases (void_is_ok result)) [
      | inl begun ↦
          rw begun (wait_at-Waited w q.engine q refl still' (occur_all-IdleEngine meanwhile p h))
      | inr refused ↦ rw refused (h, λ fine. absurd cc)
    ]
