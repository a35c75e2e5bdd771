-- ===== src/Pipeline/Threads.antt =====
-- What a step of a thread of the engine makes of the facade of src/pipeline_impl.cpp.
use Prim.Native.String.{String}
use ai_pipe.Prelude.{
  ℕ, zero, suc, ◌≡◌, refl, sym, ap, ◌∙◌, arith, Bool, true, false, not, ◌&&◌, ◌||◌, Option, none,
  some, List, [], ◌∷◌,
}
use ai_pipe.Engine.Control.{Control, is_running as runs}
use ai_pipe.Engine.Control.Methods.{stop_running}
use ai_pipe.Pool.{pick_out, put_back}
use ai_pipe.Pipeline.{
  Pipeline, Handlers, resident, unregistered, one_shot, Thread, reports, calls_result, calls_error,
  rests, completes, fails, lands_stop, start_thread, is_idle, engine_streams, notify,
  resident_result, store_idle, resident_error, one_shot_result, one_shot_error, complete_promise,
  fail_promise, on_result, on_error, proceed, with_engine, on_engine, set_engine, PortDataMap,
  is_there,
}

-- The engine neither runs nor streams.
abbrev pub engine_quiet : Option Control → Bool
engine_quiet none = true
engine_quiet (some c) = not c.streaming_mode && not (runs c.engine_state)

-- A thread on its way to or in a callback for results: it may still make the facade idle.
abbrev pub is_late : Thread → Bool
is_late (reports results) = true
is_late (calls_result h results) = true
is_late (calls_error h message node) = false
is_late (rests results) = true
is_late (completes k results) = true
is_late (fails k e) = false
is_late lands_stop = false

abbrev pub any_late : List Thread → Bool
any_late [] = false
any_late (t ∷ ts) = is_late t || any_late ts

abbrev pub may_rest : Pipeline → Bool
may_rest p = is_idle p.state || any_late p.threads

-- The facade says that it is idle, or may still be made idle, only if its engine is.
abbrev pub IdleEngine : Pipeline → Type 0
IdleEngine p = may_rest p ≡ true → engine_quiet p.engine ≡ true

pub put_back-some {ℓ} :
    {A : Type ℓ} (y : A) (o : Option (A × List A)) (x : A) (rest : List A)
    → put_back y o ≡ some (x, rest)
    → (zs : List A) × (o ≡ some (x, zs)) × (y ∷ zs ≡ rest)
unfolding put_back
put_back-some y none x rest h = cc
put_back-some y (some (z, zs)) x rest h = (zs, cc, cc)

pub any_late-pick_out :
    (k : ℕ) (ts : List Thread) (t : Thread) (others : List Thread)
    → pick_out k ts ≡ some (t, others)
    → any_late ts ≡ (is_late t || any_late others)
unfolding pick_out
any_late-pick_out k [] t others h = cc
any_late-pick_out zero (x ∷ xs) t others h =
    let same : x ≡ t = cc in
    let same_rest : xs ≡ others = cc in
    ap (λ y. is_late y || any_late xs) same ∙ ap (λ ys. is_late t || any_late ys) same_rest
any_late-pick_out (suc k) (x ∷ xs) t others h =
    let (zs, out, same) = put_back-some x (pick_out k xs) t others h in
    let late = any_late-pick_out k xs t zs out in ground (arith, late, ap any_late same)

-- What a step of a thread makes of the engine.
abbrev pub engine_after : Thread → Option Control → Option Control
engine_after lands_stop (some c) = some (stop_running c)
engine_after lands_stop none = none
engine_after (reports results) e = e
engine_after (calls_result h results) e = e
engine_after (calls_error h message node) e = e
engine_after (rests results) e = e
engine_after (completes k results) e = e
engine_after (fails k x) e = e

with_engine-after :
    (e : Option Control) (p : Pipeline)
    → e ≡ p.engine
    → (with_engine stop_running e p).engine ≡ engine_after lands_stop e
unfolding with_engine set_engine
with_engine-after none p same = sym same
with_engine-after (some c) p same = refl

on_result-engine :
    (h : Handlers) (results : PortDataMap) (p : Pipeline)
    → (on_result h results p).engine ≡ p.engine
unfolding on_result resident_result one_shot_result notify start_thread
on_result-engine unregistered results p = refl
on_result-engine resident results p = ground arith
on_result-engine (one_shot k) results p = ground arith

on_error-engine :
    (h : Handlers) (message node : String) (p : Pipeline)
    → (on_error h message node p).engine ≡ p.engine
unfolding on_error resident_error one_shot_error notify start_thread
on_error-engine unregistered message node p = refl
on_error-engine resident message node p = refl
on_error-engine (one_shot k) message node p = ground arith

pub proceed-engine : (t : Thread) (p : Pipeline) → (proceed t p).engine ≡ engine_after t p.engine
unfolding proceed store_idle complete_promise fail_promise notify start_thread on_engine
proceed-engine (reports results) p = refl
proceed-engine (calls_result h results) p = on_result-engine h results p
proceed-engine (calls_error h message node) p = on_error-engine h message node p
proceed-engine (rests results) p = refl
proceed-engine (completes k results) p = refl
proceed-engine (fails k e) p = refl
proceed-engine lands_stop p = with_engine-after p.engine p refl

-- What a step of a thread and an exchange of the stop flag keep of the engine.
pub stop_running-quiet :
    (c : Control) → engine_quiet (some c) ≡ true → engine_quiet (some (stop_running c)) ≡ true
unfolding stop_running
stop_running-quiet c h = ground (arith, h)

pub engine_after-quiet :
    (t : Thread) (e : Option Control)
    → engine_quiet e ≡ true
    → engine_quiet (engine_after t e) ≡ true
engine_after-quiet lands_stop none h = refl
engine_after-quiet lands_stop (some c) h = stop_running-quiet c h
engine_after-quiet (reports results) e h = h
engine_after-quiet (calls_result r results) e h = h
engine_after-quiet (calls_error r message node) e h = h
engine_after-quiet (rests results) e h = h
engine_after-quiet (completes k results) e h = h
engine_after-quiet (fails k x) e h = h

pub engine_after-streams :
    (t : Thread) (e : Option Control) → engine_streams (engine_after t e) ≡ engine_streams e
unfolding stop_running
engine_after-streams lands_stop none = refl
engine_after-streams lands_stop (some c) = refl
engine_after-streams (reports results) e = refl
engine_after-streams (calls_result r results) e = refl
engine_after-streams (calls_error r message node) e = refl
engine_after-streams (rests results) e = refl
engine_after-streams (completes k results) e = refl
engine_after-streams (fails k x) e = refl

pub engine_after-there :
    (t : Thread) (e : Option Control) → is_there (engine_after t e) ≡ is_there e
engine_after-there lands_stop none = refl
engine_after-there lands_stop (some c) = refl
engine_after-there (reports results) e = refl
engine_after-there (calls_result r results) e = refl
engine_after-there (calls_error r message node) e = refl
engine_after-there (rests results) e = refl
engine_after-there (completes k results) e = refl
engine_after-there (fails k x) e = refl

on_error-rests :
    (h : Handlers) (message node : String) (p : Pipeline)
    → may_rest (on_error h message node p) ≡ true
    → may_rest p ≡ true
unfolding on_error resident_error one_shot_error notify start_thread
on_error-rests unregistered message node p rested = rested
on_error-rests resident message node p rested = ground (arith, rested)
on_error-rests (one_shot k) message node p rested = ground (arith, rested)

with_engine-rests :
    (f : Control → Control) (e : Option Control) (p : Pipeline)
    → may_rest (with_engine f e p) ≡ true
    → may_rest p ≡ true
unfolding with_engine set_engine
with_engine-rests f none p rested = rested
with_engine-rests f (some c) p rested = rested

pub proceed-rests :
    (t : Thread) (p : Pipeline) → may_rest (proceed t p) ≡ true → (is_late t || may_rest p) ≡ true
unfolding proceed fail_promise notify on_engine
proceed-rests (reports results) p rested = refl
proceed-rests (calls_result h results) p rested = refl
proceed-rests (calls_error h message node) p rested = on_error-rests h message node p rested
proceed-rests (rests results) p rested = refl
proceed-rests (completes k results) p rested = refl
proceed-rests (fails k e) p rested = ground (arith, rested)
proceed-rests lands_stop p rested = with_engine-rests stop_running p.engine p rested

on_result-graph :
    (h : Handlers) (results : PortDataMap) (p : Pipeline)
    → (on_result h results p).has_graph ≡ p.has_graph
unfolding on_result resident_result one_shot_result notify start_thread
on_result-graph unregistered results p = refl
on_result-graph resident results p = ground arith
on_result-graph (one_shot k) results p = ground arith

on_error-graph :
    (h : Handlers) (message node : String) (p : Pipeline)
    → (on_error h message node p).has_graph ≡ p.has_graph
unfolding on_error resident_error one_shot_error notify start_thread
on_error-graph unregistered message node p = refl
on_error-graph resident message node p = refl
on_error-graph (one_shot k) message node p = ground arith

with_engine-graph :
    (f : Control → Control) (e : Option Control) (p : Pipeline)
    → (with_engine f e p).has_graph ≡ p.has_graph
unfolding with_engine set_engine
with_engine-graph f none p = refl
with_engine-graph f (some c) p = refl

pub proceed-graph : (t : Thread) (p : Pipeline) → (proceed t p).has_graph ≡ p.has_graph
unfolding proceed store_idle complete_promise fail_promise notify start_thread on_engine
proceed-graph (reports results) p = refl
proceed-graph (calls_result h results) p = on_result-graph h results p
proceed-graph (calls_error h message node) p = on_error-graph h message node p
proceed-graph (rests results) p = refl
proceed-graph (completes k results) p = refl
proceed-graph (fails k e) p = refl
proceed-graph lands_stop p = with_engine-graph stop_running p.engine p
