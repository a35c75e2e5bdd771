-- ===== src/Pipeline/Cancelled.antt =====
-- The facade of src/pipeline_impl.cpp after `cancel`.
use Prim.Native.String.{String}
use ai_pipe.Prelude.{
  ℕ, zero, suc, ◌≡◌, refl, ap, ◌∙◌, arith, Bool, true, false, ◌||◌, Option, none, some, List, [],
  ◌∷◌, Bool-cases, inl, inr,
}
use ai_pipe.Engine.Control.{Control}
use ai_pipe.Engine.Control.Methods.{stop_running, reports_completion}
use ai_pipe.Pool.{pick_out}
use ai_pipe.Pipeline.{
  Pipeline, PipelineState, uninitialized, idle, running, stopping, error, Handlers, resident,
  unregistered, one_shot, Thread, reports, calls_result, calls_error, rests, completes, fails,
  lands_stop, start_thread, Event, checks_completion, node_throws, node_fails, continues,
  continue_thread, fail_node, PortDataMap, is_idle, is_running, notify, resident_result,
  resident_error, one_shot_error, fail_promise, on_result, on_error, proceed, with_engine,
  on_engine, occur_at, occur, occur_all, set_engine,
}
use ai_pipe.Pipeline.Methods.{cancel, is_ready}
use ai_pipe.Pipeline.Threads.{put_back-some}

-- The facade is on its way down, or in error.
abbrev is_cancelled : PipelineState → Bool
is_cancelled stopping = true
is_cancelled error = true
is_cancelled _ = false

-- A thread that is about to make the facade idle, or holds a callback that will.
abbrev pub will_rest : Thread → Bool
will_rest (calls_result (one_shot k) results) = true
will_rest (rests results) = true
will_rest (completes k results) = true
will_rest _ = false

abbrev pub any_rests : List Thread → Bool
any_rests [] = false
any_rests (t ∷ ts) = will_rest t || any_rests ts

any_rests-pick_out :
    (k : ℕ) (ts : List Thread) (t : Thread) (others : List Thread)
    → pick_out k ts ≡ some (t, others)
    → any_rests ts ≡ (will_rest t || any_rests others)
unfolding pick_out
any_rests-pick_out k [] t others h = cc
any_rests-pick_out zero (x ∷ xs) t others h =
    let same : x ≡ t = cc in
    let same_rest : xs ≡ others = cc in
    ap (λ y. will_rest y || any_rests xs) same ∙ ap (λ ys. will_rest t || any_rests ys) same_rest
any_rests-pick_out (suc k) (x ∷ xs) t others h =
    let (zs, out, same) = put_back-some x (pick_out k xs) t others h in
    let found = any_rests-pick_out k xs t zs out in ground (arith, found, ap any_rests same)

abbrev Cancelled : Pipeline → Type 0
Cancelled p =
    (p.handlers ≡ resident) × (is_cancelled p.state ≡ true) × (any_rests p.threads ≡ false)

resident_result-Cancelled :
    (results : PortDataMap) (p : Pipeline) → Cancelled p → Cancelled (resident_result results p)
unfolding resident_result notify
resident_result-Cancelled results p c = ground (arith, c)

on_error-Cancelled :
    (h : Handlers) (message node : String) (p : Pipeline)
    → Cancelled p
    → Cancelled (on_error h message node p)
unfolding on_error resident_error one_shot_error notify start_thread
on_error-Cancelled unregistered message node p c = c
on_error-Cancelled resident message node p c = ground (arith, c)
on_error-Cancelled (one_shot k) message node p c = ground (arith, c)

with_engine-Cancelled :
    (f : Control → Control) (e : Option Control) (p : Pipeline)
    → Cancelled p
    → Cancelled (with_engine f e p)
unfolding with_engine set_engine
with_engine-Cancelled f none p c = c
with_engine-Cancelled f (some d) p c = c

reports-rests :
    (h : Handlers) (results : PortDataMap)
    → h ≡ resident
    → will_rest (calls_result h results) ≡ false
reports-rests unregistered results same = refl
reports-rests resident results same = refl
reports-rests (one_shot k) results same = cc

proceed-Cancelled :
    (t : Thread) (p : Pipeline) → will_rest t ≡ false → Cancelled p → Cancelled (proceed t p)
unfolding proceed on_result fail_promise notify start_thread on_engine
proceed-Cancelled (reports results) p none_rests c =
    (c.0, c.1, ground (arith, reports-rests p.handlers results c.0, c.2))
proceed-Cancelled (calls_result unregistered results) p none_rests c = c
proceed-Cancelled (calls_result resident results) p none_rests c =
    resident_result-Cancelled results p c
proceed-Cancelled (calls_result (one_shot k) results) p none_rests c = cc
proceed-Cancelled (calls_error h message node) p none_rests c =
    on_error-Cancelled h message node p c
proceed-Cancelled (rests results) p none_rests c = cc
proceed-Cancelled (completes k results) p none_rests c = cc
proceed-Cancelled (fails k e) p none_rests c = (refl, refl, c.2)
proceed-Cancelled lands_stop p none_rests c = with_engine-Cancelled stop_running p.engine p c

continue_thread-Cancelled :
    (o : Option (Thread × List Thread)) (k : ℕ) (p : Pipeline)
    → pick_out k p.threads ≡ o
    → Cancelled p
    → Cancelled (continue_thread o p)
unfolding continue_thread
continue_thread-Cancelled none k p out c = c
continue_thread-Cancelled (some (t, others)) k p out c =
    let found = any_rests-pick_out k p.threads t others out in
    proceed-Cancelled t (record p { threads = others }) (ground (arith, found, c.2))
      (c.0, c.1, ground (arith, found, c.2))

fail_node-Cancelled : (d : Control) (p : Pipeline) → Cancelled p → Cancelled (fail_node d p)
unfolding fail_node start_thread set_engine
fail_node-Cancelled d p c = elim (Bool-cases (d.streaming_mode || d.stop_flag)) [
  | inl nothing ↦ rw nothing c
  | inr first ↦ rw first c
]

occur_at-Cancelled :
    (v : Event) (e : Option Control) (p : Pipeline) → Cancelled p → Cancelled (occur_at v e p)
unfolding occur_at set_engine start_thread
occur_at-Cancelled v none p c = c
occur_at-Cancelled (checks_completion active is_complete results) (some d) p c =
    elim (Bool-cases (reports_completion active is_complete d)) [
      | inl told ↦ rw told c
      | inr not_yet ↦ rw not_yet c
    ]
occur_at-Cancelled (node_throws message node) (some d) p c = c
occur_at-Cancelled node_fails (some d) p c = fail_node-Cancelled d p c
occur_at-Cancelled (continues k) (some d) p c =
    continue_thread-Cancelled (pick_out k p.threads) k p refl c

occur_all-Cancelled : (vs : List Event) (p : Pipeline) → Cancelled p → Cancelled (occur_all vs p)
unfolding occur_all occur
occur_all-Cancelled [] p c = c
occur_all-Cancelled (v ∷ vs) p c =
    occur_all-Cancelled vs (occur v p) (occur_at-Cancelled v p.engine p c)

cancelled-not-idle : (s : PipelineState) → is_cancelled s ≡ true → is_idle s ≡ false
cancelled-not-idle uninitialized h = refl
cancelled-not-idle idle h = cc
cancelled-not-idle running h = refl
cancelled-not-idle stopping h = refl
cancelled-not-idle error h = refl

cancel-stopping :
    (meanwhile : List Event) (p : Pipeline)
    → is_running p.state ≡ true
    → (cancel meanwhile p).state ≡ stopping
unfolding cancel
cancel-stopping meanwhile p on = ground (arith, on)

-- `cancel` of a facade that says RUNNING or STOPPING, whatever the engine's threads do meanwhile. If afterwards the
-- callbacks of `setupEngineCallbacks` are registered, and no thread of the engine is inside a callback that is about
-- to make the facade idle or holds a callback of `runAsync` for results, then whatever the threads do later, the
-- facade is not ready.
pub cancelled-not_ready :
    (meanwhile vs : List Event) (p : Pipeline)
    → is_running p.state ≡ true
    → (cancel meanwhile p).handlers ≡ resident
    → any_rests (cancel meanwhile p).threads ≡ false
    → is_ready (occur_all vs (cancel meanwhile p)) ≡ false
unfolding is_ready
cancelled-not_ready meanwhile vs p on same none_rests =
    let q = cancel meanwhile p in
    let down : is_cancelled q.state ≡ true = ap is_cancelled (cancel-stopping meanwhile p on) in
    let c = occur_all-Cancelled vs q (same, down, none_rests) in
    let busy = cancelled-not-idle (occur_all vs q).state c.1 in ground (arith, busy)
