-- ===== src/Pipeline/Futures.antt =====
-- The futures that `runAsync` of src/pipeline_impl.cpp returns.
use Prim.Native.String.{String}
use ai_pipe.Prelude.{
  ℕ, ◌+◌, ◌≡◌, refl, sym, ap, subst, ◌∙◌, arith, true, Option, none, some, List, [], ◌∷◌, eqb, set,
  get_elem?, if◌then◌else◌, Bool-cases, inl, inr,
}
use ai_pipe.Errors.{node_exception_error}
use ai_pipe.Errors.Results.{Result, has_value, has_error}
use ai_pipe.Engine.Control.{Control}
use ai_pipe.Engine.Control.Methods.{stop_running}
use ai_pipe.Pool.{pick_out}
use ai_pipe.Pipeline.{
  Pipeline, Handlers, resident, unregistered, one_shot, claimed, Thread, reports, calls_result,
  calls_error, rests, completes, fails, lands_stop, start_thread, notify, is_open, resident_result,
  resident_error, one_shot_result, one_shot_error, store_idle, complete_promise, fail_promise,
  on_result, on_error, proceed, with_engine, on_engine, Event, checks_completion, node_throws,
  node_fails, continues, continue_thread, fail_node, set_engine, occur_at, occur, occur_all,
  PortDataMap,
}
use ai_pipe.Pipeline.Promises.{
  IsFulfilled, winner, winners, claimed_at, Single, winners-pick_out, is_open-set, fulfilled-closed,
  set-other, fulfil-single, fulfil-keeps,
}

-- What a step keeps of the accounts and of a result, when the thread that takes it is counted in.
record Keeps (k : ℕ) (t : Thread) (p q : Pipeline) : Type 0 where
  single : winner k t + winners k p.threads ≡ claimed_at k p.futures → Single k q.futures q.threads
  keeps : (r : Result PortDataMap) → winner k t ≡ 0 → IsFulfilled p k r → IsFulfilled q k r

untouched :
    (k : ℕ) (t : Thread) (p q : Pipeline)
    → winner k t ≡ 0
    → p.futures ≡ q.futures
    → winners k p.threads ≡ winners k q.threads
    → Keeps k t p q
untouched k t p q nobody same count = record {
  single = λ s. omega (arith, s, nobody, count, ap (claimed_at k) same);
  keeps = λ r w e. ap (λ fs. get_elem? fs k) (sym same) ∙ e;
}

-- The exchange of the flag by a thread that is the first, and the fulfilment by a winner.
claim-Keeps :
    (k j : ℕ) (t won : Thread) (p : Pipeline)
    → is_open j p.futures ≡ true
    → winner k t ≡ 0
    → winner k won ≡ (if eqb j k then 1 else 0)
    → Keeps k t p (start_thread won (record p { futures = set p.futures j claimed }))
unfolding start_thread
claim-Keeps k j t won p free nobody wins = record {
  single = λ s. omega (arith, s, nobody, wins, is_open-set k j p.futures free);
  keeps = λ r w e. elim (Bool-cases (eqb j k)) [
    | inl same ↦
        let at : j ≡ k = ground (arith, same) in
        let shut = (fulfilled-closed k r p.futures e).1 in
        absurd (ground (arith, shut, subst (λ i. is_open i p.futures ≡ true) at free))
    | inr ne ↦ set-other k j claimed p.futures ne ∙ e
  ];
}

resident_result-Keeps :
    (k : ℕ) (results : PortDataMap) (p : Pipeline)
    → Keeps k (calls_result resident results) p (resident_result results p)
unfolding resident_result start_thread notify
resident_result-Keeps k results p =
    untouched k (calls_result resident results) p (resident_result results p) refl (ground arith)
      (ground arith)

-- A callback of `runAsync` with that number, by a thread that wins or comes too late.
one_shot-Keeps :
    (k j : ℕ) (t won : Thread) (p : Pipeline)
    → winner k t ≡ 0
    → winner k won ≡ (if eqb j k then 1 else 0)
    → Keeps k t p (
        if is_open j p.futures
        then start_thread won (record p { futures = set p.futures j claimed })
        else p)
one_shot-Keeps k j t won p nobody wins =
    let after = start_thread won (record p { futures = set p.futures j claimed }) in
    elim (Bool-cases (is_open j p.futures)) [
      | inl free ↦
          subst (λ b. Keeps k t p (if b then after else p)) (sym free)
            (claim-Keeps k j t won p free nobody wins)
      | inr shut ↦
          subst (λ b. Keeps k t p (if b then after else p)) (sym shut)
            (untouched k t p p nobody refl refl)
    ]

on_result-Keeps :
    (k : ℕ) (h : Handlers) (results : PortDataMap) (p : Pipeline)
    → Keeps k (calls_result h results) p (on_result h results p)
unfolding on_result one_shot_result
on_result-Keeps k unregistered results p =
    untouched k (calls_result unregistered results) p p refl refl refl
on_result-Keeps k resident results p = resident_result-Keeps k results p
on_result-Keeps k (one_shot j) results p =
    one_shot-Keeps k j (calls_result (one_shot j) results) (completes j results) p refl refl

on_error-Keeps :
    (k : ℕ) (h : Handlers) (message node : String) (p : Pipeline)
    → Keeps k (calls_error h message node) p (on_error h message node p)
unfolding on_error resident_error one_shot_error notify
on_error-Keeps k unregistered message node p =
    untouched k (calls_error unregistered message node) p p refl refl refl
on_error-Keeps k resident message node p =
    untouched k (calls_error resident message node) p (resident_error message node p) refl refl refl
on_error-Keeps k (one_shot j) message node p =
    one_shot-Keeps k j (calls_error (one_shot j) message node)
      (fails j (node_exception_error message node)) p refl refl

with_engine-Keeps :
    (k : ℕ) (f : Control → Control) (e : Option Control) (p : Pipeline)
    → Keeps k lands_stop p (with_engine f e p)
unfolding with_engine set_engine
with_engine-Keeps k f none p = untouched k lands_stop p p refl refl refl
with_engine-Keeps k f (some c) p = untouched k lands_stop p (set_engine (f c) p) refl refl refl

proceed-Keeps : (k : ℕ) (t : Thread) (p : Pipeline) → Keeps k t p (proceed t p)
unfolding proceed store_idle complete_promise fail_promise notify start_thread on_engine
proceed-Keeps k (reports results) p =
    untouched k (reports results) p (start_thread (calls_result p.handlers results) p) refl refl
      (omega arith)
proceed-Keeps k (calls_result h results) p = on_result-Keeps k h results p
proceed-Keeps k (calls_error h message node) p = on_error-Keeps k h message node p
proceed-Keeps k (rests results) p =
    untouched k (rests results) p (store_idle results p) refl refl refl
proceed-Keeps k (completes j results) p = record {
  single = fulfil-single k j (winners k p.threads) (has_value results) p.futures;
  keeps = λ r other e. fulfil-keeps k j r (has_value results) p.futures other e;
}
proceed-Keeps k (fails j x) p = record {
  single = fulfil-single k j (winners k p.threads) (has_error x) p.futures;
  keeps = λ r other e. fulfil-keeps k j r (has_error x) p.futures other e;
}
proceed-Keeps k lands_stop p = with_engine-Keeps k stop_running p.engine p

-- What every event keeps.
record Steady (k : ℕ) (p q : Pipeline) : Type 0 where
  single : Single k p.futures p.threads → Single k q.futures q.threads
  keeps :
      (r : Result PortDataMap)
      → Single k p.futures p.threads
      → IsFulfilled p k r
      → IsFulfilled q k r

Steady-same :
    (k : ℕ) (p q : Pipeline)
    → p.futures ≡ q.futures
    → winners k p.threads ≡ winners k q.threads
    → Steady k p q
Steady-same k p q same count = record {
  single = λ s. omega (arith, s, count, ap (claimed_at k) same);
  keeps = λ r s e. ap (λ fs. get_elem? fs k) (sym same) ∙ e;
}

continue_thread-Steady :
    (k i : ℕ) (o : Option (Thread × List Thread)) (p : Pipeline)
    → pick_out i p.threads ≡ o
    → Steady k p (continue_thread o p)
unfolding continue_thread
continue_thread-Steady k i none p out = Steady-same k p p refl refl
continue_thread-Steady k i (some (t, others)) p out =
    let left = record p { threads = others } in
    let step = proceed-Keeps k t left in
    let count = winners-pick_out k i p.threads t others out in
    record {
      single = λ s. step.single (omega (arith, s, count));
      keeps =
          λ r s e. step.keeps r (omega (arith, s, count, (fulfilled-closed k r p.futures e).0)) e;
    }

occur_at-Steady :
    (k : ℕ) (v : Event) (e : Option Control) (p : Pipeline) → Steady k p (occur_at v e p)
unfolding occur_at fail_node set_engine start_thread
occur_at-Steady k v none p = Steady-same k p p refl refl
occur_at-Steady k (checks_completion active is_complete results) (some c) p =
    Steady-same k p (occur_at (checks_completion active is_complete results) (some c) p)
      (ground arith) (ground arith)
occur_at-Steady k (node_throws message node) (some c) p =
    Steady-same k p (start_thread (calls_error p.handlers message node) p) refl (omega arith)
occur_at-Steady k node_fails (some c) p =
    Steady-same k p (fail_node c p) (ground arith) (ground arith)
occur_at-Steady k (continues i) (some c) p =
    continue_thread-Steady k i (pick_out i p.threads) p refl

occur_all-Steady : (k : ℕ) (vs : List Event) (p : Pipeline) → Steady k p (occur_all vs p)
unfolding occur_all occur
occur_all-Steady k [] p = Steady-same k p p refl refl
occur_all-Steady k (v ∷ vs) p =
    let first = occur_at-Steady k v p.engine p in
    let later = occur_all-Steady k vs (occur v p) in
    record {
      single = λ s. later.single (first.single s);
      keeps = λ r s e. later.keeps r (first.single s) (first.keeps r s e);
    }

-- From a facade in which the threads at work in callbacks of the call of `runAsync` with that number are as many as
-- its promise is claimed, so none while it is not: whatever the engine's threads do, with any copies of callbacks that
-- they hold, once the future of the call has a result, no thread is at work for the promise from then on, and the
-- future keeps that result.
pub future_once :
    (k : ℕ) (vs ws : List Event) (r : Result PortDataMap) (p : Pipeline)
    → winners k p.threads ≡ claimed_at k p.futures
    → IsFulfilled (occur_all vs p) k r
    → (winners k (occur_all vs p).threads ≡ 0)
      × (winners k (occur_all ws (occur_all vs p)).threads ≡ 0)
      × IsFulfilled (occur_all ws (occur_all vs p)) k r
future_once k vs ws r p start e =
    let first = (occur_all-Steady k vs p).single start in
    let later = occur_all-Steady k ws (occur_all vs p) in
    let kept = later.keeps r first e in
    (
      first ∙ (fulfilled-closed k r (occur_all vs p).futures e).0,
      later.single first ∙ (fulfilled-closed k r (occur_all ws (occur_all vs p)).futures kept).0,
      kept,
    )
