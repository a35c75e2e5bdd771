-- ===== src/Pipeline/Events.antt =====
-- What the engine's threads can do to the facade of src/pipeline_impl.cpp between its calls.
use ai_pipe.Prelude.{
  ℕ, ◌≡◌, refl, ap, ◌∙◌, arith, Bool, true, ◌&&◌, ◌||◌, Option, none, some, List, [], ◌∷◌,
  Bool-cases, inl, inr,
}
use ai_pipe.Engine.Control.{Control}
use ai_pipe.Engine.Control.Methods.{raise_stop, check_completion_and_notify, reports_completion}
use ai_pipe.Pool.{pick_out}
use ai_pipe.Pipeline.{
  Pipeline, Thread, start_thread, engine_streams, proceed, Event, checks_completion, node_throws,
  node_fails, continues, continue_thread, fail_node, set_engine, occur_at, occur, occur_all,
  is_there,
}
use ai_pipe.Pipeline.Threads.{
  engine_quiet, may_rest, IdleEngine, any_late-pick_out, engine_after-quiet, engine_after-streams,
  engine_after-there, proceed-engine, proceed-rests, proceed-graph,
}

continue_thread-IdleEngine :
    (o : Option (Thread × List Thread)) (k : ℕ) (p : Pipeline)
    → pick_out k p.threads ≡ o
    → IdleEngine p
    → IdleEngine (continue_thread o p)
unfolding continue_thread
continue_thread-IdleEngine none k p out h = h
continue_thread-IdleEngine (some (t, others)) k p out h = λ rested.
    let left = record p { threads = others } in
    let late = any_late-pick_out k p.threads t others out in
    let before : may_rest p ≡ true = ground (arith, late, proceed-rests t left rested) in
    ap engine_quiet (proceed-engine t left) ∙ engine_after-quiet t p.engine (h before)

checked-quiet :
    (c : Control) (active : ℕ) (is_complete : Bool)
    → reports_completion active is_complete c ≡ true
    → engine_quiet (some (check_completion_and_notify active is_complete c)) ≡ true
unfolding check_completion_and_notify
checked-quiet c active is_complete h = ground (arith, h)

fail_node-IdleEngine :
    (c : Control) (p : Pipeline) → some c ≡ p.engine → IdleEngine p → IdleEngine (fail_node c p)
unfolding fail_node start_thread set_engine raise_stop
fail_node-IdleEngine c p same h = elim (Bool-cases (c.streaming_mode || c.stop_flag)) [
  | inl nothing ↦ rw nothing h
  | inr first ↦ rw first (λ rested. ap engine_quiet same ∙ h rested)
]

occur_at-IdleEngine :
    (v : Event) (e : Option Control) (p : Pipeline)
    → e ≡ p.engine
    → IdleEngine p
    → IdleEngine (occur_at v e p)
unfolding occur_at set_engine start_thread
occur_at-IdleEngine v none p same h = h
occur_at-IdleEngine (checks_completion active is_complete results) (some c) p same h =
    elim (Bool-cases (reports_completion active is_complete c)) [
      | inl told ↦ rw told (λ rested. checked-quiet c active is_complete told)
      | inr not_yet ↦ rw not_yet h
    ]
occur_at-IdleEngine (node_throws message node) (some c) p same h = h
occur_at-IdleEngine node_fails (some c) p same h = fail_node-IdleEngine c p same h
occur_at-IdleEngine (continues k) (some c) p same h =
    continue_thread-IdleEngine (pick_out k p.threads) k p refl h

pub occur_all-IdleEngine :
    (vs : List Event) (p : Pipeline) → IdleEngine p → IdleEngine (occur_all vs p)
unfolding occur_all occur
occur_all-IdleEngine [] p h = h
occur_all-IdleEngine (v ∷ vs) p h =
    occur_all-IdleEngine vs (occur v p) (occur_at-IdleEngine v p.engine p refl h)

continue_thread-streams :
    (o : Option (Thread × List Thread)) (p : Pipeline)
    → engine_streams (continue_thread o p).engine ≡ engine_streams p.engine
unfolding continue_thread
continue_thread-streams none p = refl
continue_thread-streams (some (t, others)) p =
    ap engine_streams (proceed-engine t (record p { threads = others }))
    ∙ engine_after-streams t p.engine

happen_at-streams :
    (v : Event) (e : Option Control) (p : Pipeline)
    → e ≡ p.engine
    → engine_streams (occur_at v e p).engine ≡ engine_streams p.engine
unfolding occur_at set_engine start_thread fail_node raise_stop check_completion_and_notify
happen_at-streams v none p same = refl
happen_at-streams (checks_completion active is_complete results) (some c) p same =
    ground (arith, ap engine_streams same)
happen_at-streams (node_throws message node) (some c) p same = refl
happen_at-streams node_fails (some c) p same = ground (arith, ap engine_streams same)
happen_at-streams (continues k) (some c) p same = continue_thread-streams (pick_out k p.threads) p

pub happen_all-streams :
    (vs : List Event) (p : Pipeline)
    → engine_streams (occur_all vs p).engine ≡ engine_streams p.engine
unfolding occur_all occur
happen_all-streams [] p = refl
happen_all-streams (v ∷ vs) p =
    happen_all-streams vs (occur v p) ∙ happen_at-streams v p.engine p refl

-- What no event changes: whether there are an engine and a graph.
abbrev pub equipped : Pipeline → Bool
equipped p = is_there p.engine && p.has_graph

continue_thread-equipped :
    (o : Option (Thread × List Thread)) (p : Pipeline) → equipped (continue_thread o p) ≡ equipped p
unfolding continue_thread
continue_thread-equipped none p = refl
continue_thread-equipped (some (t, others)) p =
    let left = record p { threads = others } in
    let there : is_there (proceed t left).engine ≡ is_there p.engine =
      ap is_there (proceed-engine t left) ∙ engine_after-there t p.engine in
    ap (λ b. b && (proceed t left).has_graph) there
    ∙ ap (λ g. is_there p.engine && g) (proceed-graph t left)

happen_at-equipped :
    (v : Event) (e : Option Control) (p : Pipeline)
    → e ≡ p.engine
    → equipped (occur_at v e p) ≡ equipped p
unfolding occur_at set_engine start_thread fail_node
happen_at-equipped v none p same = refl
happen_at-equipped (checks_completion active is_complete results) (some c) p same =
    ground (arith, ap is_there same)
happen_at-equipped (node_throws message node) (some c) p same = refl
happen_at-equipped node_fails (some c) p same = ground (arith, ap is_there same)
happen_at-equipped (continues k) (some c) p same = continue_thread-equipped (pick_out k p.threads) p

pub happen_all-equipped : (vs : List Event) (p : Pipeline) → equipped (occur_all vs p) ≡ equipped p
unfolding occur_all occur
happen_all-equipped [] p = refl
happen_all-equipped (v ∷ vs) p =
    happen_all-equipped vs (occur v p) ∙ happen_at-equipped v p.engine p refl
