-- ===== src/Engine/Control/Hooks.antt =====
-- The hooks of the nodes of the engine of src/execution_engine_impl.cpp are called in pairs, the last one set up first.
pub mod Modes
use ai_pipe.Prelude.{
  ℕ, ◌≡◌, refl, sym, ap, subst, ◌∙◌, ◌⊎◌, ◌++◌, arith, true, Option, none, some, List, [], ◌∷◌, eqb,
  if◌then◌else◌, ◌>>=◌, >>=-eq-some, Bool-cases, Option-cases, inl, inr,
}
use mathlib.Core.List.{reverse, reverse-append, append_assoc, append-nil}
use ai_pipe.Errors.Results.{VoidResult, void_is_ok, void_ok-is_ok}
use ai_pipe.Engine.Control.{
  Control, Hook, set_up, setup_failed, torn_down, is_running, teardown_from, teardown_nodes,
  setup_from, setup_unless_done, setup_nodes,
}
use ai_pipe.Engine.Control.Methods.{
  after_setup, begin_compiled, begin_execution, reset_internal_state,
}

abbrev pub close : ℕ → List ℕ → Option (List ℕ)
close i [] = none
close i (j ∷ js) = if eqb i j then some js else none

-- The nodes that are set up after some calls of the hooks, newest first: a node is torn down when it is the last
-- one that was set up, and no other call is in order.
unfoldable pub open_after : List Hook → Option (List ℕ)
open_after [] = some []
open_after (set_up i ∷ hooks) = do nodes ← open_after hooks; some (i ∷ nodes)
open_after (setup_failed i ∷ hooks) = open_after hooks
open_after (torn_down i ∷ hooks) = do nodes ← open_after hooks; close i nodes

-- All nodes of the compiled graph are set up.
abbrev pub AllUp : Control → Type 0
AllUp c = (order : List ℕ) × (c.compiled_graph ≡ some order) × (c.set_up_nodes ≡ reverse order)

pub record Kept (c : Control) : Type 0 where
  pub balanced : open_after c.hooks ≡ some c.set_up_nodes
  pub whole : (c.set_up_nodes ≡ []) ⊎ AllUp c

pub teardown_from-open_after :
    (nodes : List ℕ) (hooks : List Hook)
    → open_after hooks ≡ some nodes
    → open_after (teardown_from nodes hooks) ≡ some []
unfolding teardown_from open_after
teardown_from-open_after [] hooks h = h
teardown_from-open_after (i ∷ is) hooks h =
    teardown_from-open_after is (torn_down i ∷ hooks) (ground (arith, h))

reverse-snoc : (i : ℕ) (is nodes : List ℕ) → reverse is ++ i ∷ nodes ≡ reverse (i ∷ is) ++ nodes
reverse-snoc i is nodes =
    sym (append_assoc (reverse is) (i ∷ []) nodes)
    ∙ ap (λ t. t ++ nodes) (sym (reverse-append (i ∷ []) is))

-- What a loop over the order makes of the nodes that are set up.
record SetUpFrom (order : List ℕ) (c c' : Control) (result : VoidResult) : Type 0 where
  balanced : open_after c'.hooks ≡ some c'.set_up_nodes
  same_graph : c'.compiled_graph ≡ c.compiled_graph
  same_state : c'.engine_state ≡ c.engine_state
  nodes : c'.set_up_nodes ≡ (if void_is_ok result then reverse order ++ c.set_up_nodes else [])

setup_from_lem :
    (setup : ℕ → VoidResult) (order : List ℕ) (c : Control)
    → open_after c.hooks ≡ some c.set_up_nodes
    → SetUpFrom order c (setup_from setup order c).0 (setup_from setup order c).1
unfolding setup_from teardown_nodes open_after
setup_from_lem setup [] c h = record {
  balanced = h;
  same_graph = refl;
  same_state = refl;
  nodes = rw void_ok-is_ok refl;
}
setup_from_lem setup (i ∷ is) c h = elim (Bool-cases (void_is_ok (setup i))) [
  | inl fine ↦
      let ih =
        setup_from_lem setup is
          (record c { set_up_nodes = i ∷ c.set_up_nodes; hooks = set_up i ∷ c.hooks })
          (ground (arith, h)) in
      rw fine (record {
        balanced = ih.balanced;
        same_graph = ih.same_graph;
        same_state = ih.same_state;
        nodes =
            ih.nodes
            ∙ ap
                (λ l.
                  if void_is_ok
                    (setup_from setup is (record c {
                      set_up_nodes = i ∷ c.set_up_nodes;
                      hooks = set_up i ∷ c.hooks;
                    })).1
                  then l
                  else [])
                (reverse-snoc i is c.set_up_nodes);
      })
  | inr wrong ↦ rw wrong (record {
    balanced = teardown_from-open_after c.set_up_nodes (setup_failed i ∷ c.hooks) h;
    same_graph = refl;
    same_state = refl;
    nodes = rw wrong refl;
  })
]

-- What `setupNodes` does, when there is a compiled graph or nodes are set up.
pub record SetUp (c c' : Control) (result : VoidResult) : Type 0 where
  pub kept : Kept c'
  pub same_state : c'.engine_state ≡ c.engine_state
  pub all_up : void_is_ok result ≡ true → AllUp c'

setup_from-AllUp :
    (setup : ℕ → VoidResult) (order : List ℕ) (c : Control)
    → c.set_up_nodes ≡ []
    → c.compiled_graph ≡ some order
    → Kept c
    → void_is_ok (setup_from setup order c).1 ≡ true
    → AllUp (setup_from setup order c).0
setup_from-AllUp setup order c none_up there k fine =
    let s = setup_from_lem setup order c k.balanced in
    let all : (setup_from setup order c).0.set_up_nodes ≡ reverse order =
      s.nodes
      ∙ ap (λ b. if b then reverse order ++ c.set_up_nodes else []) fine
      ∙ ap (λ l. reverse order ++ l) none_up
      ∙ append-nil (reverse order) in
    (order, s.same_graph ∙ there, all)

setup_from-SetUp :
    (setup : ℕ → VoidResult) (order : List ℕ) (c : Control)
    → c.set_up_nodes ≡ []
    → c.compiled_graph ≡ some order
    → Kept c
    → SetUp c (setup_from setup order c).0 (setup_from setup order c).1
setup_from-SetUp setup order c none_up there k =
    let s = setup_from_lem setup order c k.balanced in
    record {
      kept = record {
        balanced = s.balanced;
        whole = elim (Bool-cases (void_is_ok (setup_from setup order c).1)) [
          | inl fine ↦ inr (setup_from-AllUp setup order c none_up there k fine)
          | inr wrong ↦
              inl (s.nodes ∙ ap (λ b. if b then reverse order ++ c.set_up_nodes else []) wrong)
        ];
      };
      same_state = s.same_state;
      all_up = setup_from-AllUp setup order c none_up there k;
    }

setup_unless_done-SetUp :
    (setup : ℕ → VoidResult) (nodes : List ℕ) (c c' : Control) (result : VoidResult)
    → nodes ≡ c.set_up_nodes
    → Kept c
    → setup_unless_done setup nodes c ≡ some (c', result)
    → SetUp c c' result
unfolding setup_unless_done
setup_unless_done-SetUp setup (i ∷ is) c c' result e k h =
    let same : c ≡ c' = cc in
    let up : AllUp c = elim k.whole [ inl none_up ↦ absurd (cc (e ∙ none_up)) | inr up ↦ up ] in
    subst (λ d. SetUp c d result) same (record { kept = k; same_state = refl; all_up = λ fine. up })
setup_unless_done-SetUp setup [] c c' result e k h =
    let run = λ (g : Option (List ℕ)). g >>= λ (order : List ℕ). some (setup_from setup order c) in
    elim (Option-cases c.compiled_graph) [
      | inl nothing ↦ absurd (cc (ap run nothing))
      | inr (order, there) ↦
          let same : setup_from setup order c ≡ (c', result) = cc (ap run there) in
          subst (λ p. SetUp c p.0 p.1) same (setup_from-SetUp setup order c (sym e) there k)
    ]

pub setup_nodes-SetUp :
    (setup : ℕ → VoidResult) (c c' : Control) (result : VoidResult)
    → Kept c
    → setup_nodes setup c ≡ some (c', result)
    → SetUp c c' result
unfolding setup_nodes
setup_nodes-SetUp setup c c' result k h =
    setup_unless_done-SetUp setup c.set_up_nodes c c' result refl k h
