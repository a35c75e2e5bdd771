-- ===== src/Graph/Cycle/Exact.antt =====
-- What `Graph::hasCycle` of src/graph.cpp answers for the graphs that calls can build.
use ai_pipe.Prelude.{
  ℕ, suc, ◌+◌, ◌≡◌, ◌⊎◌, refl, ap, ◌∙◌, arith, Bool, true, false, not, some, List, [], eqb, length,
  Bool-cases, inl, inr,
}
use ai_pipe.Topology.Order.{IsSorted, IsLoop, peel_graph, complete, incomplete, sorted_loop, Peeled}
use ai_pipe.Graph.{LogicNode, Graph, no_graph, counted, listed}
use ai_pipe.Graph.Calls.{Call, run}
use ai_pipe.Graph.Cycle.{has_cycle, ready_nodes}
use ai_pipe.Graph.Cycle.Peeling.{peel-peel_by, ready_nodes-zeros}
use ai_pipe.Graph.Cycle.Tables.{Tables, history-Tables, Tables-IsGraph}

-- The nodes of `order`, each behind all nodes with an edge to it, are the nodes of the graph.
abbrev pub SortsGraph : Graph → List ℕ → Type 0
SortsGraph g order = IsSorted (λ u. listed u g.successors) g.nodes order

-- A set of nodes, not empty, in which every node has a predecessor.
abbrev pub LoopOf : Graph → (ℕ → Bool) → Type 0
LoopOf g s = IsLoop (λ u. listed u g.successors) g.nodes s

-- What `hasCycle` answers, and why.
abbrev pub Decided : Graph → Type 0
Decided g =
    ((has_cycle g ≡ some false)
      × ((order : List ℕ) × SortsGraph g order)
      × ((s : ℕ → Bool) → LoopOf g s → ⊥))
    ⊎ ((has_cycle g ≡ some true)
        × ((s : ℕ → Bool) × LoopOf g s)
        × ((order : List ℕ) → SortsGraph g order → ⊥))

module _ (node : ℕ → LogicNode) where
  has_cycle-order :
      (g : Graph)
      → Tables node g
      → (order : List ℕ) × (has_cycle g ≡ some (not (eqb (length order) (length g.nodes))))
        × Peeled (λ u. listed u g.successors) g.nodes order
  unfolding has_cycle
  has_cycle-order g v =
      let fuel = suc (length g.nodes + length g.in_degree) in
      let (order, ran, peeled) =
        peel_graph (λ u. listed u g.successors) g.nodes fuel (λ q. counted q g.in_degree)
          (Tables-IsGraph node g v) (omega arith) in
      let same = peel-peel_by fuel g.successors [] (ready_nodes g.in_degree g.nodes) g.in_degree in
      (order, rw (same, ready_nodes-zeros g.in_degree g.nodes, ran, has_cycle) refl, peeled)

  -- For a graph that any history of calls has built, `hasCycle` returns false exactly when the nodes can be put in an
  -- order in which every edge goes forward, and true exactly when some of the nodes form a loop: a set,
  -- not empty, in which every node has a predecessor.
  pub has_cycle_exact : (cs : List Call) → Decided (run node no_graph cs)
  has_cycle_exact cs =
      let g = run node no_graph cs in
      let v = history-Tables node cs in
      let succ = λ (u : ℕ). listed u g.successors in
      let (order, ran, peeled) = has_cycle-order g v in
      elim (Bool-cases (eqb (length order) (length g.nodes))) [
        | inl all ↦
            let sorted = complete succ g.nodes v.distinct order peeled (ground arith) in
            inl (
              ran ∙ ap (λ b. some (not b)) all,
              (order, sorted),
              λ s loop. sorted_loop succ g.nodes s order loop sorted,
            )
        | inr few ↦
            let loop = incomplete succ g.nodes v.distinct order peeled (ground arith) in
            inr (
              ran ∙ ap (λ b. some (not b)) few,
              (_, loop),
              λ o sorted. sorted_loop succ g.nodes _ o loop sorted,
            )
      ]
