-- ===== src/Compiled/Correct.antt =====
-- What `CompiledGraph::compile` of include/ai_pipe/compiled_graph.hpp returns for a graph that calls have built.
use Prim.Native.String.{String}
use ai_pipe.Prelude.{
  ℕ, ◌^◌, ◌<◌, ◌≡◌, ◌≢◌, ◌⊎◌, inl, inr, refl, sym, ap, ◌∙◌, arith, true, false, Option, none, some,
  List, [], ◌∷◌, eqb, length, Bool-cases, Option-cases, nat_eq,
}
use ai_pipe.Topology.Order.{IsSorted, complete, incomplete, sorted_loop}
use ai_pipe.Errors.{Error, error_of}
use ai_pipe.Errors.Codes.{ErrorCode, graph_empty, graph_cycle_detected, invalid_configuration}
use ai_pipe.Errors.Results.{Result, has_value, has_error}
use ai_pipe.Graph.{LogicNode, Graph, no_graph}
use ai_pipe.Graph.Agreement.{Agrees}
use ai_pipe.Graph.Calls.{Call, run, run-Agrees, no_graph-Agrees}
use ai_pipe.Graph.Cycle.{has_cycle}
use ai_pipe.Graph.Cycle.Tables.{history-Tables}
use ai_pipe.Graph.Cycle.Exact.{has_cycle_exact}
use ai_pipe.Compiled.{
  CompiledGraph, Pass, indices, index_ptrs, find_uncovered, starve_message, assembled, finish,
  compile, empty,
}
use ai_pipe.Compiled.Vectors.{length-indices, indices-Distinct}
use ai_pipe.Compiled.Kahn.{targets, backwards, length-backwards}
use ai_pipe.Compiled.Run.{Ran, compile-Ran, ports_of}
use ai_pipe.Compiled.Loops.{LoopOf-indices, IsLoop-nodes}

-- The call returns an error with that code.
abbrev pub Fails : Option (Result CompiledGraph) → ErrorCode → Type 0
Fails r code = (e : Error) × (r ≡ some (has_error e)) × (e.code ≡ code)

-- `topo` has every index once, each after all indices with an edge to it.
abbrev pub IsTopological : CompiledGraph → Type 0
IsTopological cg =
    (order : List ℕ) × (cg.topo_order ≡ backwards order)
    × IsSorted (targets cg.out_edges) (indices 0 (length cg.nodes)) order

module _ (node : ℕ → LogicNode) where
  -- What is decided after Kahn's algorithm.
  pub finish-cases :
      (g : Graph) (count : ℕ) (ports : List (List String)) (pass : Pass) (topo : List ℕ)
      → ((length topo ≢ count)
          × ((e : Error) × (finish node g count g.nodes ports pass topo ≡ has_error e)
              × (e.code ≡ graph_cycle_detected)))
        ⊎ ((length topo ≡ count)
            × (((e : Error) × (finish node g count g.nodes ports pass topo ≡ has_error e)
                  × (e.code ≡ invalid_configuration)
                  × ((p : ℕ) × (port : String) × (find_uncovered g.nodes ports pass.in_degree
                          pass.port_covered
                        ≡ some (p, port))))
                ⊎ ((cg : CompiledGraph) × (finish node g count g.nodes ports pass topo
                      ≡ has_value cg)
                    × (find_uncovered g.nodes ports pass.in_degree pass.port_covered ≡ none)
                    × (cg.nodes ≡ g.nodes)
                    × (cg.out_edges ≡ pass.out_edges)
                    × (cg.in_degree ≡ pass.in_degree)
                    × (cg.ptr_to_index ≡ index_ptrs 0 g.nodes [])
                    × (cg.topo_order ≡ topo))))
  unfolding finish error_of
  finish-cases g count ports pass topo = elim (Bool-cases (eqb (length topo) count)) [
    | inr differ ↦ inl (
      λ e. ground arith,
      (error_of graph_cycle_detected "Graph contains a cycle" "", rw (differ, finish) refl, refl),
    )
    | inl same ↦
        elim (Option-cases (find_uncovered g.nodes ports pass.in_degree pass.port_covered)) [
          | inr ((p, port), bad) ↦ inr (
            ground arith,
            inl (
              error_of invalid_configuration (starve_message node p port) (node p).name,
              rw (same, bad, finish) refl,
              refl,
              (p, port, bad),
            ),
          )
          | inl fine ↦ inr (
            ground arith,
            inr (
              assembled node g g.nodes pass topo,
              rw (same, fine, finish) refl,
              fine,
              refl,
              refl,
              refl,
              refl,
              refl,
            ),
          )
        ]
  ]

  -- The call's outcome, told by `hasCycle`.
  abbrev pub CompileOutcome : Graph → Type 0
  CompileOutcome g =
      ((g.nodes ≡ []) × Fails (compile node g) graph_empty)
      ⊎ (((g.nodes ≢ []) × (has_cycle g ≡ some true) × Fails (compile node g) graph_cycle_detected)
          ⊎ (((has_cycle g ≡ some false) × Fails (compile node g) invalid_configuration)
              ⊎ ((has_cycle g ≡ some false)
                  × ((cg : CompiledGraph) × (compile node g ≡ some (has_value cg))
                      × (cg.nodes ≡ g.nodes)
                      × IsTopological cg))))

  pub compile-empty : (g : Graph) → g.nodes ≡ [] → Fails (compile node g) graph_empty
  unfolding compile error_of
  compile-empty g none_there =
      (error_of graph_empty "Graph has no nodes" "", rw (none_there, compile) refl, refl)

  pub history-Agrees : (cs : List Call) → Agrees node (run node no_graph cs)
  history-Agrees cs = run-Agrees node no_graph cs (no_graph-Agrees node)

  pub nodes-cases : (xs : List ℕ) → (xs ≡ []) ⊎ ((xs ≢ []) × (empty xs ≡ false))
  nodes-cases [] = inl refl
  nodes-cases (x ∷ xs) = inr (λ h. cc, refl)

  abbrev pub history-Ran :
      (cs : List Call)
      → length (run node no_graph cs).nodes < 2 ^ 32
      → Ran node (run node no_graph cs)
  history-Ran cs small =
      compile-Ran node (run node no_graph cs) (history-Tables node cs)
        (history-Agrees cs).registered small

  -- An order that lacks some indices comes from a graph with a cycle.
  few-has_cycle :
      (cs : List Call) (small : length (run node no_graph cs).nodes < 2 ^ 32)
      → length (backwards (history-Ran cs small).order) ≢ length (run node no_graph cs).nodes
      → has_cycle (run node no_graph cs) ≡ some true
  few-has_cycle cs small few =
      let g = run node no_graph cs in
      let n = length g.nodes in
      let ran = history-Ran cs small in
      let loop =
        incomplete (targets ran.pass.out_edges) (indices 0 n) (indices-Distinct 0 n) ran.order
          ran.peeled (λ same. few (length-backwards ran.order ∙ same ∙ length-indices 0 n)) in
      elim (has_cycle_exact node cs) [
        | inr (yes_cycle, _, _) ↦ yes_cycle
        | inl (_, _, no_loop) ↦ absurd (
            no_loop _
              (LoopOf-indices node g (history-Tables node cs) (history-Agrees cs) small ran _ loop))
      ]

  all-IsSorted :
      (cs : List Call) (small : length (run node no_graph cs).nodes < 2 ^ 32)
      → length (backwards (history-Ran cs small).order) ≡ length (run node no_graph cs).nodes
      → IsSorted
          (targets (history-Ran cs small).pass.out_edges)
          (indices 0 (length (run node no_graph cs).nodes))
          (history-Ran cs small).order
  all-IsSorted cs small all =
      let n = length (run node no_graph cs).nodes in
      let ran = history-Ran cs small in
      complete (targets ran.pass.out_edges) (indices 0 n) (indices-Distinct 0 n) ran.order
        ran.peeled (sym (length-backwards ran.order) ∙ all ∙ sym (length-indices 0 n))

  all-no_cycle :
      (cs : List Call) (small : length (run node no_graph cs).nodes < 2 ^ 32)
      → length (backwards (history-Ran cs small).order) ≡ length (run node no_graph cs).nodes
      → has_cycle (run node no_graph cs) ≡ some false
  all-no_cycle cs small all =
      let g = run node no_graph cs in
      let ran = history-Ran cs small in
      elim (has_cycle_exact node cs) [
        | inl (no_cycle, _, _) ↦ no_cycle
        | inr (_, (s, loop), _) ↦ absurd (
            sorted_loop (targets ran.pass.out_edges) (indices 0 (length g.nodes)) _ ran.order
              (IsLoop-nodes node g (history-Tables node cs) (history-Agrees cs) small ran s loop)
              (all-IsSorted cs small all))
      ]

  -- For a graph that any history of calls has built, with fewer than 2^32 nodes, `compile` fails with
  -- `GraphEmpty` when there are no nodes, fails with `GraphCycleDetected` when there are nodes and
  -- `hasCycle` returns true, and otherwise, when `hasCycle` returns false, either fails with
  -- `InvalidConfiguration` or returns a compiled graph of the same nodes whose topological order has
  -- every index once, each after all indices with an edge to it.
  pub compile_outcome :
      (cs : List Call)
      → length (run node no_graph cs).nodes < 2 ^ 32
      → CompileOutcome (run node no_graph cs)
  compile_outcome cs small =
      let g = run node no_graph cs in
      let ran = history-Ran cs small in
      elim (nodes-cases g.nodes) [
        | inl none_there ↦ inl (none_there, compile-empty g none_there)
        | inr (some_there, not_empty) ↦
            let result = ran.result not_empty in
            elim (finish-cases g (length g.nodes) (ports_of node g.nodes) ran.pass
              (backwards ran.order)) [
                | inl (few, (e, failed, code)) ↦ inr (
                    inl
                      (some_there, few-has_cycle cs small few, (e, result ∙ ap some failed, code)))
                | inr (all, rest) ↦
                    let acyclic = all-no_cycle cs small all in
                    elim rest [
                      | inl (e, failed, code, _) ↦
                          inr (inr (inl (acyclic, (e, result ∙ ap some failed, code))))
                      | inr (cg, made, fine, nodes, outs, ins, ptrs, topo) ↦ inr (
                          inr (
                            inr (
                              acyclic,
                              (
                                cg,
                                result ∙ ap some made,
                                nodes,
                                (ran.order, topo, rw (outs, nodes) (all-IsSorted cs small all)),
                              ),
                            )))
                    ]
              ]
      ]
