-- ===== src/Compiled/Run.antt =====
-- A run of `CompiledGraph::compile` of include/ai_pipe/compiled_graph.hpp on a graph that calls have built.
use Prim.Native.String.{String}
use mathlib.Core.Option
use ai_pipe.Prelude.{
  ℕ, suc, ◌^◌, ◌<◌, ◌≡◌, refl, sym, ap, ◌∙◌, arith, false, ◌||◌, some, List, [], ◌∷◌, map, eqb,
  length, get_or, take, nat_eq, string_eq,
}
use ai_pipe.Topology.Counting.{occurrences, total}
use ai_pipe.Topology.Peel.{peel_by, zeros}
use ai_pipe.Topology.Order.{IsGraph, Peeled, peel_graph}
use ai_pipe.Graph.{LogicNode, Edge, Graph}
use ai_pipe.Graph.Agreement.{AllRegistered}
use ai_pipe.Graph.Cycle.Tables.{Tables}
use ai_pipe.Compiled.{
  OutEdge, Pass, filled, indices, count_nodes, index_ptrs, k_invalid_index, compile_edges,
  add_out_edge, empty, kahn, zero_places, finish, compile_indexed, compile,
}
use ai_pipe.Compiled.Vectors.{
  length-filled, get_or-filled, length-indices, contains-indices, indices-Distinct,
  zero_places-zeros,
}
use ai_pipe.Compiled.Kahn.{targets, backwards, kahn-peel_by}
use ai_pipe.Compiled.Edges.{Counted, compile_edges-Counted}
use ai_pipe.Compiled.Index.{index_in, index_lt, index_valid}

take-length {ℓ} : {A : Type ℓ} (xs : List A) → take (length xs) xs ≡ xs
take-length [] = refl
take-length (x ∷ xs) = ap (λ l. x ∷ l) (take-length xs)

count_nodes-small : (nodes : List ℕ) → length nodes < 2 ^ 32 → count_nodes nodes ≡ length nodes
unfolding count_nodes
count_nodes-small nodes small = omega (arith, small)

total-none : (f : ℕ → ℕ) (xs : List ℕ) → ((u : ℕ) → f u ≡ 0) → total f xs ≡ 0
unfolding total
total-none f [] h = refl
total-none f (x ∷ xs) h = omega (arith, h x, total-none f xs h)

module _ (node : ℕ → LogicNode) where
  abbrev pub ports_of : List ℕ → List (List String)
  ports_of nodes = map (λ p. (node p).input_ports) nodes

  abbrev pub no_edges : List ℕ → Pass
  no_edges nodes = record {
    out_edges = filled (length nodes) [];
    successors = filled (length nodes) [];
    predecessors = filled (length nodes) [];
    in_degree = filled (length nodes) 0;
    port_covered = map (λ ports. map (λ _. false) ports) (ports_of nodes);
  }

  no_edges-Counted : (nodes : List ℕ) → Counted (length nodes) (no_edges nodes)
  unfolding occurrences
  no_edges-Counted nodes =
      let empty : (u q : ℕ) → occurrences q (targets (filled (length nodes) []) u) ≡ 0 = λ u q.
        ap (λ l. occurrences q (map (λ (e : OutEdge). e.dest_node) l))
          (get_or-filled (length nodes) u []) in
      record {
        length_out = length-filled (length nodes) [];
        length_in = length-filled (length nodes) 0;
        closed = λ u q h. absurd (omega (arith, h, empty u q));
        counts = λ q.
            get_or-filled (length nodes) q 0
            ∙ sym (total-none _ (indices 0 (length nodes)) (λ u. empty u q));
      }

  -- Every edge that is registered has indices for its ends.
  compile_edges-some :
      (g : Graph) (es : List Edge) (input_ports : List (List String)) (pass : Pass)
      → Tables node g
      → length g.nodes < 2 ^ 32
      → AllRegistered node g.node_map es
      → (pass' : Pass) × (compile_edges (index_ptrs 0 g.nodes []) input_ports es pass ≡ some pass')
  unfolding compile_edges
  compile_edges-some g [] input_ports pass v small all = (pass, refl)
  compile_edges-some g (e ∷ es) input_ports pass v small all =
      let src = index_in g.nodes e.source in
      let dst = index_in g.nodes e.dest in
      let (pass', h) =
        compile_edges-some g es input_ports (add_out_edge input_ports src dst e pass) v small
          all.1 in
      let lt_src =
        index_lt g.nodes v.distinct e.source (v.known (node e.source).name e.source all.0.0) in
      let lt_dst = index_lt g.nodes v.distinct e.dest (v.known (node e.dest).name e.dest all.0.1) in
      let fine : (eqb src k_invalid_index || eqb dst k_invalid_index) ≡ false =
        ground (arith, small, lt_src, lt_dst) in
      (pass', ground (arith, h, fine))

  Counted-IsGraph :
      (count : ℕ) (pass : Pass)
      → Counted count pass
      → IsGraph (targets pass.out_edges) (indices 0 count) (λ q. get_or pass.in_degree q 0)
  Counted-IsGraph count pass v = record {
    distinct = indices-Distinct 0 count;
    closed = λ u q known pos. ground (arith, contains-indices 0 count q, v.closed u q pos);
    counts = v.counts;
  }

  -- Kahn's algorithm ends, with the order that peeling gives.
  kahn-ends :
      (count : ℕ) (pass : Pass)
      → Counted count pass
      → (order : List ℕ) × (kahn
            (suc count)
            pass.out_edges
            []
            (zero_places 0 pass.in_degree)
            pass.in_degree
          ≡ some (backwards order))
        × Peeled (targets pass.out_edges) (indices 0 count) order
  kahn-ends count pass v =
      let r = λ (q : ℕ). get_or pass.in_degree q 0 in
      let (order, ran, peeled) =
        peel_graph (targets pass.out_edges) (indices 0 count) (suc count) r
          (Counted-IsGraph count pass v) (omega (arith, length-indices 0 count)) in
      let start : zero_places 0 pass.in_degree ≡ zeros r (indices 0 count) =
        zero_places-zeros 0 pass.in_degree r
          (λ k lt. ap (λ i. get_or pass.in_degree i 0) (omega arith))
        ∙ ap (λ n. zeros r (indices 0 n)) v.length_in in
      (
        order,
        kahn-peel_by (suc count) pass.out_edges [] (zero_places 0 pass.in_degree) pass.in_degree
            ∙ ap
                (λ s.
                  Option.map (λ o. backwards o)
                    (peel_by (suc count) (targets pass.out_edges) [] s r))
                start
            ∙ ap (λ o. Option.map (λ o. backwards o) o) ran,
        peeled,
      )

  -- What a run goes through.
  pub record Ran (g : Graph) : Type 0 where
    pub pass : Pass
    pub order : List ℕ
    pub edges :
        compile_edges (index_ptrs 0 g.nodes []) (ports_of g.nodes) g.edges (no_edges g.nodes)
        ≡ some pass
    pub counted : Counted (length g.nodes) pass
    pub peeled : Peeled (targets pass.out_edges) (indices 0 (length g.nodes)) order
    pub result :
        empty g.nodes ≡ false
        → compile node g
          ≡ some (finish node g (length g.nodes) g.nodes (ports_of g.nodes) pass (backwards order))

  compile-indexed :
      (g : Graph)
      → length g.nodes < 2 ^ 32
      → empty g.nodes ≡ false
      → compile node g ≡ compile_indexed node g (length g.nodes) g.nodes
  unfolding compile
  compile-indexed g small some_node =
      rw (some_node, compile)
        (ap (λ n. compile_indexed node g n (take n g.nodes)) (count_nodes-small g.nodes small)
          ∙ ap (compile_indexed node g (length g.nodes)) (take-length g.nodes))

  compile_indexed-lem :
      (g : Graph) (pass : Pass) (topo : List ℕ)
      → compile_edges (index_ptrs 0 g.nodes []) (ports_of g.nodes) g.edges (no_edges g.nodes)
        ≡ some pass
      → kahn (suc (length g.nodes)) pass.out_edges [] (zero_places 0 pass.in_degree) pass.in_degree
        ≡ some topo
      → compile_indexed node g (length g.nodes) g.nodes
        ≡ some (finish node g (length g.nodes) g.nodes (ports_of g.nodes) pass topo)
  unfolding compile_indexed
  compile_indexed-lem g pass topo passed ran = rw (passed, ran, compile_indexed) refl

  pub compile-Ran :
      (g : Graph)
      → Tables node g
      → AllRegistered node g.node_map g.edges
      → length g.nodes < 2 ^ 32
      → Ran g
  compile-Ran g v all small =
      let n = length g.nodes in
      let (pass, passed) =
        compile_edges-some g g.edges (ports_of g.nodes) (no_edges g.nodes) v small all in
      let counted =
        compile_edges-Counted (index_ptrs 0 g.nodes []) (ports_of g.nodes) n g.edges
          (no_edges g.nodes) pass
          (λ p valid. index_lt g.nodes v.distinct p (index_valid g.nodes v.distinct p valid)) passed
          (no_edges-Counted g.nodes) in
      let (order, ran, peeled) = kahn-ends n pass counted in
      record {
        pass = pass;
        order = order;
        edges = passed;
        counted = counted;
        peeled = peeled;
        result = λ some_node.
            compile-indexed g small some_node
            ∙ compile_indexed-lem g pass (backwards order) passed ran;
      }
