-- ===== src/Graph/Cycle/Tables.antt =====
-- The tables of a graph of src/graph.cpp, seen as successors and counts of edges.
use Prim.Native.String.{String}
use text.Mathlib.TextEquality.{eq_iff}
use ai_pipe.Prelude.{
  ℕ, ◌+◌, ◌<◌, ◌≡◌, refl, ap, ◌∙◌, arith, true, false, none, some, List, [], ◌∷◌, ◌++◌, eqb,
  if◌then◌else◌, nat_eq, string_eq, ◌||◌, Bool-cases, Option-cases, inl, inr,
}
use ai_pipe.Prelude.Sets.{contains}
use ai_pipe.Prelude.Maps.{lookup, assign, lookup-assign, Distinct}
use ai_pipe.Topology.Counting.{
  occurrences, occurrences-end, total, total-same, total-bump, total-positive,
}
use ai_pipe.Topology.Peel.{Distinct-end, contains-end}
use ai_pipe.Topology.Order.{IsGraph}
use ai_pipe.Graph.{
  LogicNode, Edge, Graph, no_graph, get_node, counted, listed, add_node, connect, add_edge, clear,
  rejects, edge_key,
}
use ai_pipe.Graph.Steps.{at_or-assign}
use ai_pipe.Graph.Calls.{Call, adds, links, clears, step, run}

total-end : (f : ℕ → ℕ) (p : ℕ) (xs : List ℕ) → total f (xs ++ p ∷ []) ≡ total f xs + f p
unfolding total
total-end f p [] = omega arith
total-end f p (x ∷ xs) = omega (arith, total-end f p xs)

-- A node with a new, empty list has no edge to any other.
occurrences-fresh :
    (q p u : ℕ) (m : List (ℕ × List ℕ))
    → occurrences q (listed u (assign p [] m)) ≡ (if eqb p u then 0 else occurrences q (listed u m))
unfolding occurrences
occurrences-fresh q p u m =
    ap (occurrences q) (at_or-assign [] p u [] m)
    ∙ elim (Bool-cases (eqb p u)) [ inl hit ↦ rw hit refl | inr miss ↦ rw miss refl ]

abbrev edges_between : Graph → ℕ → ℕ → ℕ
edges_between g q u = occurrences q (listed u g.successors)

module _ (node : ℕ → LogicNode) where
  pub record Tables (g : Graph) : Type 0 where
    pub distinct : Distinct g.nodes
    pub known : (s : String) (p : ℕ) → lookup s g.node_map ≡ some p → contains g.nodes p ≡ true
    pub named : (p : ℕ) → contains g.nodes p ≡ true → lookup (node p).name g.node_map ≡ some p
    pub closed : (u q : ℕ) → 0 < edges_between g q u → contains g.nodes q ≡ true
    pub counts : (q : ℕ) → counted q g.in_degree ≡ total (edges_between g q) g.nodes

  no_graph-Tables : Tables no_graph
  unfolding no_graph lookup contains occurrences total
  no_graph-Tables = record {
    distinct = tt;
    known = λ s p e. absurd (cc);
    named = λ p h. absurd (cc);
    closed = λ u q h. absurd (omega (arith, h));
    counts = λ q. refl;
  }

  -- Nothing leads to a node that is not in the graph.
  unknown-counts :
      (g : Graph) (q : ℕ) → Tables g → contains g.nodes q ≡ false → counted q g.in_degree ≡ 0
  unknown-counts g q v out = elim (Bool-cases (eqb (counted q g.in_degree) 0)) [
    | inl zero_count ↦ ground arith
    | inr more ↦
        let (u, here, pos) =
          total-positive (edges_between g q) g.nodes (ground (arith, v.counts q)) in
        absurd (ground (arith, v.closed u q pos))
  ]

  add_node-Tables : (g : Graph) (p : ℕ) → Tables g → Tables (add_node node g (some p)).0
  unfolding add_node
  add_node-Tables g p v = elim (Option-cases (get_node g (node p).name)) [
    | inr (q, e) ↦ rw (e, add_node) v
    | inl new ↦
        let out : contains g.nodes p ≡ false = ground (arith, v.named p) in
        let rest = λ (q : ℕ).
          total-same (edges_between g q) (λ u. occurrences q (listed u (assign p [] g.successors)))
            p g.nodes (λ u ne. ground (arith, occurrences-fresh q p u g.successors)) out in
        rw (new, add_node)
          (record {
            distinct = Distinct-end g.nodes p out v.distinct;
            known = λ s q e. ground (
              arith,
              contains-end g.nodes p q,
              lookup-assign (node p).name s p g.node_map,
              v.known s q,
            );
            named = λ q h. ground (
              arith,
              contains-end g.nodes p q,
              lookup-assign (node p).name (node q).name p g.node_map,
              eq_iff (node p).name (node q).name,
              v.named q,
            );
            closed = λ u q h. ground (
              arith,
              contains-end g.nodes p q,
              occurrences-fresh q p u g.successors,
              v.closed u q,
            );
            counts = λ q. ground (
              arith,
              at_or-assign 0 p q 0 g.in_degree,
              rest q,
              v.counts q,
              unknown-counts g p v out,
              total-end (λ u. occurrences q (listed u (assign p [] g.successors))) p g.nodes,
              occurrences-fresh q p p g.successors,
            );
          })
  ]

  connect-Tables :
      (g : Graph) (e : Edge) (key : String)
      → Tables g
      → contains g.nodes e.source ≡ true
      → contains g.nodes e.dest ≡ true
      → Tables (connect node g e key)
  unfolding connect
  connect-Tables g e key v from_known to_known =
      let targets = listed e.source g.successors ++ e.dest ∷ [] in
      let entry = λ (u : ℕ). at_or-assign [] e.source u targets g.successors in
      let more = λ (q : ℕ). occurrences-end q e.dest (listed e.source g.successors) in
      record {
        distinct = v.distinct;
        known = v.known;
        named = v.named;
        closed = λ u q h. ground (arith, entry u, more q, v.closed u q, v.closed e.source q);
        counts = λ q. ground (
          arith,
          at_or-assign 0 e.dest q (counted e.dest g.in_degree + 1) g.in_degree,
          v.counts q,
          v.counts e.dest,
          total-bump (edges_between g q)
              (λ u. occurrences q (listed u (assign e.source targets g.successors))) e.source
              (if eqb e.dest q then 1 else 0) g.nodes (λ u ne. ground (arith, entry u))
              (ground (arith, entry e.source, more q)) v.distinct from_known,
        );
      }

  add_edge-Tables :
      (g : Graph) (a pa b pb : String) → Tables g → Tables (add_edge node g a pa b pb).0
  unfolding add_edge
  add_edge-Tables g a pa b pb v = elim (Option-cases (get_node g a)) [
    | inl e ↦ rw (e, add_edge) v
    | inr (p, e) ↦ elim (Option-cases (get_node g b)) [
      | inl f ↦ rw (e, f, add_edge) v
      | inr (q, f) ↦
          elim (Bool-cases (rejects node p pa q pb || contains g.edge_keys (edge_key a pa b pb))) [
            | inl refused ↦ rw (e, f, refused, add_edge) v
            | inr fine ↦
                rw (e, f, fine, add_edge)
                  (connect-Tables g
                    (record { source = p; source_port = pa; dest = q; dest_port = pb })
                    (edge_key a pa b pb) v (v.known a p e) (v.known b q f))
          ]
    ]
  ]

  pub run-Tables : (g : Graph) (cs : List Call) → Tables g → Tables (run node g cs)
  unfolding run step add_node clear no_graph
  run-Tables g [] v = v
  run-Tables g (adds none ∷ cs) v = run-Tables g cs v
  run-Tables g (adds (some p) ∷ cs) v =
      run-Tables (add_node node g (some p)).0 cs (add_node-Tables g p v)
  run-Tables g (links a pa b pb ∷ cs) v =
      run-Tables (add_edge node g a pa b pb).0 cs (add_edge-Tables g a pa b pb v)
  run-Tables g (clears ∷ cs) v = run-Tables (clear g) cs no_graph-Tables

  pub history-Tables : (cs : List Call) → Tables (run node no_graph cs)
  history-Tables cs = run-Tables no_graph cs no_graph-Tables

  pub Tables-IsGraph :
      (g : Graph)
      → Tables g
      → IsGraph (λ u. listed u g.successors) g.nodes (λ q. counted q g.in_degree)
  Tables-IsGraph g v = record {
    distinct = v.distinct;
    closed = λ u q h pos. v.closed u q pos;
    counts = v.counts;
  }
