-- ===== src/Graph/Calls.antt =====
-- Histories of calls of a graph: what they keep true, and what one call does.
use Prim.Native.String.{String}
use ai_pipe.Prelude.{
  ℕ, suc, ◌≡◌, refl, ap, ◌∙◌, arith, Bool, true, false, ◌&&◌, ◌||◌, ◌⊎◌, Option, none, some, List,
  [], ◌∷◌, ◌++◌, map, length, ◌==◌, string_eq, nat_eq, if◌then◌else◌, Option-cases, Bool-cases, inl,
  inr,
}
use text.Mathlib.TextEquality.{eq_iff}
use ai_pipe.Prelude.Sets.{contains}
use ai_pipe.Prelude.Maps.{lookup, lookup-assign}
use ai_pipe.Graph.{
  LogicNode, Graph, no_graph, get_node, edges_to, edges_from, rejects, edge_key, add_node, connect,
  add_edge, clear, get_in_degree, get_out_degree, get_outgoing_neighbors, get_incoming_neighbors,
  get_incoming_edges, get_outgoing_edges,
}
use ai_pipe.Graph.Agreement.{Agrees, add_node-Agrees, add_edge-Agrees}

-- The calls that change a graph.
pub data Call : Type 0 where
  adds : Option ℕ → Call
  links : String → String → String → String → Call
  clears : Call

abbrev pub keeps : Call → Bool
keeps clears = false
keeps (adds p) = true
keeps (links a pa b pb) = true

-- No call of the history clears the graph.
abbrev pub all_keep : List Call → Bool
all_keep [] = true
all_keep (c ∷ cs) = keeps c && all_keep cs

length-map {ℓ κ} :
    {A : Type ℓ} {B : Type κ} (f : A → B) (xs : List A) → length (map f xs) ≡ length xs
length-map f [] = refl
length-map f (x ∷ xs) = ap suc (length-map f xs)

module _ (node : ℕ → LogicNode) where
  unfoldable pub step : Graph → Call → Graph
  step g (adds p) = (add_node node g p).0
  step g (links a pa b pb) = (add_edge node g a pa b pb).0
  step g clears = clear g

  unfoldable pub run : Graph → List Call → Graph
  run g [] = g
  run g (c ∷ cs) = run (step g c) cs

  -- A graph without edges agrees with its tables.
  pub no_graph-Agrees : Agrees node no_graph
  unfolding no_graph lookup edges_to edges_from
  no_graph-Agrees = record {
    named = λ s p e. absurd (cc);
    registered = tt;
    degrees = λ p. refl;
    out = λ p. refl;
    into = λ p. refl;
  }

  pub run-Agrees : (g : Graph) (cs : List Call) → Agrees node g → Agrees node (run g cs)
  unfolding run step clear no_graph
  run-Agrees g [] v = v
  run-Agrees g (adds p ∷ cs) v = run-Agrees (add_node node g p).0 cs (add_node-Agrees node g p v)
  run-Agrees g (links a pa b pb ∷ cs) v =
      run-Agrees (add_edge node g a pa b pb).0 cs (add_edge-Agrees node g a pa b pb v)
  run-Agrees g (clears ∷ cs) v = run-Agrees (clear g) cs no_graph-Agrees

  -- After any history of calls of an empty graph, for every node: the in-degree and the out-degree are
  -- the numbers of incoming and of outgoing edges, and the adjacency lists are the ends of those
  -- edges, in the order in which the edges were added.
  pub run_agreement :
      (cs : List Call) (p : ℕ)
      → (get_in_degree (run no_graph cs) (some p)
          ≡ length (get_incoming_edges (run no_graph cs) (some p)))
        × (get_out_degree (run no_graph cs) (some p)
            ≡ length (get_outgoing_edges (run no_graph cs) (some p)))
        × (get_outgoing_neighbors (run no_graph cs) (some p)
            ≡ map (λ e. e.dest) (get_outgoing_edges (run no_graph cs) (some p)))
        × (get_incoming_neighbors (run no_graph cs) (some p)
            ≡ map (λ e. e.source) (get_incoming_edges (run no_graph cs) (some p)))
  unfolding get_in_degree get_out_degree get_outgoing_neighbors get_incoming_neighbors
      get_incoming_edges get_outgoing_edges
  run_agreement cs p =
      let v = run-Agrees no_graph cs no_graph-Agrees in
      (
        v.degrees p,
        ap (λ l. length l) (v.out p) ∙ length-map _ (edges_from p (run no_graph cs).edges),
        v.out p,
        v.into p,
      )

  -- `addNode` refuses a null node and a name that is taken, and then changes nothing. Otherwise it
  -- returns true, the name finds the node, every other name finds what it found, and no edge is new.
  pub add_node_lem :
      (g : Graph) (o : Option ℕ)
      → (((o ≡ none) ⊎ ((p q : ℕ) × (o ≡ some p) × (get_node g (node p).name ≡ some q)))
          × (add_node node g o ≡ (g, false)))
        ⊎ ((p : ℕ) × (o ≡ some p)
            × (get_node g (node p).name ≡ none)
            × ((add_node node g o).1 ≡ true)
            × ((add_node node g o).0.nodes ≡ g.nodes ++ p ∷ [])
            × ((add_node node g o).0.edges ≡ g.edges)
            × ((name : String)
                → get_node (add_node node g o).0 name
                  ≡ (if (node p).name == name then some p else get_node g name)))
  unfolding add_node
  add_node_lem g none = inl (inl refl, refl)
  add_node_lem g (some p) = elim (Option-cases (get_node g (node p).name)) [
    | inr (q, e) ↦ inl (inr (p, q, refl, e), rw (e, add_node))
    | inl new ↦ inr (
      p,
      refl,
      new,
      rw (new, add_node),
      rw (new, add_node),
      rw (new, add_node),
      λ name. rw (new, add_node) (lookup-assign (node p).name name p g.node_map),
    )
  ]

  -- `addEdge` refuses an edge with an unknown end, with a port or a type that does not fit, or with the key
  -- of an earlier edge, and then changes nothing. Otherwise it returns true, and the edges are those
  -- that there were and the new one, between the nodes of the two names.
  pub add_edge_lem :
      (g : Graph) (a pa b pb : String)
      → (((get_node g a ≡ none)
            ⊎ ((get_node g b ≡ none)
                ⊎ ((p q : ℕ) × (get_node g a ≡ some p)
                    × (get_node g b ≡ some q)
                    × ((rejects node p pa q pb || contains g.edge_keys (edge_key a pa b pb))
                        ≡ true))))
          × (add_edge node g a pa b pb ≡ (g, false)))
        ⊎ ((p q : ℕ) × (get_node g a ≡ some p)
            × (get_node g b ≡ some q)
            × ((rejects node p pa q pb || contains g.edge_keys (edge_key a pa b pb)) ≡ false)
            × ((add_edge node g a pa b pb).1 ≡ true)
            × ((add_edge node g a pa b pb).0.nodes ≡ g.nodes)
            × ((add_edge node g a pa b pb).0.edges
                ≡ g.edges
                  ++ record { source = p; source_port = pa; dest = q; dest_port = pb } ∷ []))
  unfolding add_edge connect
  add_edge_lem g a pa b pb = elim (Option-cases (get_node g a)) [
    | inl e ↦ inl (inl e, rw (e, add_edge))
    | inr (p, e) ↦ elim (Option-cases (get_node g b)) [
      | inl f ↦ inl (inr (inl f), rw (e, f, add_edge))
      | inr (q, f) ↦
          elim (Bool-cases (rejects node p pa q pb || contains g.edge_keys (edge_key a pa b pb))) [
            | inl refused ↦ inl (inr (inr (p, q, e, f, refused)), rw (e, f, refused, add_edge))
            | inr fine ↦ inr (
              p,
              q,
              e,
              f,
              fine,
              rw (e, f, fine, add_edge),
              rw (e, f, fine, add_edge),
              rw (e, f, fine, add_edge),
            )
          ]
    ]
  ]

  add_edge-keys :
      (g : Graph) (a pa b pb k : String)
      → contains g.edge_keys k ≡ true
      → contains (add_edge node g a pa b pb).0.edge_keys k ≡ true
  unfolding add_edge connect contains
  add_edge-keys g a pa b pb k h = ground (arith, h)

  add_node-keys : (g : Graph) (o : Option ℕ) → (add_node node g o).0.edge_keys ≡ g.edge_keys
  unfolding add_node
  add_node-keys g none = refl
  add_node-keys g (some p) = ground arith

  -- A key stays until the graph is cleared.
  run-keys :
      (g : Graph) (cs : List Call) (k : String)
      → all_keep cs ≡ true
      → contains g.edge_keys k ≡ true
      → contains (run g cs).edge_keys k ≡ true
  unfolding run step add_node
  run-keys g [] k keep h = h
  run-keys g (adds o ∷ cs) k keep h =
      run-keys (add_node node g o).0 cs k keep (ap (λ ks. contains ks k) (add_node-keys g o) ∙ h)
  run-keys g (links a pa b pb ∷ cs) k keep h =
      run-keys (add_edge node g a pa b pb).0 cs k keep (add_edge-keys g a pa b pb k h)
  run-keys g (clears ∷ cs) k keep h = cc

  add_edge-known :
      (g : Graph) (a pa b pb : String)
      → contains g.edge_keys (edge_key a pa b pb) ≡ true
      → add_edge node g a pa b pb ≡ (g, false)
  unfolding add_edge
  add_edge-known g a pa b pb h = ground (arith, h)

  add_edge-key :
      (g : Graph) (a pa b pb : String)
      → (add_edge node g a pa b pb).1 ≡ true
      → contains (add_edge node g a pa b pb).0.edge_keys (edge_key a pa b pb) ≡ true
  unfolding add_edge connect contains
  add_edge-key g a pa b pb h = ground (arith, eq_iff (edge_key a pa b pb) (edge_key a pa b pb))

  -- Once `addEdge` has accepted an edge, it refuses the same edge and changes nothing, whatever was
  -- added in between, as long as the graph was not cleared.
  pub edge_once :
      (g : Graph) (a pa b pb : String) (cs : List Call)
      → (add_edge node g a pa b pb).1 ≡ true
      → all_keep cs ≡ true
      → add_edge node (run (add_edge node g a pa b pb).0 cs) a pa b pb
        ≡ (run (add_edge node g a pa b pb).0 cs, false)
  edge_once g a pa b pb cs accepted keep =
      add_edge-known (run (add_edge node g a pa b pb).0 cs) a pa b pb (
        run-keys (add_edge node g a pa b pb).0 cs (edge_key a pa b pb) keep
          (add_edge-key g a pa b pb accepted))
