-- ===== src/Compiled/Loops.antt =====
-- A loop of the graph is a loop of its indices, in include/ai_pipe/compiled_graph.hpp.
use ai_pipe.Prelude.{
  ℕ, ◌^◌, ◌<◌, ◌≡◌, ◌≢◌, refl, sym, ap, subst, ◌∙◌, arith, Bool, true, false, ◌&&◌, Option, none,
  some, List, [], ◌∷◌, ◌++◌, map, length, get_or, get_elem?, nat_eq,
}
use ai_pipe.Prelude.Sets.{contains}
use ai_pipe.Topology.Counting.{occurrences}
use ai_pipe.Topology.Order.{IsLoop}
use ai_pipe.Graph.{LogicNode, Edge, Graph, listed, edges_from}
use ai_pipe.Graph.Agreement.{Agrees}
use ai_pipe.Graph.Cycle.Tables.{Tables}
use ai_pipe.Graph.Cycle.Exact.{LoopOf}
use ai_pipe.Compiled.{indices, index_ptrs, k_invalid_index}
use ai_pipe.Compiled.Vectors.{contains-indices, get_or-filled, length-filled}
use ai_pipe.Compiled.Kahn.{targets}
use ai_pipe.Compiled.Index.{
  index_in, index_known, index_lt, index_at, index_inj, index_valid, get_elem?-some,
}
use ai_pipe.Compiled.Routes.{route, compile_edges-routes}
use ai_pipe.Compiled.Run.{Ran, ports_of, no_edges}

-- The set of the indices of a set of nodes.
abbrev pub at_index : (ℕ → Bool) → Option ℕ → Bool
at_index s none = false
at_index s (some p) = s p

at_index-some :
    (s : ℕ → Bool) (o : Option ℕ) → at_index s o ≡ true → (p : ℕ) × (o ≡ some p) × (s p ≡ true)
at_index-some s none h = cc
at_index-some s (some p) h = (p, refl, h)

module _ (node : ℕ → LogicNode) (g : Graph) (tables : Tables node g) (agrees : Agrees node g)
    (small : length g.nodes < 2 ^ 32) (ran : Ran node g) where
  abbrev index : ℕ → ℕ
  index p = index_in g.nodes p

  abbrev pub succ_of : ℕ → List ℕ
  succ_of i = targets ran.pass.out_edges i

  index-ne : (p : ℕ) → contains g.nodes p ≡ true → index p ≢ k_invalid_index
  index-ne p known h = omega (arith, index_lt g.nodes tables.distinct p known, small, h)

  pub routes :
      (p : ℕ)
      → get_or ran.pass.out_edges (index p) []
        ≡ map (route (index_ptrs 0 g.nodes []) (ports_of node g.nodes)) (edges_from p g.edges)
  routes p =
      compile_edges-routes (index_ptrs 0 g.nodes []) (ports_of node g.nodes)
        (λ q r valid same. index_inj g.nodes tables.distinct q r valid same) g.edges
        (no_edges node g.nodes) ran.pass (length g.nodes) p
        (λ q valid.
          index_lt g.nodes tables.distinct q (index_valid g.nodes tables.distinct q valid))
        (length-filled (length g.nodes) []) ran.edges
      ∙ ap
          (λ l.
            l
            ++ map (route (index_ptrs 0 g.nodes []) (ports_of node g.nodes)) (edges_from p g.edges))
          (get_or-filled (length g.nodes) (index p) [])

  map-route :
      (es : List Edge)
      → map (λ o. o.dest_node) (map (route (index_ptrs 0 g.nodes []) (ports_of node g.nodes)) es)
        ≡ map index (map (λ e. e.dest) es)
  map-route [] = refl
  map-route (e ∷ es) = ap (λ l. index e.dest ∷ l) (map-route es)

  succ_of-index : (p : ℕ) → succ_of (index p) ≡ map index (listed p g.successors)
  succ_of-index p =
      ap (map (λ o. o.dest_node)) (routes p)
      ∙ map-route (edges_from p g.edges)
      ∙ ap (map index) (sym (agrees.out p))

  occurrences-map :
      (q : ℕ) (xs : List ℕ)
      → contains g.nodes q ≡ true
      → occurrences (index q) (map index xs) ≡ occurrences q xs
  unfolding occurrences
  occurrences-map q [] known = refl
  occurrences-map q (x ∷ xs) known =
      let one_way = λ (same : index q ≡ index x).
        index_inj g.nodes tables.distinct q x (index-ne q known) same in
      ground (arith, occurrences-map q xs known, one_way, ap index {x = x} {y = q})

  occurrences-index :
      (p q : ℕ)
      → contains g.nodes q ≡ true
      → occurrences (index q) (succ_of (index p)) ≡ occurrences q (listed p g.successors)
  occurrences-index p q known =
      ap (occurrences (index q)) (succ_of-index p) ∙ occurrences-map q (listed p g.successors) known

  -- The node at an index.
  node_at :
      (i : ℕ)
      → contains (indices 0 (length g.nodes)) i ≡ true
      → (p : ℕ) × (get_elem? g.nodes i ≡ some p)
  node_at i known = get_elem?-some g.nodes i (ground (arith, contains-indices 0 (length g.nodes) i))

  known_at :
      (s : ℕ → Bool)
      → IsLoop succ_of (indices 0 (length g.nodes)) s
      → (i : ℕ) → s i ≡ true
      → (p : ℕ) × (index p ≡ i) × (contains g.nodes p ≡ true)
  known_at s loop i looped =
      let (p, at) = node_at i (loop.1 i looped).0 in
      let (here, known) = index_at g.nodes tables.distinct i p at in (p, here, known)

  pub LoopOf-indices :
      (s : ℕ → Bool)
      → IsLoop succ_of (indices 0 (length g.nodes)) s
      → LoopOf g (λ p. contains g.nodes p && s (index p))
  LoopOf-indices s loop = (
    let (i, looped) = loop.0 in
        let (p, here, known) = known_at s loop i looped in
        (p, ground (arith, known, ap s here, looped)),
    λ p both.
        let (u, also, pos) = (loop.1 (index p) (ground arith)).1 in
        let (q, here, known) = known_at s loop u also in
        let p_known : contains g.nodes p ≡ true = ground arith in
        (
          p_known,
          (
            q,
            ground (arith, known, ap s here, also),
            subst (λ n. 0 < n) (occurrences-index q p p_known)
                (subst (λ k. 0 < occurrences (index p) (succ_of k)) (sym here) pos),
          ),
        ),
  )

  at_index-index :
      (s : ℕ → Bool) (p : ℕ)
      → contains g.nodes p ≡ true
      → s p ≡ true
      → at_index s (get_elem? g.nodes (index p)) ≡ true
  at_index-index s p known h = ap (at_index s) (index_known g.nodes tables.distinct p known) ∙ h

  pub IsLoop-nodes :
      (s : ℕ → Bool)
      → LoopOf g s
      → IsLoop succ_of (indices 0 (length g.nodes)) (λ i. at_index s (get_elem? g.nodes i))
  IsLoop-nodes s loop = (
    (let (p, looped) = loop.0 in (index p, at_index-index s p (loop.1 p looped).0 looped)),
    λ i h.
        let (p, at, looped) = at_index-some s (get_elem? g.nodes i) h in
        let (here, known) = index_at g.nodes tables.distinct i p at in
        let (u, also, pos) = (loop.1 p looped).1 in
        (
          ground (
            arith,
            contains-indices 0 (length g.nodes) i,
            here,
            index_lt g.nodes tables.distinct p known,
          ),
          (
            index u,
            at_index-index s u (loop.1 u also).0 also,
            subst (λ k. 0 < occurrences k (succ_of (index u))) here
                (subst (λ n. 0 < n) (sym (occurrences-index u p known)) pos),
          ),
        ),
  )
