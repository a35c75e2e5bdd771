-- ===== src/Compiled/Connected.antt =====
-- The edges and the ports of a compiled graph of include/ai_pipe/compiled_graph.hpp.
use Prim.Native.String.{String}
use ai_pipe.Prelude.{
  ℕ, zero, suc, ◌^◌, ◌<◌, ◌≡◌, ◌≢◌, inl, inr, refl, sym, ap, ◌∙◌, arith, Bool, true, false, ◌||◌,
  none, some, List, [], ◌∷◌, map, eqb, length, get_or, get_elem?, set, length-set, Bool-cases,
  nat_eq,
}
use ai_pipe.Prelude.Sets.{contains}
use ai_pipe.Errors.Results.{has_value}
use ai_pipe.Graph.{LogicNode, Edge, no_graph, edges_from, get_in_degree}
use ai_pipe.Graph.Calls.{Call, run}
use ai_pipe.Graph.Cycle.Tables.{history-Tables}
use ai_pipe.Compiled.{
  CompiledGraph, Pass, index_ptrs, index_of_ptr, k_invalid_index, cover, find_port, add_out_edge,
  compile_edges, find_uncovered, compile,
}
use ai_pipe.Compiled.Vectors.{length-filled, get_or-filled}
use ai_pipe.Compiled.Kahn.{backwards}
use ai_pipe.Compiled.Index.{index_in, index_known, index_lt, index_inj, index_valid}
use ai_pipe.Compiled.Routes.{route, compile_edges-degrees}
use ai_pipe.Compiled.Run.{ports_of, no_edges}
use ai_pipe.Compiled.Loops.{routes}
use ai_pipe.Compiled.Ports.{covered_at, compile_edges-covered, find_uncovered-none}
use ai_pipe.Compiled.Correct.{finish-cases, history-Ran, history-Agrees, nodes-cases, compile-empty}

length-map {ℓ κ} :
    {A : Type ℓ} {B : Type κ} (f : A → B) (xs : List A) → length (map f xs) ≡ length xs
length-map f [] = refl
length-map f (x ∷ xs) = ap suc (length-map f xs)

get_or-map {ℓ κ} :
    {A : Type ℓ} {B : Type κ} (f : A → B) (xs : List A) (i : ℕ) (x : A) (d : B)
    → get_elem? xs i ≡ some x
    → get_or (map f xs) i d ≡ f x
get_or-map f [] i x d h = cc
get_or-map f (y ∷ xs) zero x d h = let same : y ≡ x = cc in ap f same
get_or-map f (y ∷ xs) (suc i) x d h = get_or-map f xs i x d h

get_or-false : (xs : List String) (j : ℕ) → get_or (map (λ _. false) xs) j false ≡ false
get_or-false [] j = refl
get_or-false (x ∷ xs) zero = refl
get_or-false (x ∷ xs) (suc j) = get_or-false xs j

-- No port is covered at the start.
covered_at-start :
    (ports : List (List String)) (i j : ℕ)
    → covered_at (map (λ l. map (λ _. false) l) ports) i j ≡ false
covered_at-start [] i j = refl
covered_at-start (l ∷ ports) zero j = get_or-false l j
covered_at-start (l ∷ ports) (suc i) j = covered_at-start ports i j

length-cover :
    (dst pi : ℕ) (covered : List (List Bool)) → length (cover dst pi covered) ≡ length covered
unfolding cover
length-cover dst pi covered =
    ground (arith, length-set covered dst (set (get_or covered dst []) pi true))

length-port_covered :
    (ptrs : List (ℕ × ℕ)) (ports : List (List String)) (es : List Edge) (pass pass' : Pass)
    → compile_edges ptrs ports es pass ≡ some pass'
    → length pass'.port_covered ≡ length pass.port_covered
unfolding compile_edges add_out_edge
length-port_covered ptrs ports [] pass pass' h =
    let same : pass ≡ pass' = cc in ap (λ x. length x.port_covered) (sym same)
length-port_covered ptrs ports (e ∷ es) pass pass' h =
    let src = index_of_ptr ptrs e.source in
    let dst = index_of_ptr ptrs e.dest in
    elim (Bool-cases (eqb src k_invalid_index || eqb dst k_invalid_index)) [
      | inl bad ↦ cc
      | inr good ↦
          length-port_covered ptrs ports es (add_out_edge ports src dst e pass) pass'
            (ground (arith, h, good))
          ∙ length-cover dst (find_port e.dest_port 0 (get_or ports dst [])) pass.port_covered
    ]

get_or-get_elem? {ℓ} :
    {A : Type ℓ} (xs : List A) (i : ℕ) (x d : A)
    → get_elem? xs i ≡ some x
    → (i < length xs) × (get_or xs i d ≡ x)
get_or-get_elem? [] i x d h = cc
get_or-get_elem? (y ∷ xs) zero x d h = (omega arith, cc)
get_or-get_elem? (y ∷ xs) (suc i) x d h =
    let (lt, same) = get_or-get_elem? xs i x d h in (omega (arith, lt), same)

module _ (node : ℕ → LogicNode) where
  -- What a success says of the run.
  pub record Made (cs : List Call) (small : length (run node no_graph cs).nodes < 2 ^ 32)
      (cg : CompiledGraph) : Type 0 where
    pub nodes : cg.nodes ≡ (run node no_graph cs).nodes
    pub out_edges : cg.out_edges ≡ (history-Ran node cs small).pass.out_edges
    pub in_degree : cg.in_degree ≡ (history-Ran node cs small).pass.in_degree
    pub ptrs : cg.ptr_to_index ≡ index_ptrs 0 (run node no_graph cs).nodes []
    pub fine :
        find_uncovered
          (run node no_graph cs).nodes
          (ports_of node (run node no_graph cs).nodes)
          (history-Ran node cs small).pass.in_degree
          (history-Ran node cs small).pass.port_covered
        ≡ none

  success-Made :
      (cs : List Call) (small : length (run node no_graph cs).nodes < 2 ^ 32) (cg : CompiledGraph)
      → compile node (run node no_graph cs) ≡ some (has_value cg)
      → Made cs small cg
  success-Made cs small cg success =
      let g = run node no_graph cs in
      let ran = history-Ran node cs small in
      elim (nodes-cases node g.nodes) [
        | inl none_there ↦ let (e, failed, _) = compile-empty node g none_there in absurd (cc)
        | inr (_, not_empty) ↦
            let result = ran.result not_empty in
            elim (finish-cases node g (length g.nodes) (ports_of node g.nodes) ran.pass
              (backwards ran.order)) [
                | inl (_, (e, failed, _)) ↦ absurd (cc)
                | inr (_, rest) ↦ elim rest [
                  | inl (e, failed, _, _) ↦ absurd (cc)
                  | inr (made, ok, fine, nodes, outs, ins, ptrs, _) ↦
                      let same : made ≡ cg = cc in
                      record {
                        nodes = ap (λ c. c.nodes) (sym same) ∙ nodes;
                        out_edges = ap (λ c. c.out_edges) (sym same) ∙ outs;
                        in_degree = ap (λ c. c.in_degree) (sym same) ∙ ins;
                        ptrs = ap (λ c. c.ptr_to_index) (sym same) ∙ ptrs;
                        fine = fine;
                      }
                ]
              ]
      ]

  -- When `compile` returns a compiled graph, for a graph with fewer than 2^32 nodes that any history of
  -- calls has built, then for every node: its index finds it, the outgoing edges at its index are its
  -- outgoing edges in their order, with the indices of their ends, and the in-degree at its index is
  -- what `getInDegree` returns.
  pub compile_routes :
      (cs : List Call) (cg : CompiledGraph) (p : ℕ)
      → length (run node no_graph cs).nodes < 2 ^ 32
      → compile node (run node no_graph cs) ≡ some (has_value cg)
      → contains (run node no_graph cs).nodes p ≡ true
      → (get_elem? cg.nodes (index_of_ptr cg.ptr_to_index p) ≡ some p)
        × (get_or cg.out_edges (index_of_ptr cg.ptr_to_index p) []
            ≡ map
                (route cg.ptr_to_index (map (λ q. (node q).input_ports) cg.nodes))
                (edges_from p (run node no_graph cs).edges))
        × (get_or cg.in_degree (index_of_ptr cg.ptr_to_index p) 0
            ≡ get_in_degree (run node no_graph cs) (some p))
  unfolding get_in_degree
  compile_routes cs cg p small success known =
      let g = run node no_graph cs in
      let ran = history-Ran node cs small in
      let tables = history-Tables node cs in
      let agrees = history-Agrees node cs in
      let made = success-Made cs small cg success in
      let degree =
        compile_edges-degrees (index_ptrs 0 g.nodes []) (ports_of node g.nodes)
          (λ q r valid same. index_inj g.nodes tables.distinct q r valid same) g.edges
          (no_edges node g.nodes) ran.pass (length g.nodes) p
          (λ q valid.
            index_lt g.nodes tables.distinct q (index_valid g.nodes tables.distinct q valid))
          (length-filled (length g.nodes) 0) ran.edges in
      rw (made.ptrs, made.nodes, made.out_edges, made.in_degree)
        (
          index_known g.nodes tables.distinct p known,
          routes node g tables agrees small ran p,
          omega (
            arith,
            degree,
            get_or-filled {A = ℕ} (length g.nodes) (index_in g.nodes p) 0,
            agrees.degrees p,
          ),
        )

  -- When `compile` returns a compiled graph, for a graph with fewer than 2^32 nodes that any history of
  -- calls has built, then every declared input port of every node with incoming edges is the end of an
  -- edge.
  pub compile_ports :
      (cs : List Call) (cg : CompiledGraph) (p k : ℕ) (port : String)
      → length (run node no_graph cs).nodes < 2 ^ 32
      → compile node (run node no_graph cs) ≡ some (has_value cg)
      → contains (run node no_graph cs).nodes p ≡ true
      → get_in_degree (run node no_graph cs) (some p) ≢ 0
      → get_elem? (node p).input_ports k ≡ some port
      → (e : Edge) × (j : ℕ) × (get_elem? (run node no_graph cs).edges j ≡ some e)
        × (e.dest ≡ p)
        × (e.dest_port ≡ port)
  compile_ports cs cg p k port small success known some_edge declared =
      let g = run node no_graph cs in
      let ran = history-Ran node cs small in
      let tables = history-Tables node cs in
      let made = success-Made cs small cg success in
      let ptrs = index_ptrs 0 g.nodes [] in
      let ports = ports_of node g.nodes in
      let i = index_in g.nodes p in
      let here = index_known g.nodes tables.distinct p known in
      let (_, _, degree) = compile_routes cs cg p small success known in
      let degree' : get_or ran.pass.in_degree i 0 ≡ get_in_degree g (some p) =
        rw⁻¹ (made.in_degree, made.ptrs) degree in
      let row : get_or ports i [] ≡ (node p).input_ports =
        get_or-map (λ q. (node q).input_ports) g.nodes i p [] here in
      let (lt, named) = get_or-get_elem? (node p).input_ports k port "" declared in
      let covered =
        find_uncovered-none g.nodes ports ran.pass.in_degree ran.pass.port_covered i k
          (length-map _ g.nodes) ran.counted.length_in
          (length-port_covered ptrs ports g.edges (no_edges node g.nodes) ran.pass ran.edges
            ∙ length-map _ ports
            ∙ length-map _ g.nodes)
          made.fine (λ zero_degree. some_edge (sym degree' ∙ zero_degree))
          (omega (arith, lt, ap (λ l. length l) row)) in
      elim (compile_edges-covered ptrs ports g.edges (no_edges node g.nodes) ran.pass i k ran.edges
        covered) [
          | inl before ↦ absurd (cc (before, covered_at-start ports i k))
          | inr (e, j, at, to, name) ↦ (
            e,
            j,
            at,
            sym (
                index_inj g.nodes tables.distinct p e.dest
                  (λ bad. omega (arith, bad, small, index_lt g.nodes tables.distinct p known))
                  (sym to)),
            name ∙ ap (λ l. get_or l k "") row ∙ named,
          )
        ]
