-- ===== src/Compiled/Routes.antt =====
-- The routes of include/ai_pipe/compiled_graph.hpp are the edges of the graph, at the indices of their ends.
use Prim.Native.String.{String}
use mathlib.Core.List.{append-nil, append_assoc}
use ai_pipe.Prelude.{
  ℕ, ◌+◌, ◌<◌, ◌≡◌, ◌≢◌, sym, ap, ◌∙◌, arith, false, ◌||◌, some, List, [], ◌∷◌, ◌++◌, map, eqb,
  length, get_or, length-set, Bool-cases, inl, inr, nat_eq,
}
use ai_pipe.Graph.{Edge, edges_from, edges_to}
use ai_pipe.Compiled.{
  OutEdge, Pass, index_of_ptr, k_invalid_index, find_port, add_out_edge, compile_edges,
}
use ai_pipe.Compiled.Vectors.{get_or-set}

module _ (ptrs : List (ℕ × ℕ)) (input_ports : List (List String)) where
  abbrev pub index : ℕ → ℕ
  index p = index_of_ptr ptrs p

  -- An edge as its source routes it.
  abbrev pub route : Edge → OutEdge
  route e = record {
    source_port = e.source_port;
    dest_node = index e.dest;
    dest_port = e.dest_port;
    dest_port_index = find_port e.dest_port 0 (get_or input_ports (index e.dest) []);
  }

  module _ (inj : (p q : ℕ) → index p ≢ k_invalid_index → index p ≡ index q → p ≡ q) where
    pub compile_edges-routes :
        (es : List Edge) (pass pass' : Pass) (count p : ℕ)
        → ((q : ℕ) → index q ≢ k_invalid_index → index q < count)
        → length pass.out_edges ≡ count
        → compile_edges ptrs input_ports es pass ≡ some pass'
        → get_or pass'.out_edges (index p) []
          ≡ get_or pass.out_edges (index p) [] ++ map route (edges_from p es)
    unfolding compile_edges edges_from add_out_edge
    compile_edges-routes [] pass pass' count p below len h =
        let same : pass ≡ pass' = cc in
        ap (λ x. get_or x.out_edges (index p) []) (sym same) ∙ sym (append-nil _)
    compile_edges-routes (e ∷ es) pass pass' count p below len h =
        elim (Bool-cases
          (eqb (index e.source) k_invalid_index || eqb (index e.dest) k_invalid_index)) [
            | inl bad ↦ cc
            | inr good ↦
                let valid : index e.source ≢ k_invalid_index = λ bad. ground arith in
                let next = add_out_edge input_ports (index e.source) (index e.dest) e pass in
                let rest =
                  compile_edges-routes es next pass' count p below
                    (length-set pass.out_edges (index e.source) _ ∙ len)
                    (ground (arith, h, good)) in
                let put =
                  get_or-set pass.out_edges (index e.source) (index p)
                    (get_or pass.out_edges (index e.source) [] ++ route e ∷ []) []
                    (omega (arith, len, below e.source valid)) in
                let tail = map route (edges_from p es) in
                elim (Bool-cases (eqb e.source p)) [
                  | inl hit ↦
                      let same : e.source ≡ p = ground arith in
                      let here : get_or next.out_edges (index p) []
                          ≡ get_or pass.out_edges (index p) [] ++ route e ∷ [] =
                        ground (
                          arith,
                          put,
                          ap index same,
                          ap (λ q. get_or pass.out_edges (index q) []) same,
                        ) in
                      rw hit (rest ∙ ap (λ l. l ++ tail) here ∙ append_assoc _ (route e ∷ []) tail)
                  | inr miss ↦
                      let apart : eqb (index e.source) (index p) ≡ false =
                        ground (arith, inj e.source p valid) in
                      let here : get_or next.out_edges (index p) []
                          ≡ get_or pass.out_edges (index p) [] =
                        ground (arith, put, apart) in
                      rw miss (rest ∙ ap (λ l. l ++ tail) here)
                ]
          ]

    pub compile_edges-degrees :
        (es : List Edge) (pass pass' : Pass) (count p : ℕ)
        → ((q : ℕ) → index q ≢ k_invalid_index → index q < count)
        → length pass.in_degree ≡ count
        → compile_edges ptrs input_ports es pass ≡ some pass'
        → get_or pass'.in_degree (index p) 0
          ≡ get_or pass.in_degree (index p) 0 + length (edges_to p es)
    unfolding compile_edges edges_to add_out_edge
    compile_edges-degrees [] pass pass' count p below len h =
        let same : pass ≡ pass' = cc in
        ap (λ x. get_or x.in_degree (index p) 0) (sym same) ∙ omega arith
    compile_edges-degrees (e ∷ es) pass pass' count p below len h =
        elim (Bool-cases
          (eqb (index e.source) k_invalid_index || eqb (index e.dest) k_invalid_index)) [
            | inl bad ↦ cc
            | inr good ↦
                let valid : index e.dest ≢ k_invalid_index = λ bad. ground arith in
                let next = add_out_edge input_ports (index e.source) (index e.dest) e pass in
                let rest =
                  compile_edges-degrees es next pass' count p below
                    (length-set pass.in_degree (index e.dest) _ ∙ len) (ground (arith, h, good)) in
                let put =
                  get_or-set pass.in_degree (index e.dest) (index p)
                    (get_or pass.in_degree (index e.dest) 0 + 1) 0
                    (omega (arith, len, below e.dest valid)) in
                elim (Bool-cases (eqb e.dest p)) [
                  | inl hit ↦
                      let same : e.dest ≡ p = ground arith in
                      rw hit (
                        ground (
                          arith,
                          rest,
                          put,
                          ap index same,
                          ap (λ q. get_or pass.in_degree (index q) 0) same,
                        ))
                  | inr miss ↦
                      let apart : eqb (index e.dest) (index p) ≡ false =
                        ground (arith, inj e.dest p valid) in
                      rw miss (ground (arith, rest, put, apart))
                ]
          ]
