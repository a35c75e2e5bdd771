-- ===== src/Compiled/Edges.antt =====
-- What the pass over the edges of include/ai_pipe/compiled_graph.hpp keeps true.
use Prim.Native.String.{String}
use mathlib.Core.List.{map-append}
use ai_pipe.Prelude.{
  ℕ, ◌+◌, ◌<◌, ◌≡◌, ◌≢◌, sym, ap, subst, ◌∙◌, arith, ◌||◌, some, List, [], ◌∷◌, ◌++◌, map, eqb,
  length, get_or, set, length-set, if◌then◌else◌, Bool-cases, inl, inr, nat_eq, string_eq,
}
use ai_pipe.Topology.Counting.{occurrences, occurrences-end, total, total-bump}
use ai_pipe.Graph.{Edge}
use ai_pipe.Compiled.{
  OutEdge, Pass, indices, index_of_ptr, k_invalid_index, find_port, add_out_edge, compile_edges,
}
use ai_pipe.Compiled.Vectors.{get_or-set, contains-indices, indices-Distinct}
use ai_pipe.Compiled.Kahn.{targets}

-- Every edge leads to an index below `count`, and the degrees count the edges.
pub record Counted (count : ℕ) (pass : Pass) : Type 0 where
  pub length_out : length pass.out_edges ≡ count
  pub length_in : length pass.in_degree ≡ count
  pub closed : (u q : ℕ) → 0 < occurrences q (targets pass.out_edges u) → q < count
  pub counts :
      (q : ℕ)
      → get_or pass.in_degree q 0
        ≡ total (λ u. occurrences q (targets pass.out_edges u)) (indices 0 count)

-- One more outgoing edge of `src`.
occurrences-push :
    (out_edges : List (List OutEdge)) (src u q : ℕ) (out : OutEdge)
    → src < length out_edges
    → occurrences q (targets (set out_edges src (get_or out_edges src [] ++ out ∷ [])) u)
      ≡ occurrences q (targets out_edges u)
        + (if eqb src u then if eqb out.dest_node q then 1 else 0 else 0)
occurrences-push out_edges src u q out lt =
    ap (λ l. occurrences q (map (λ e. e.dest_node) l)) (get_or-set out_edges src u _ [] lt)
    ∙ elim (Bool-cases (eqb src u)) [
      | inl hit ↦
          let e : src ≡ u = ground arith in
          rw hit (
            ap (occurrences q) (map-append (λ e. e.dest_node) (get_or out_edges src []) (out ∷ []))
            ∙ occurrences-end q out.dest_node (targets out_edges src)
            ∙ ap (λ k. occurrences q (targets out_edges k) + (if eqb out.dest_node q then 1 else 0))
                e)
      | inr miss ↦ rw miss (omega arith)
    ]

pub add_out_edge-Counted :
    (input_ports : List (List String)) (count src dst : ℕ) (e : Edge) (pass : Pass)
    → src < count
    → dst < count
    → Counted count pass
    → Counted count (add_out_edge input_ports src dst e pass)
unfolding add_out_edge
add_out_edge-Counted input_ports count src dst e pass lt_src lt_dst v =
    let out : OutEdge = record {
      source_port = e.source_port;
      dest_node = dst;
      dest_port = e.dest_port;
      dest_port_index = find_port e.dest_port 0 (get_or input_ports dst []);
    } in
    let push = λ (u q : ℕ).
      occurrences-push pass.out_edges src u q out (omega (arith, v.length_out, lt_src)) in
    record {
      length_out = length-set pass.out_edges src _ ∙ v.length_out;
      length_in = length-set pass.in_degree dst _ ∙ v.length_in;
      closed = λ u q h. ground (arith, push u q, v.closed u q, lt_dst);
      counts = λ q.
          get_or-set pass.in_degree dst q (get_or pass.in_degree dst 0 + 1) 0
            (omega (arith, v.length_in, lt_dst))
          ∙ sym (
              total-bump (λ u. occurrences q (targets pass.out_edges u)) _ src
                (if eqb dst q then 1 else 0) (indices 0 count) (λ u ne. ground (arith, push u q))
                (ground (arith, push src q)) (indices-Distinct 0 count)
                (ground (arith, contains-indices 0 count src))
              ∙ ground (arith, v.counts q, v.counts dst));
    }

pub compile_edges-Counted :
    (ptrs : List (ℕ × ℕ)) (input_ports : List (List String)) (count : ℕ) (es : List Edge)
    (pass pass' : Pass)
    → ((p : ℕ) → index_of_ptr ptrs p ≢ k_invalid_index → index_of_ptr ptrs p < count)
    → compile_edges ptrs input_ports es pass ≡ some pass'
    → Counted count pass
    → Counted count pass'
unfolding compile_edges
compile_edges-Counted ptrs input_ports count [] pass pass' below h v =
    let same : pass ≡ pass' = cc in subst (Counted count) same v
compile_edges-Counted ptrs input_ports count (e ∷ es) pass pass' below h v =
    let src = index_of_ptr ptrs e.source in
    let dst = index_of_ptr ptrs e.dest in
    elim (Bool-cases (eqb src k_invalid_index || eqb dst k_invalid_index)) [
      | inl bad ↦ cc
      | inr good ↦
          compile_edges-Counted ptrs input_ports count es (add_out_edge input_ports src dst e pass)
            pass' below (ground (arith, h, good))
            (add_out_edge-Counted input_ports count src dst e pass
              (below e.source (λ bad. ground arith)) (below e.dest (λ bad. ground arith)) v)
    ]
