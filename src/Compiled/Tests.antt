-- ===== src/Compiled/Tests.antt =====
-- The theorems on compiled graphs at concrete inputs: a source at address 1 and a sink at address 2.
use ai_pipe.Prelude.{
  ℕ, zero, suc, ◌^◌, ◌<◌, ◌≡◌, ◌≢◌, refl, arith, true, some, List, [], ◌∷◌, map, length, get_or,
  get_elem?, nat_eq, string_eq,
}
use ai_pipe.Prelude.Sets.{contains}
use ai_pipe.Prelude.Maps.{lookup, assign}
use ai_pipe.Errors.Results.{has_value}
use ai_pipe.Graph.{
  LogicNode, Edge, Graph, no_graph, edges_from, get_in_degree, add_node, add_edge, connect, rejects,
  rejects_port, type_mismatch, edge_key,
}
use ai_pipe.Graph.Calls.{Call, adds, links, run, step}
use ai_pipe.Compiled.{
  CompiledGraph, count_nodes, index_ptrs, index_of_ptr, find_port, push_new, cover, add_out_edge,
  compile_edges, lower_out, kahn, zero_places, empty_places, uncovered_port, find_uncovered,
  index_names, finish, compile_indexed, compile,
}
use ai_pipe.Compiled.Routes.{route}
use ai_pipe.Compiled.Correct.{CompileOutcome, compile_outcome}
use ai_pipe.Compiled.Connected.{compile_routes, compile_ports}

abbrev node : ℕ → LogicNode
node (suc zero) = record {
  name = "camera";
  output_ports = "out" ∷ [];
  input_ports = [];
  payload_type = λ _. 7;
}
node _ = record {
  name = "display";
  output_ports = [];
  input_ports = "in" ∷ [];
  payload_type = λ _. 7;
}

abbrev history : List Call
history = adds (some 2) ∷ adds (some 1) ∷ links "camera" "out" "display" "in" ∷ []

abbrev link : Edge
link = record { source = 1; source_port = "out"; dest = 2; dest_port = "in" }

abbrev built : Graph
built = record {
  nodes = 2 ∷ 1 ∷ [];
  edges = link ∷ [];
  node_map = ("display", 2) ∷ ("camera", 1) ∷ [];
  successors = (2, []) ∷ (1, 2 ∷ []) ∷ [];
  predecessors = (2, 1 ∷ []) ∷ (1, []) ∷ [];
  in_degree = (2, 1) ∷ (1, 0) ∷ [];
  edge_keys = edge_key "camera" "out" "display" "in" ∷ [];
}

history-built : run node no_graph history ≡ built
unfolding run step no_graph add_node add_edge connect rejects rejects_port type_mismatch contains
    lookup assign
history-built = refl

abbrev compiled : CompiledGraph
compiled = record {
  nodes = 2 ∷ 1 ∷ [];
  name_to_index = ("display", 0) ∷ ("camera", 1) ∷ [];
  ptr_to_index = (2, 0) ∷ (1, 1) ∷ [];
  out_edges =
      []
      ∷ (record { source_port = "out"; dest_node = 0; dest_port = "in"; dest_port_index = 0 } ∷ [])
      ∷ [];
  successors = [] ∷ (0 ∷ []) ∷ [];
  predecessors = (1 ∷ []) ∷ [] ∷ [];
  in_degree = 1 ∷ 0 ∷ [];
  topo_order = 1 ∷ 0 ∷ [];
  source_nodes = 1 ∷ [];
  sink_nodes = 0 ∷ [];
}

built-compiled : compile node built ≡ some (has_value compiled)
unfolding compile compile_indexed finish count_nodes index_ptrs index_of_ptr find_port push_new
    cover add_out_edge compile_edges lower_out kahn zero_places empty_places uncovered_port
    find_uncovered index_names contains lookup assign
built-compiled = refl

history-compiled : compile node (run node no_graph history) ≡ some (has_value compiled)
history-compiled = rw history-built built-compiled

small : length (run node no_graph history).nodes < 2 ^ 32
small = rw history-built (omega arith)

known : contains (run node no_graph history).nodes 2 ≡ true
unfolding contains
known = rw history-built refl

fed : get_in_degree (run node no_graph history) (some 2) ≢ 0
unfolding get_in_degree lookup
fed = rw history-built (λ h. absurd (omega (arith, h)))

compile_outcome_example : CompileOutcome node (run node no_graph history)
compile_outcome_example = compile_outcome node history small

compile_routes_example :
    (get_elem? compiled.nodes (index_of_ptr compiled.ptr_to_index 2) ≡ some 2)
    × (get_or compiled.out_edges (index_of_ptr compiled.ptr_to_index 2) []
        ≡ map
            (route compiled.ptr_to_index (map (λ q. (node q).input_ports) compiled.nodes))
            (edges_from 2 (run node no_graph history).edges))
    × (get_or compiled.in_degree (index_of_ptr compiled.ptr_to_index 2) 0
        ≡ get_in_degree (run node no_graph history) (some 2))
compile_routes_example = compile_routes node history compiled 2 small history-compiled known

compile_ports_example :
    (e : Edge) × (j : ℕ) × (get_elem? (run node no_graph history).edges j ≡ some e)
    × (e.dest ≡ 2)
    × (e.dest_port ≡ "in")
compile_ports_example =
    compile_ports node history compiled 2 0 "in" small history-compiled known fed refl
