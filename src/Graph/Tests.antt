-- ===== src/Graph/Tests.antt =====
-- The theorems on graphs at concrete inputs: a source at address 1 and a sink at address 2.
use ai_pipe.Prelude.{ℕ, zero, suc, ◌≡◌, Option, some, List, [], ◌∷◌, map, length, string_eq}
use ai_pipe.Graph.{
  LogicNode, no_graph, get_in_degree, get_out_degree, get_outgoing_neighbors,
  get_incoming_neighbors, get_incoming_edges, get_outgoing_edges,
}
use ai_pipe.Graph.Cycle.Exact.{Decided, has_cycle_exact}
use ai_pipe.Graph.Calls.{Call, adds, links, run, run_agreement}

abbrev node : ℕ → LogicNode
node (suc zero) = record {
  name = "camera";
  output_ports = "out" ∷ [];
  input_ports = [];
  payload_type = λ _. 7;
}
node _ = record {
  name = "display";
  output_ports = [];
  input_ports = "in" ∷ [];
  payload_type = λ _. 7;
}

abbrev camera : Option ℕ
camera = some 1

abbrev history : List Call
history = adds (some 1) ∷ adds (some 2) ∷ links "camera" "out" "display" "in" ∷ []

run_agreement_example :
    (get_in_degree (run node no_graph history) (some 2)
      ≡ length (get_incoming_edges (run node no_graph history) (some 2)))
    × (get_out_degree (run node no_graph history) (some 2)
        ≡ length (get_outgoing_edges (run node no_graph history) (some 2)))
    × (get_outgoing_neighbors (run node no_graph history) (some 2)
        ≡ map (λ e. e.dest) (get_outgoing_edges (run node no_graph history) (some 2)))
    × (get_incoming_neighbors (run node no_graph history) (some 2)
        ≡ map (λ e. e.source) (get_incoming_edges (run node no_graph history) (some 2)))
run_agreement_example = run_agreement node history 2

has_cycle_exact_example : Decided (run node no_graph history)
has_cycle_exact_example = has_cycle_exact node history
