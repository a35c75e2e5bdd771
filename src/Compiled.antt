-- ===== src/Compiled.antt =====
-- `CompiledGraph` of include/ai_pipe/compiled_graph.hpp. A vector is a list that is read and written by index; a
-- port list is supposed to have fewer than 2^32 entries and a graph fewer than 2^31 edges.
mod Vectors
pub mod Kahn
pub mod Edges
pub mod Index
pub mod Routes
pub mod Run
pub mod Ports
pub mod Loops
pub mod Connected
pub mod Correct
mod Tests
use Prim.Native.String.{String, ◌++◌ as ◌+++◌}
use ai_pipe.Prelude.{
  ℕ, zero, suc, ◌+◌, ◌-◌, ◌%◌, ◌^◌, Bool, true, false, not, ◌||◌, Option, none, some, List, [], ◌∷◌,
  ◌++◌, map, eqb, length, get_or, set, take, ◌==◌, string_eq, nat_eq, if◌then◌else◌, ◌>>=◌,
}
use ai_pipe.Prelude.Sets.{contains}
use ai_pipe.Prelude.Maps.{lookup, assign}
use ai_pipe.Errors.{Error, error_of}
use ai_pipe.Errors.Codes.{graph_empty, graph_cycle_detected, internal_error, invalid_configuration}
use ai_pipe.Errors.Results.{Result, has_value, has_error}
use ai_pipe.Graph.{LogicNode, Edge, Graph, at_or}

abbrev pub k_invalid_index : ℕ
k_invalid_index = 4294967295

abbrev pub k_invalid_port : ℕ
k_invalid_port = 4294967295

pub record OutEdge : Type 0 where
  pub source_port : String
  pub dest_node : ℕ
  pub dest_port : String
  pub dest_port_index : ℕ

pub record CompiledGraph : Type 0 where
  pub nodes : List ℕ
  pub name_to_index : List (String × ℕ)
  pub ptr_to_index : List (ℕ × ℕ)
  pub out_edges : List (List OutEdge)
  pub successors : List (List ℕ)
  pub predecessors : List (List ℕ)
  pub in_degree : List ℕ
  pub topo_order : List ℕ
  pub source_nodes : List ℕ
  pub sink_nodes : List ℕ

-- The index type has 32 bits.
pub count_nodes : List ℕ → ℕ
count_nodes nodes = length nodes % 2 ^ 32

abbrev pub empty {ℓ} : {A : Type ℓ} → List A → Bool
empty [] = true
empty (x ∷ xs) = false

abbrev pub filled {ℓ} : {A : Type ℓ} → ℕ → A → List A
filled zero a = []
filled (suc n) a = a ∷ filled n a

-- The indices from `i` on.
abbrev pub indices : ℕ → ℕ → List ℕ
indices i zero = []
indices i (suc n) = i ∷ indices (suc i) n

pub index_ptrs : ℕ → List ℕ → List (ℕ × ℕ) → List (ℕ × ℕ)
index_ptrs i [] m = m
index_ptrs i (p ∷ ps) m = index_ptrs (suc i) ps (assign p i m)

pub index_of_ptr : List (ℕ × ℕ) → ℕ → ℕ
index_of_ptr m p = at_or k_invalid_index (lookup p m)

pub index_of : List (String × ℕ) → String → ℕ
index_of m name = at_or k_invalid_index (lookup name m)

-- What the pass over the edges writes.
pub record Pass : Type 0 where
  pub out_edges : List (List OutEdge)
  pub successors : List (List ℕ)
  pub predecessors : List (List ℕ)
  pub in_degree : List ℕ
  pub port_covered : List (List Bool)

-- The position of the first declared port of that name.
pub find_port : String → ℕ → List String → ℕ
find_port port pi [] = k_invalid_port
find_port port pi (x ∷ xs) = if x == port then pi else find_port port (suc pi) xs

-- A push unless the value is there.
pub push_new : List ℕ → ℕ → List ℕ
push_new xs a = if contains xs a then xs else xs ++ a ∷ []

-- `port_covered[dst][pi] = true`, where a port was found.
pub cover : ℕ → ℕ → List (List Bool) → List (List Bool)
cover dst pi covered =
    if eqb pi k_invalid_port then covered else set covered dst (set (get_or covered dst []) pi true)

-- One round of the pass, between two known indices.
pub add_out_edge : List (List String) → ℕ → ℕ → Edge → Pass → Pass
add_out_edge input_ports src dst e pass =
    let pi = find_port e.dest_port 0 (get_or input_ports dst []) in
    let out : OutEdge = record {
      source_port = e.source_port;
      dest_node = dst;
      dest_port = e.dest_port;
      dest_port_index = pi;
    } in
    record {
      out_edges = set pass.out_edges src (get_or pass.out_edges src [] ++ out ∷ []);
      successors = set pass.successors src (push_new (get_or pass.successors src []) dst);
      predecessors = set pass.predecessors dst (push_new (get_or pass.predecessors dst []) src);
      in_degree = set pass.in_degree dst (get_or pass.in_degree dst 0 + 1);
      port_covered = cover dst pi pass.port_covered;
    }

-- `none`: an edge refers to a node that is not in the graph.
pub compile_edges : List (ℕ × ℕ) → List (List String) → List Edge → Pass → Option Pass
compile_edges ptrs input_ports [] pass = some pass
compile_edges ptrs input_ports (e ∷ es) pass =
    let src = index_of_ptr ptrs e.source in
    let dst = index_of_ptr ptrs e.dest in
    let rest = compile_edges ptrs input_ports es (add_out_edge input_ports src dst e pass) in
    if eqb src k_invalid_index || eqb dst k_invalid_index then none else rest

-- The loop over the outgoing edges of a node. `--remaining[n] == 0` holds exactly when the count was 1; a count at 0 or
-- below never gets there again, so here it stays at 0.
pub lower_out : List OutEdge → List ℕ → List ℕ → List ℕ × List ℕ
lower_out [] ready remaining = (ready, remaining)
lower_out (out ∷ outs) ready remaining =
    let n = out.dest_node in
    let count = get_or remaining n 0 in
    lower_out outs (if eqb count 1 then ready ++ n ∷ [] else ready) (set remaining n (count - 1))

pub kahn : ℕ → List (List OutEdge) → List ℕ → List ℕ → List ℕ → Option (List ℕ)
kahn zero out_edges topo ready remaining = none
kahn (suc fuel) out_edges topo [] remaining = some topo
kahn (suc fuel) out_edges topo (current ∷ ready) remaining =
    let (ready', remaining') = lower_out (get_or out_edges current []) ready remaining in
    kahn fuel out_edges (topo ++ current ∷ []) ready' remaining'

-- The indices of the vector's zeros.
pub zero_places : ℕ → List ℕ → List ℕ
zero_places i [] = []
zero_places i (n ∷ ns) = if eqb n 0 then i ∷ zero_places (suc i) ns else zero_places (suc i) ns

pub empty_places {ℓ} : {A : Type ℓ} → ℕ → List (List A) → List ℕ
empty_places i [] = []
empty_places i (xs ∷ xss) =
    if empty xs then i ∷ empty_places (suc i) xss else empty_places (suc i) xss

-- The first port, of those of one node, that no edge covers.
pub uncovered_port : List String → List Bool → Option String
uncovered_port [] covered = none
uncovered_port (port ∷ ports) [] = some port
uncovered_port (port ∷ ports) (c ∷ covered) = if c then uncovered_port ports covered else some port

-- The node and the port that the validation finds first. A node without incoming edges is not asked.
pub find_uncovered : List ℕ → List (List String) → List ℕ → List (List Bool) → Option (ℕ × String)
find_uncovered (p ∷ ps) (ports ∷ input_ports) (degree ∷ in_degree) (covered ∷ port_covered) =
    let rest = find_uncovered ps input_ports in_degree port_covered in
    if eqb degree 0
    then rest
    else elim (uncovered_port ports covered) [ none ↦ rest | some port ↦ some (p, port) ]
find_uncovered _ _ _ _ = none

module _ (node : ℕ → LogicNode) where
  pub index_names : ℕ → List ℕ → List (String × ℕ) → List (String × ℕ)
  index_names i [] m = m
  index_names i (p ∷ ps) m = index_names (suc i) ps (assign (node p).name i m)

  abbrev pub starve_message : ℕ → String → String
  starve_message p port =
      "Input port '"
      +++ (port
          +++ ("' of node '"
              +++ ((node p).name +++ "' has no incoming edge; the node could never execute")))

  abbrev pub assembled : Graph → List ℕ → Pass → List ℕ → CompiledGraph
  assembled g indexed pass topo = record {
    nodes = g.nodes;
    name_to_index = index_names 0 indexed [];
    ptr_to_index = index_ptrs 0 indexed [];
    out_edges = pass.out_edges;
    successors = pass.successors;
    predecessors = pass.predecessors;
    in_degree = pass.in_degree;
    topo_order = topo;
    source_nodes = zero_places 0 pass.in_degree;
    sink_nodes = empty_places 0 pass.out_edges;
  }

  -- After Kahn's algorithm.
  pub finish : Graph → ℕ → List ℕ → List (List String) → Pass → List ℕ → Result CompiledGraph
  finish g count indexed input_ports pass topo =
      if not (eqb (length topo) count)
      then has_error (error_of graph_cycle_detected "Graph contains a cycle" "")
      else elim (find_uncovered indexed input_ports pass.in_degree pass.port_covered) [
        | some (p, port) ↦
            has_error (error_of invalid_configuration (starve_message p port) (node p).name)
        | none ↦ has_value (assembled g indexed pass topo)
      ]

  -- `indexed` are the nodes with an index below `count`.
  pub compile_indexed : Graph → ℕ → List ℕ → Option (Result CompiledGraph)
  compile_indexed g count indexed =
      let input_ports = map (λ p. (node p).input_ports) indexed in
      let start : Pass = record {
        out_edges = filled count [];
        successors = filled count [];
        predecessors = filled count [];
        in_degree = filled count 0;
        port_covered = map (λ ports. map (λ _. false) ports) input_ports;
      } in
      elim (compile_edges (index_ptrs 0 indexed []) input_ports g.edges start) [
        | none ↦ some (
            has_error
              (error_of internal_error "Edge references a node that is not in the graph" ""))
        | some pass ↦ do
          topo ← kahn (suc count) pass.out_edges [] (zero_places 0 pass.in_degree) pass.in_degree
          some (finish g count indexed input_ports pass topo)
      ]

  pub compile : Graph → Option (Result CompiledGraph)
  compile g =
      if empty g.nodes
      then some (has_error (error_of graph_empty "Graph has no nodes" ""))
      else compile_indexed g (count_nodes g.nodes) (take (count_nodes g.nodes) g.nodes)

-- The queries on a node.
pub is_source : CompiledGraph → ℕ → Bool
is_source cg i = eqb (get_or cg.in_degree i 0) 0

pub is_sink : CompiledGraph → ℕ → Bool
is_sink cg i = empty (get_or cg.out_edges i [])
