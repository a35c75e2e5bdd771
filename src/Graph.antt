-- ===== src/Graph.antt =====
-- `Graph` of src/graph.cpp and include/ai_pipe/graph.hpp. A shared pointer to a node is its address, and a
-- null pointer is `none`. Nodes are code of the user: `node` says what their virtual functions
-- return, and a type index is a number, 0 for `void`. Hash maps are association lists.
mod Steps
pub mod Agreement
pub mod Calls
pub mod Cycle
mod Tests
use Prim.Native.String.{String, ◌++◌ as ◌+++◌}
use ai_pipe.Prelude.{
  ℕ, ◌+◌, Bool, true, false, not, ◌&&◌, ◌||◌, Option, none, some, List, [], ◌∷◌, ◌++◌, map, eqb,
  length, ◌==◌, string_eq, nat_eq, if◌then◌else◌,
}
use ai_pipe.Prelude.Sets.{contains}
use ai_pipe.Prelude.Maps.{lookup, assign}

-- What `ILogicNode` tells of a node.
pub record LogicNode : Type 0 where
  pub name : String
  pub output_ports : List String
  pub input_ports : List String
  pub payload_type : String → ℕ

pub record Edge : Type 0 where
  pub source : ℕ
  pub source_port : String
  pub dest : ℕ
  pub dest_port : String

-- A degree is an `int`: a graph is supposed to have fewer than 2^31 edges.
pub record Graph : Type 0 where
  pub nodes : List ℕ
  pub edges : List Edge
  pub node_map : List (String × ℕ)
  pub successors : List (ℕ × List ℕ)
  pub predecessors : List (ℕ × List ℕ)
  pub in_degree : List (ℕ × ℕ)
  pub edge_keys : List String

unfoldable pub no_graph : Graph
no_graph = record {
  nodes = [];
  edges = [];
  node_map = [];
  successors = [];
  predecessors = [];
  in_degree = [];
  edge_keys = [];
}

abbrev pub get_node : Graph → String → Option ℕ
get_node g name = lookup name g.node_map

-- What the map holds for a key, or the default value.
abbrev pub at_or {ℓ} : {A : Type ℓ} → A → Option A → A
at_or d none = d
at_or d (some a) = a

abbrev pub listed : ℕ → List (ℕ × List ℕ) → List ℕ
listed p m = at_or [] (lookup p m)

abbrev pub counted : ℕ → List (ℕ × ℕ) → ℕ
counted p m = at_or 0 (lookup p m)

-- `getInDegree`, `getOutDegree`, `getOutgoingNeighbors` and `getIncomingNeighbors`
unfoldable pub get_in_degree : Graph → Option ℕ → ℕ
get_in_degree g none = 0
get_in_degree g (some p) = counted p g.in_degree

pub get_out_degree : Graph → Option ℕ → ℕ
get_out_degree g none = 0
get_out_degree g (some p) = length (listed p g.successors)

pub get_outgoing_neighbors : Graph → Option ℕ → List ℕ
get_outgoing_neighbors g none = []
get_outgoing_neighbors g (some p) = listed p g.successors

pub get_incoming_neighbors : Graph → Option ℕ → List ℕ
get_incoming_neighbors g none = []
get_incoming_neighbors g (some p) = listed p g.predecessors

unfoldable pub edges_to : ℕ → List Edge → List Edge
edges_to p [] = []
edges_to p (e ∷ es) = if eqb e.dest p then e ∷ edges_to p es else edges_to p es

unfoldable pub edges_from : ℕ → List Edge → List Edge
edges_from p [] = []
edges_from p (e ∷ es) = if eqb e.source p then e ∷ edges_from p es else edges_from p es

-- No edge has a null end.
pub get_incoming_edges : Graph → Option ℕ → List Edge
get_incoming_edges g none = []
get_incoming_edges g (some p) = edges_to p g.edges

pub get_outgoing_edges : Graph → Option ℕ → List Edge
get_outgoing_edges g none = []
get_outgoing_edges g (some p) = edges_from p g.edges

abbrev pub is_named : String → Bool
is_named port = not (string_eq.same port "")

-- An unnamed port passes; a named one must be declared.
unfoldable pub rejects_port : List String → String → Bool
rejects_port [] port = is_named port
rejects_port (d ∷ ds) port = is_named port && not (contains (d ∷ ds) port)

pub edge_key : String → String → String → String → String
edge_key source source_port dest dest_port =
    source +++ ("\0" +++ (source_port +++ ("\0" +++ (dest +++ ("\0" +++ dest_port)))))

module _ (node : ℕ → LogicNode) where
  unfoldable pub add_node : Graph → Option ℕ → Graph × Bool
  add_node g none = (g, false)
  add_node g (some p) = elim (get_node g (node p).name) [
    | some _ ↦ (g, false)
    | none ↦ (
      record g {
        nodes = g.nodes ++ p ∷ [];
        node_map = assign (node p).name p g.node_map;
        successors = assign p [] g.successors;
        predecessors = assign p [] g.predecessors;
        in_degree = assign p 0 g.in_degree;
      },
      true,
    )
  ]

  -- Both ports are named, both types are known, and the types differ.
  unfoldable pub type_mismatch : ℕ → String → ℕ → String → Bool
  type_mismatch source source_port dest dest_port =
      let sent = (node source).payload_type source_port in
      let taken = (node dest).payload_type dest_port in
      (is_named source_port && is_named dest_port)
      && (not (eqb sent 0) && (not (eqb taken 0) && not (eqb sent taken)))

  -- The guards on the ports, in their order.
  unfoldable pub rejects : ℕ → String → ℕ → String → Bool
  rejects source source_port dest dest_port =
      rejects_port (node source).output_ports source_port
      || (rejects_port (node dest).input_ports dest_port
          || type_mismatch source source_port dest dest_port)

  unfoldable pub connect : Graph → Edge → String → Graph
  connect g e key = record g {
    edges = g.edges ++ e ∷ [];
    successors = assign e.source (listed e.source g.successors ++ e.dest ∷ []) g.successors;
    predecessors = assign e.dest (listed e.dest g.predecessors ++ e.source ∷ []) g.predecessors;
    in_degree = assign e.dest (counted e.dest g.in_degree + 1) g.in_degree;
    edge_keys = key ∷ g.edge_keys;
  }

  unfoldable pub add_edge : Graph → String → String → String → String → Graph × Bool
  add_edge g source_name source_port dest_name dest_port =
      let key = edge_key source_name source_port dest_name dest_port in
      elim (get_node g source_name) [
        | none ↦ (g, false)
        | some source ↦ elim (get_node g dest_name) [
          | none ↦ (g, false)
          | some dest ↦
              let e : Edge = record {
                source = source;
                source_port = source_port;
                dest = dest;
                dest_port = dest_port;
              } in
              let refused = rejects source source_port dest dest_port || contains g.edge_keys key in
              if refused then (g, false) else (connect g e key, true)
        ]
      ]

pub clear : Graph → Graph
clear g = record {
  nodes = [];
  edges = [];
  node_map = [];
  successors = [];
  predecessors = [];
  in_degree = [];
  edge_keys = [];
}
