-- ===== src/Graph/Agreement.antt =====
-- The degrees and the adjacency lists of a graph agree with its edges.
use Prim.Native.String.{String}
use text.Mathlib.TextEquality.{eq_iff}
use ai_pipe.Prelude.{
  ℕ, ◌≡◌, refl, sym, ap, subst, arith, ◌||◌, Option, none, some, List, [], ◌∷◌, ◌++◌, map, length,
  string_eq, nat_eq, Option-cases, Bool-cases, inl, inr,
}
use ai_pipe.Prelude.Sets.{contains}
use ai_pipe.Prelude.Maps.{lookup, assign, lookup-assign}
use ai_pipe.Graph.{
  LogicNode, Edge, Graph, get_node, listed, counted, edges_to, edges_from, rejects, edge_key,
  add_node, connect, add_edge,
}
use ai_pipe.Graph.Steps.{degree_step, out_step, into_step, fresh_entry}

module _ (node : ℕ → LogicNode) where
  abbrev pub IsRegistered : List (String × ℕ) → ℕ → Type 0
  IsRegistered m p = lookup (node p).name m ≡ some p

  -- Both ends of every edge are registered under their names.
  abbrev pub AllRegistered : List (String × ℕ) → List Edge → Type 0
  AllRegistered m [] = Unit {0}
  AllRegistered m (e ∷ es) = (IsRegistered m e.source × IsRegistered m e.dest) × AllRegistered m es

  AllRegistered-append :
      (m : List (String × ℕ)) (es : List Edge) (e : Edge)
      → AllRegistered m es
      → IsRegistered m e.source
      → IsRegistered m e.dest
      → AllRegistered m (es ++ e ∷ [])
  AllRegistered-append m [] e v s d = ((s, d), tt)
  AllRegistered-append m (f ∷ es) e v s d = (v.0, AllRegistered-append m es e v.1 s d)

  -- A new name hides no other.
  IsRegistered-assign :
      (m : List (String × ℕ)) (p q : ℕ)
      → lookup (node q).name m ≡ none
      → IsRegistered m p
      → IsRegistered (assign (node q).name q m) p
  IsRegistered-assign m p q new h =
      ground
        (arith, lookup-assign (node q).name (node p).name q m, eq_iff (node q).name (node p).name)

  AllRegistered-assign :
      (m : List (String × ℕ)) (es : List Edge) (q : ℕ)
      → lookup (node q).name m ≡ none
      → AllRegistered m es
      → AllRegistered (assign (node q).name q m) es
  AllRegistered-assign m [] q new v = tt
  AllRegistered-assign m (e ∷ es) q new v = (
    (IsRegistered-assign m e.source q new v.0.0, IsRegistered-assign m e.dest q new v.0.1),
    AllRegistered-assign m es q new v.1,
  )

  -- No edge meets a node that is not registered.
  edges_to-new :
      (m : List (String × ℕ)) (es : List Edge) (q : ℕ)
      → lookup (node q).name m ≡ none
      → AllRegistered m es
      → edges_to q es ≡ []
  unfolding edges_to
  edges_to-new m [] q new v = refl
  edges_to-new m (e ∷ es) q new v = ground (arith, edges_to-new m es q new v.1, v.0.1)

  edges_from-new :
      (m : List (String × ℕ)) (es : List Edge) (q : ℕ)
      → lookup (node q).name m ≡ none
      → AllRegistered m es
      → edges_from q es ≡ []
  unfolding edges_from
  edges_from-new m [] q new v = refl
  edges_from-new m (e ∷ es) q new v = ground (arith, edges_from-new m es q new v.1, v.0.0)

  abbrev Named : List (String × ℕ) → Type 0
  Named m = (s : String) (p : ℕ) → lookup s m ≡ some p → (node p).name ≡ s

  Named-assign : (m : List (String × ℕ)) (p : ℕ) → Named m → Named (assign (node p).name p m)
  Named-assign m p v s q e =
      ground (arith, lookup-assign (node p).name s p m, eq_iff (node p).name s, v s q)

  -- What every history of calls keeps true.
  pub record Agrees (g : Graph) : Type 0 where
    pub named : Named g.node_map
    pub registered : AllRegistered g.node_map g.edges
    pub degrees : (p : ℕ) → counted p g.in_degree ≡ length (edges_to p g.edges)
    pub out : (p : ℕ) → listed p g.successors ≡ map (λ e. e.dest) (edges_from p g.edges)
    pub into : (p : ℕ) → listed p g.predecessors ≡ map (λ e. e.source) (edges_to p g.edges)

  connect-Agrees :
      (g : Graph) (e : Edge) (key : String)
      → Agrees g
      → IsRegistered g.node_map e.source
      → IsRegistered g.node_map e.dest
      → Agrees (connect node g e key)
  unfolding connect
  connect-Agrees g e key v s d = record {
    named = v.named;
    registered = AllRegistered-append g.node_map g.edges e v.registered s d;
    degrees = λ p. degree_step p e g.edges g.in_degree v.degrees;
    out = λ p. out_step p e g.edges g.successors v.out;
    into = λ p. into_step p e g.edges g.predecessors v.into;
  }

  pub add_node-Agrees : (g : Graph) (p : Option ℕ) → Agrees g → Agrees (add_node node g p).0
  unfolding add_node
  add_node-Agrees g none v = v
  add_node-Agrees g (some p) v = elim (Option-cases (get_node g (node p).name)) [
    | inr (q, e) ↦ rw (e, add_node) v
    | inl new ↦
        let none_to = edges_to-new g.node_map g.edges p new v.registered in
        let none_from = edges_from-new g.node_map g.edges p new v.registered in
        rw (new, add_node)
          (record {
            named = Named-assign g.node_map p v.named;
            registered = AllRegistered-assign g.node_map g.edges p new v.registered;
            degrees = λ q.
                fresh_entry 0 (λ x. length (edges_to x g.edges)) p q g.in_degree
                  (ap (λ (l : List Edge). length l) none_to) (v.degrees q);
            out = λ q.
                fresh_entry [] (λ x. map (λ f. f.dest) (edges_from x g.edges)) p q g.successors
                  (ap (map (λ f. f.dest)) none_from) (v.out q);
            into = λ q.
                fresh_entry [] (λ x. map (λ f. f.source) (edges_to x g.edges)) p q g.predecessors
                  (ap (map (λ f. f.source)) none_to) (v.into q);
          })
  ]

  pub add_edge-Agrees :
      (g : Graph) (a pa b pb : String) → Agrees g → Agrees (add_edge node g a pa b pb).0
  unfolding add_edge
  add_edge-Agrees g a pa b pb v = elim (Option-cases (get_node g a)) [
    | inl e ↦ rw (e, add_edge) v
    | inr (p, e) ↦ elim (Option-cases (get_node g b)) [
      | inl f ↦ rw (e, f, add_edge) v
      | inr (q, f) ↦
          elim (Bool-cases (rejects node p pa q pb || contains g.edge_keys (edge_key a pa b pb))) [
            | inl refused ↦ rw (e, f, refused, add_edge) v
            | inr fine ↦
                rw (e, f, fine, add_edge)
                  (connect-Agrees g
                    (record { source = p; source_port = pa; dest = q; dest_port = pb })
                    (edge_key a pa b pb) v
                    (subst (λ s. lookup s g.node_map ≡ some p) (sym (v.named a p e)) e)
                    (subst (λ s. lookup s g.node_map ≡ some q) (sym (v.named b q f)) f))
          ]
    ]
  ]
