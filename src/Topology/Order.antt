-- ===== src/Topology/Order.antt =====
-- What peeling yields: an order of the nodes, and for each node left over a predecessor left over.
use ai_pipe.Prelude.{
  ℕ, zero, suc, ◌+◌, ◌<◌, ◌≡◌, ◌≢◌, ◌⊎◌, inl, inr, refl, sym, ◌∙◌, arith, Bool, true, false, not,
  ◌&&◌, List, [], ◌∷◌, nat_eq, if◌then◌else◌, length, Bool-cases, some,
}
use ai_pipe.Prelude.Sets.{contains}
use ai_pipe.Prelude.Maps.{Distinct}
use ai_pipe.Topology.Counting.{
  occurrences, total, total-bump, total-ge, total-positive, Within, pigeonhole,
}
use ai_pipe.Topology.Peel.{
  lower_all, peel_by, Front, lower_all-Front, zeros, contains-zeros, zeros-Distinct,
}

module _ (succ : ℕ → List ℕ) (nodes : List ℕ) where
  -- Edges from `u` to `q`, unless `u` is done.
  abbrev pub open_edges : List ℕ → ℕ → ℕ → ℕ
  open_edges order q u = if contains order u then 0 else occurrences q (succ u)

  -- Every node stands behind all nodes with an edge to it; the latest stands first.
  abbrev pub IsOrder : List ℕ → Type 0
  IsOrder [] = Unit {0}
  IsOrder (p ∷ order) =
      ((u : ℕ) → contains nodes u ≡ true → 0 < occurrences p (succ u) → contains order u ≡ true)
      × IsOrder order

  -- A graph: no node twice, edges between nodes only, and a count of the edges into each node.
  pub record IsGraph (r : ℕ → ℕ) : Type 0 where
    pub distinct : Distinct nodes
    pub closed :
        (u q : ℕ) → contains nodes u ≡ true → 0 < occurrences q (succ u) → contains nodes q ≡ true
    pub counts : (q : ℕ) → r q ≡ total (λ u. occurrences q (succ u)) nodes

  pub record Peeled (order : List ℕ) : Type 0 where
    pub distinct : Distinct order
    pub inside : (q : ℕ) → contains order q ≡ true → contains nodes q ≡ true
    pub sorted : IsOrder order
    pub stuck :
        (q : ℕ)
        → contains nodes q ≡ true
        → contains order q ≡ false
        → (u : ℕ) × (contains nodes u ≡ true)
          × (contains order u ≡ false)
          × (0 < occurrences q (succ u))

  Within-of_contains :
      (xs : List ℕ) → ((q : ℕ) → contains xs q ≡ true → contains nodes q ≡ true) → Within xs nodes
  unfolding contains
  Within-of_contains [] h = tt
  Within-of_contains (x ∷ xs) h =
      (h x (ground arith), Within-of_contains xs (λ q e. h q (ground arith)))

  module _ (distinct : Distinct nodes)
      (closed : (u q : ℕ)
        → contains nodes u ≡ true
        → 0 < occurrences q (succ u)
        → contains nodes q ≡ true) where
    abbrev Counts : List ℕ → (ℕ → ℕ) → Type 0
    Counts order r = (q : ℕ) → r q ≡ total (open_edges order q) nodes

    -- Taking `p` off the queue closes its edges.
    close_edges :
        (order : List ℕ) (p q : ℕ)
        → contains order p ≡ false
        → contains nodes p ≡ true
        → total (open_edges order q) nodes
          ≡ total (open_edges (p ∷ order) q) nodes + occurrences q (succ p)
    unfolding contains
    close_edges order p q new here =
        total-bump (open_edges (p ∷ order) q) (open_edges order q) p (occurrences q (succ p)) nodes
          (λ u ne. ground arith) (ground arith) distinct here

    stuck_lem :
        (order : List ℕ) (r : ℕ → ℕ)
        → Counts order r
        → Front nodes order [] r
        → IsOrder order
        → Peeled order
    unfolding contains
    stuck_lem order r counts v sorted = record {
      distinct = v.order_distinct;
      inside = λ q h. v.inside q (ground arith);
      sorted = sorted;
      stuck = λ q here out.
          let (u, known, pos) =
            total-positive (open_edges order q) nodes (ground (arith, counts q, v.spent q here)) in
          (u, known, ground arith, ground arith);
    }

    pub peel_by_lem :
        (fuel : ℕ) (order ready : List ℕ) (r : ℕ → ℕ)
        → length nodes < length order + fuel
        → Counts order r
        → Front nodes order ready r
        → IsOrder order
        → (order' : List ℕ) × (peel_by fuel succ order ready r ≡ some order') × Peeled order'
    unfolding peel_by contains
    peel_by_lem zero order ready r enough counts v sorted = absurd (
        omega (
          arith,
          pigeonhole order nodes v.order_distinct
              (Within-of_contains order (λ q h. v.inside q (ground arith))),
        ))
    peel_by_lem (suc fuel) order [] r enough counts v sorted =
        (order, refl, stuck_lem order r counts v sorted)
    peel_by_lem (suc fuel) order (p ∷ ready) r enough counts v sorted =
        let here : contains nodes p ≡ true = v.inside p (ground arith) in
        let new : contains order p ≡ false = ground (arith, v.apart p) in
        let free : r p ≡ 0 = ground (arith, v.spent p here) in
        let moved : Front nodes (p ∷ order) ready r = record {
          order_distinct = (new, v.order_distinct);
          ready_distinct = v.ready_distinct.1;
          apart = λ q h. ground (arith, v.apart q, v.ready_distinct.0);
          inside = λ q h. ground (arith, v.inside q);
          spent = λ q h. ground (arith, v.spent q h);
        } in
        let (front, lowered) =
          lower_all-Front nodes (p ∷ order) (succ p) ready r
            (λ q. omega (arith, counts q, close_edges order p q new here))
            (λ q h. closed p q here h) moved in
        peel_by_lem fuel (p ∷ order) (lower_all (succ p) ready r).0 (lower_all (succ p) ready r).1
          (omega (arith, enough))
          (λ q. omega (arith, lowered q, counts q, close_edges order p q new here)) front
          (
            (λ u known pos.
                ground (arith, counts p, free, total-ge (open_edges order p) u nodes known, pos)),
            sorted,
          )

  -- From the nodes without incoming edges the loop ends within one round more than there are nodes.
  pub peel_graph :
      (fuel : ℕ) (r : ℕ → ℕ)
      → IsGraph r
      → length nodes < fuel
      → (order : List ℕ) × (peel_by fuel succ [] (zeros r nodes) r ≡ some order) × Peeled order
  unfolding contains
  peel_graph fuel r g enough =
      peel_by_lem g.distinct g.closed fuel [] (zeros r nodes) r (omega (arith, enough)) g.counts
        (record {
          order_distinct = tt;
          ready_distinct = zeros-Distinct r nodes g.distinct;
          apart = λ q h. absurd (cc);
          inside = λ q h. ground (arith, contains-zeros r nodes q);
          spent = λ q h. ground (arith, contains-zeros r nodes q);
        })
        tt

  -- The nodes in an order in which every edge goes forward, the last node first.
  abbrev pub IsSorted : List ℕ → Type 0
  IsSorted order = Distinct order × ((q : ℕ) → contains order q ≡ contains nodes q) × IsOrder order

  -- Some nodes of which each has a predecessor among them: walking back along edges never ends.
  abbrev pub IsLoop : (ℕ → Bool) → Type 0
  IsLoop s =
      ((q : ℕ) × (s q ≡ true))
      × ((q : ℕ)
          → s q ≡ true
          → (contains nodes q ≡ true) × ((u : ℕ) × (s u ≡ true) × (0 < occurrences q (succ u))))

  find_missing :
      (xs ys : List ℕ) → Within xs ys ⊎ ((q : ℕ) × (contains xs q ≡ true) × (contains ys q ≡ false))
  unfolding contains
  find_missing [] ys = inl tt
  find_missing (x ∷ xs) ys = elim (Bool-cases (contains ys x)) [
    | inl here ↦ elim (find_missing xs ys) [
      | inl all ↦ inl (here, all)
      | inr (q, known, missing) ↦ inr (q, ground arith, missing)
    ]
    | inr missing ↦ inr (x, ground arith, missing)
  ]

  module _ (distinct : Distinct nodes) (order : List ℕ) (v : Peeled order) where
    -- All nodes were taken off: they are sorted.
    pub complete : length order ≡ length nodes → IsSorted order
    unfolding contains
    complete same = (
      v.distinct,
      λ q. elim (Bool-cases (contains order q)) [
        | inl here ↦ here ∙ sym (v.inside q here)
        | inr out ↦ elim (Bool-cases (contains nodes q)) [
          | inl known ↦ absurd (
              omega (
                arith,
                same,
                pigeonhole (q ∷ order) nodes (out, v.distinct)
                    (known, Within-of_contains order v.inside),
              ))
          | inr unknown ↦ out ∙ sym unknown
        ]
      ],
      v.sorted,
    )

    -- Some were not: those form a loop.
    pub incomplete :
        length order ≢ length nodes → IsLoop (λ q. contains nodes q && not (contains order q))
    incomplete differ = (
      elim (find_missing nodes order) [
        | inl all ↦ absurd (
            differ (
              omega (
                arith,
                pigeonhole nodes order distinct all,
                pigeonhole order nodes v.distinct (Within-of_contains order v.inside),
              )))
        | inr (q, known, missing) ↦ (q, ground arith)
      ],
      λ q h.
          let (u, known, out, pos) = v.stuck q (ground arith) (ground arith) in
          (ground arith, (u, ground arith, pos)),
    )

  order-avoids :
      (s : ℕ → Bool) (order : List ℕ)
      → IsLoop s
      → IsOrder order
      → (q : ℕ) → contains order q ≡ true
      → s q ≡ false
  unfolding contains
  order-avoids s [] loop sorted q here = absurd (cc)
  order-avoids s (p ∷ order) loop sorted q here = elim (Bool-cases (s q)) [
    | inr out ↦ out
    | inl looped ↦
        let (u, also, pos) = (loop.1 q looped).1 in
        let known = (loop.1 u also).0 in
        ground (
          arith,
          order-avoids s order loop sorted.1 q,
          order-avoids s order loop sorted.1 u,
          also,
          known,
          pos,
          sorted.0 u known,
        )
  ]

  -- A graph has one or the other.
  pub sorted_loop : (s : ℕ → Bool) (order : List ℕ) → IsLoop s → IsSorted order → ⊥
  sorted_loop s order loop sorted =
      let (q, looped) = loop.0 in
      cc (order-avoids s order loop sorted.2 q (sorted.1 q ∙ (loop.1 q looped).0), looped)
