-- ===== src/Graph/Cycle/Peeling.antt =====
-- `Graph::hasCycle` of src/graph.cpp runs the peeling loop.
use mathlib.Core.Option
use ai_pipe.Prelude.{
  ℕ, zero, suc, ◌+◌, ◌-◌, ◌≡◌, refl, sym, ap, ◌∙◌, fun_ext, arith, List, [], ◌∷◌, ◌++◌, eqb, length,
  if◌then◌else◌, nat_eq, Bool-cases, inl, inr,
}
use ai_pipe.Prelude.Maps.{assign}
use ai_pipe.Topology.Peel.{lower_all, peel_by, zeros}
use ai_pipe.Graph.{counted, listed}
use ai_pipe.Graph.Steps.{at_or-assign, eqb→eq}
use ai_pipe.Graph.Cycle.{ready_nodes, lower, peel}

counted-lower :
    (n q : ℕ) (m : List (ℕ × ℕ))
    → counted q (assign n (counted n m - 1) m) ≡ (if eqb n q then counted q m - 1 else counted q m)
counted-lower n q m = at_or-assign 0 n q (counted n m - 1) m ∙ elim (Bool-cases (eqb n q)) [
  | inl hit ↦ rw hit (ap (λ (x : ℕ). counted x m - 1) (eqb→eq n q hit))
  | inr miss ↦ rw miss refl
]

lower-lower_all :
    (ns ready : List ℕ) (m : List (ℕ × ℕ))
    → lower_all ns ready (λ q. counted q m)
      ≡ ((lower ns ready m).0, λ q. counted q (lower ns ready m).1)
unfolding lower lower_all
lower-lower_all [] ready m = refl
lower-lower_all (n ∷ ns) ready m =
    let ready' = if eqb (counted n m) 1 then ready ++ n ∷ [] else ready in
    ap (lower_all ns ready') (fun_ext (λ q. sym (counted-lower n q m)))
    ∙ lower-lower_all ns ready' (assign n (counted n m - 1) m)

-- The number that `peel` returns is the length of the order.
pub peel-peel_by :
    (fuel : ℕ) (successors : List (ℕ × List ℕ)) (order ready : List ℕ) (m : List (ℕ × ℕ))
    → peel fuel successors ready m (length order)
      ≡ Option.map
          (λ o. length o)
          (peel_by fuel (λ u. listed u successors) order ready (λ q. counted q m))
unfolding peel peel_by
peel-peel_by zero successors order ready m = refl
peel-peel_by (suc fuel) successors order [] m = refl
peel-peel_by (suc fuel) successors order (p ∷ ready) m =
    let next = λ (x : List ℕ × (ℕ → ℕ)).
      Option.map (λ (o : List ℕ). length o)
        (peel_by fuel (λ u. listed u successors) (p ∷ order) x.0 x.1) in
    let one_more : length order + 1 ≡ suc (length order) = omega arith in
    ap
      (λ n.
        peel fuel successors (lower (listed p successors) ready m).0
          (lower (listed p successors) ready m).1 n)
      one_more
    ∙ peel-peel_by fuel successors (p ∷ order) (lower (listed p successors) ready m).0
        (lower (listed p successors) ready m).1
    ∙ ap next (sym (lower-lower_all (listed p successors) ready m))

pub ready_nodes-zeros :
    (m : List (ℕ × ℕ)) (ps : List ℕ) → ready_nodes m ps ≡ zeros (λ q. counted q m) ps
unfolding ready_nodes zeros
ready_nodes-zeros m [] = refl
ready_nodes-zeros m (p ∷ ps) = ground (arith, ready_nodes-zeros m ps)
