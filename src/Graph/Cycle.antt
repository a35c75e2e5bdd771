-- ===== src/Graph/Cycle.antt =====
-- `Graph::hasCycle` of src/graph.cpp. The loop tests `--remaining[n] == 0`, which holds exactly when the count
-- was 1; a count at 0 or below never gets there again, so here it stays at 0.
pub mod Peeling
pub mod Tables
pub mod Exact
use ai_pipe.Prelude.{
  ℕ, zero, suc, ◌+◌, ◌-◌, ◌≤◌, ◌<◌, ◌≡◌, refl, arith, Bool, not, Option, none, some, List, [], ◌∷◌,
  ◌++◌, eqb, length, length-append, if◌then◌else◌, ◌>>=◌, nat_eq,
}
use ai_pipe.Prelude.Maps.{lookup, assign}
use ai_pipe.Graph.{Graph, counted, listed}

-- The nodes with no entry, or with the count 0.
pub ready_nodes : List (ℕ × ℕ) → List ℕ → List ℕ
ready_nodes remaining [] = []
ready_nodes remaining (p ∷ ps) =
    if eqb (counted p remaining) 0 then p ∷ ready_nodes remaining ps else ready_nodes remaining ps

-- The loop over the neighbours of a node.
pub lower : List ℕ → List ℕ → List (ℕ × ℕ) → List ℕ × List (ℕ × ℕ)
lower [] ready remaining = (ready, remaining)
lower (n ∷ ns) ready remaining =
    let count = counted n remaining in
    lower ns (if eqb count 1 then ready ++ n ∷ [] else ready) (assign n (count - 1) remaining)

-- The loop over the queue; the last number counts the nodes that left it.
pub peel : ℕ → List (ℕ × List ℕ) → List ℕ → List (ℕ × ℕ) → ℕ → Option ℕ
peel zero successors ready remaining processed = none
peel (suc fuel) successors [] remaining processed = some processed
peel (suc fuel) successors (p ∷ ready) remaining processed =
    let (ready', remaining') = lower (listed p successors) ready remaining in
    peel fuel successors ready' remaining' (processed + 1)

pub has_cycle : Graph → Option Bool
has_cycle g = do
  processed ←
      peel (suc (length g.nodes + length g.in_degree)) g.successors
        (ready_nodes g.in_degree g.nodes) g.in_degree 0
  some (not (eqb processed (length g.nodes)))

-- The entries that are not 0 yet.
positives : List (ℕ × ℕ) → ℕ
positives [] = 0
positives ((p, n) ∷ m) = if eqb n 0 then positives m else suc (positives m)

positives-length : (m : List (ℕ × ℕ)) → positives m ≤ length m
unfolding positives
positives-length [] = omega arith
positives-length ((p, n) ∷ m) = ground (arith, positives-length m)

-- Lowering a count loses an entry exactly when the count was 1.
positives-lower :
    (p : ℕ) (m : List (ℕ × ℕ))
    → positives (assign p (counted p m - 1) m) + (if eqb (counted p m) 1 then 1 else 0)
      ≡ positives m
unfolding positives lookup assign
positives-lower p [] = omega arith
positives-lower p ((q, n) ∷ m) = ground (arith, positives-lower p m)

ready_nodes-length : (m : List (ℕ × ℕ)) (ps : List ℕ) → length (ready_nodes m ps) ≤ length ps
unfolding ready_nodes
ready_nodes-length m [] = omega arith
ready_nodes-length m (p ∷ ps) = ground (arith, ready_nodes-length m ps)

-- The queue and the entries above 0 together neither grow nor shrink in the loop over neighbours.
lower-weight :
    (ns ready : List ℕ) (m : List (ℕ × ℕ))
    → length (lower ns ready m).0 + positives (lower ns ready m).1 ≡ length ready + positives m
unfolding lower
lower-weight [] ready m = refl
lower-weight (n ∷ ns) ready m = ground (
  arith,
  lower-weight ns (if eqb (counted n m) 1 then ready ++ n ∷ [] else ready)
      (assign n (counted n m - 1) m),
  positives-lower n m,
  length-append ready (n ∷ []),
)

peel-ends :
    (fuel : ℕ) (successors : List (ℕ × List ℕ)) (ready : List ℕ) (m : List (ℕ × ℕ)) (processed : ℕ)
    → length ready + positives m < fuel
    → (n : ℕ) × (peel fuel successors ready m processed ≡ some n)
      × (n ≤ processed + length ready + positives m)
unfolding peel
peel-ends zero successors ready m processed h = absurd (omega arith)
peel-ends (suc fuel) successors [] m processed h = (processed, refl, omega arith)
peel-ends (suc fuel) successors (p ∷ ready) m processed h =
    let kept = lower-weight (listed p successors) ready m in
    let (n, ran, bound) =
      peel-ends fuel successors (lower (listed p successors) ready m).0
        (lower (listed p successors) ready m).1 (processed + 1) (omega (arith, kept, h)) in
    (n, ran, omega (arith, bound, kept))

-- `hasCycle` ends for every graph, with cycles, parallel edges and self-loops too.
pub has_cycle-ends : (g : Graph) → (answer : Bool) × (has_cycle g ≡ some answer)
unfolding has_cycle
has_cycle-ends g =
    let start = ready_nodes g.in_degree g.nodes in
    let (n, ran, _) =
      peel-ends (suc (length g.nodes + length g.in_degree)) g.successors start g.in_degree 0
        (omega (arith, ready_nodes-length g.in_degree g.nodes, positives-length g.in_degree)) in
    (not (eqb n (length g.nodes)), rw (ran, has_cycle))
