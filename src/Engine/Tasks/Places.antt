-- ===== src/Engine/Tasks/Places.antt =====
-- Vectors of nodes of the engine of src/execution_engine_impl.cpp: a sum over the nodes, and a property of all.
use ai_pipe.Prelude.{
  ℕ, zero, suc, ◌+◌, ◌≤◌, ◌≡◌, ap, subst, arith, List, [], ◌∷◌, some, get_elem?, set,
}
use ai_pipe.Engine.Tasks.{Node}

unfoldable pub sum_over : (Node → ℕ) → List Node → ℕ
sum_over f [] = 0
sum_over f (n ∷ ns) = f n + sum_over f ns

abbrev pub All : (Node → Type 0) → List Node → Type 0
All P [] = Unit {0}
All P (n ∷ ns) = P n × All P ns

pub All-at :
    (P : Node → Type 0) (ns : List Node) (i : ℕ) (n : Node)
    → All P ns
    → get_elem? ns i ≡ some n
    → P n
All-at P [] i n v h = cc
All-at P (m ∷ ns) zero n v h = let same : m ≡ n = cc in subst P same v.0
All-at P (m ∷ ns) (suc i) n v h = All-at P ns i n v.1 h

pub All-set :
    (P : Node → Type 0) (ns : List Node) (i : ℕ) (n : Node) → All P ns → P n → All P (set ns i n)
All-set P [] i n v h = tt
All-set P (m ∷ ns) zero n v h = (h, v.1)
All-set P (m ∷ ns) (suc i) n v h = (v.0, All-set P ns i n v.1 h)

pub sum_over-set :
    (f : Node → ℕ) (ns : List Node) (i : ℕ) (old new : Node)
    → get_elem? ns i ≡ some old
    → sum_over f (set ns i new) + f old ≡ sum_over f ns + f new
unfolding sum_over
sum_over-set f [] i old new h = cc
sum_over-set f (m ∷ ns) zero old new h = let same : f m ≡ f old = ap f cc in omega (arith, same)
sum_over-set f (m ∷ ns) (suc i) old new h = omega (arith, sum_over-set f ns i old new h)

pub sum_over-ge :
    (f : Node → ℕ) (ns : List Node) (i : ℕ) (n : Node)
    → get_elem? ns i ≡ some n
    → f n ≤ sum_over f ns
unfolding sum_over
sum_over-ge f [] i n h = cc
sum_over-ge f (m ∷ ns) zero n h = let same : f m ≡ f n = ap f cc in omega (arith, same)
sum_over-ge f (m ∷ ns) (suc i) n h = omega (arith, sum_over-ge f ns i n h)
