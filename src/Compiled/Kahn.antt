-- ===== src/Compiled/Kahn.antt =====
-- Kahn's algorithm of include/ai_pipe/compiled_graph.hpp runs the peeling loop.
use mathlib.Core.Option
use ai_pipe.Prelude.{
  ℕ, zero, suc, ◌-◌, ◌≡◌, refl, sym, ap, ◌∙◌, fun_ext, arith, List, [], ◌∷◌, ◌++◌, map, eqb, length,
  length-append, get_or, set, if◌then◌else◌,
}
use ai_pipe.Topology.Peel.{lower_all, peel_by}
use ai_pipe.Compiled.{OutEdge, lower_out, kahn}
use ai_pipe.Compiled.Vectors.{get_or-lower}

-- The nodes at the ends of the outgoing edges of a node, one for each edge.
abbrev pub targets : List (List OutEdge) → ℕ → List ℕ
targets out_edges i = map (λ e. e.dest_node) (get_or out_edges i [])

abbrev pub backwards {ℓ} : {A : Type ℓ} → List A → List A
backwards [] = []
backwards (x ∷ xs) = backwards xs ++ x ∷ []

pub length-backwards {ℓ} : {A : Type ℓ} (xs : List A) → length (backwards xs) ≡ length xs
length-backwards [] = refl
length-backwards (x ∷ xs) =
    omega (arith, length-backwards xs, length-append (backwards xs) (x ∷ []))

lower_out-lower_all :
    (outs : List OutEdge) (ready xs : List ℕ)
    → lower_all (map (λ e. e.dest_node) outs) ready (λ q. get_or xs q 0)
      ≡ ((lower_out outs ready xs).0, λ q. get_or (lower_out outs ready xs).1 q 0)
unfolding lower_out lower_all
lower_out-lower_all [] ready xs = refl
lower_out-lower_all (out ∷ outs) ready xs =
    let n = out.dest_node in
    let ready' = if eqb (get_or xs n 0) 1 then ready ++ n ∷ [] else ready in
    ap (lower_all (map (λ e. e.dest_node) outs) ready') (fun_ext (λ q. sym (get_or-lower xs n q)))
    ∙ lower_out-lower_all outs ready' (set xs n (get_or xs n 0 - 1))

pub kahn-peel_by :
    (fuel : ℕ) (out_edges : List (List OutEdge)) (order ready xs : List ℕ)
    → kahn fuel out_edges (backwards order) ready xs
      ≡ Option.map
          (λ o. backwards o)
          (peel_by fuel (targets out_edges) order ready (λ q. get_or xs q 0))
unfolding kahn peel_by
kahn-peel_by zero out_edges order ready xs = refl
kahn-peel_by (suc fuel) out_edges order [] xs = refl
kahn-peel_by (suc fuel) out_edges order (p ∷ ready) xs =
    let outs = get_or out_edges p [] in
    let next = λ (x : List ℕ × (ℕ → ℕ)).
      Option.map (λ (o : List ℕ). backwards o)
        (peel_by fuel (targets out_edges) (p ∷ order) x.0 x.1) in
    kahn-peel_by fuel out_edges (p ∷ order) (lower_out outs ready xs).0 (lower_out outs ready xs).1
    ∙ ap next (sym (lower_out-lower_all outs ready xs))
