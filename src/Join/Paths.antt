-- ===== src/Join/Paths.antt =====
-- `findAllPaths` of src/join_aware_sync_strategy.hpp. `successors` are the compiled graph's; the visited nodes are
-- those of the current path, since a call takes its node off when it returns.
pub mod Neighbors
pub mod Exact
use ai_pipe.Prelude.{
  ℕ, zero, suc, Option, none, some, List, [], ◌∷◌, ◌++◌, eqb, drop, nat_eq, if◌then◌else◌, ◌>>=◌,
}
use ai_pipe.Prelude.Sets.{contains}

-- All but the last.
unfoldable pub drop_last : List ℕ → List ℕ
drop_last [] = []
drop_last (x ∷ []) = []
drop_last (x ∷ y ∷ ys) = x ∷ drop_last (y ∷ ys)

-- A path without its fork and its join, when it has both.
unfoldable pub branch_path : List ℕ → List (List ℕ)
branch_path [] = []
branch_path (x ∷ []) = []
branch_path (x ∷ y ∷ ys) = drop_last (y ∷ ys) ∷ []

-- The loop over the neighbours that are not visited.
unfoldable pub each_neighbor :
    (ℕ → Option (List (List ℕ))) → List ℕ → List ℕ → Option (List (List ℕ))
each_neighbor search visited [] = some []
each_neighbor search visited (n ∷ ns) =
    let rest = each_neighbor search visited ns in
    let both = (do here ← search n; there ← rest; some (here ++ there)) in
    if contains visited n then rest else both

unfoldable pub find_all_paths_dfs :
    ℕ → (ℕ → List ℕ) → ℕ → ℕ → List ℕ → List ℕ → Option (List (List ℕ))
find_all_paths_dfs zero successors current dest path visited = none
find_all_paths_dfs (suc fuel) successors current dest path visited =
    let path' = path ++ current ∷ [] in
    let visited' = current ∷ visited in
    let deeper =
      each_neighbor (λ n. find_all_paths_dfs fuel successors n dest path' visited') visited'
        (successors current) in
    if eqb current dest then some (branch_path path') else deeper

-- `fuel` is one more than there are nodes.
unfoldable pub find_all_paths : ℕ → (ℕ → List ℕ) → ℕ → ℕ → Option (List (List ℕ))
find_all_paths fuel successors source dest = find_all_paths_dfs fuel successors source dest [] []
