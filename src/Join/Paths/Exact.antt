-- ===== src/Join/Paths/Exact.antt =====
-- `findAllPaths` of src/join_aware_sync_strategy.hpp finds exactly the simple paths from the fork to the join.
use ai_pipe.Prelude.{
  ℕ, zero, suc, ◌+◌, ◌<◌, ◌≡◌, ◌↔◌, inl, inr, refl, sym, ap, subst, ◌∙◌, arith, true, false, Option,
  some, List, [], ◌∷◌, ◌++◌, eqb, nat_eq, length, Bool-cases,
}
use mathlib.Core.List.{append_assoc, append-nil}
use ai_pipe.Prelude.Sets.{contains}
use ai_pipe.Prelude.Maps.{Distinct}
use ai_pipe.Topology.Counting.{Within, pigeonhole}
use ai_pipe.Join.Paths.{branch_path, each_neighbor, find_all_paths_dfs, find_all_paths}
use ai_pipe.Join.Paths.Neighbors.{
  IsIn, branch_path-end, each_neighbor_sound, each_neighbor_complete, each_neighbor_total,
  each_neighbor_found,
}

module _ (successors : ℕ → List ℕ) (dest : ℕ) where
  -- `ms` are the nodes from `n` up to but without `dest`, along edges, and no node is one of the visited or stands twice.
  abbrev pub IsWay : List ℕ → ℕ → List ℕ → Type 0
  IsWay visited n [] = eqb n dest ≡ true
  IsWay visited n (m ∷ ms) =
      (m ≡ n)
      × (eqb n dest ≡ false)
      × ((k : ℕ) × (contains (successors n) k ≡ true)
          × (contains (n ∷ visited) k ≡ false)
          × IsWay (n ∷ visited) k ms)

  abbrev deeper : ℕ → ℕ → List ℕ → List ℕ → ℕ → Option (List (List ℕ))
  deeper fuel current path visited n =
      find_all_paths_dfs fuel successors n dest (path ++ current ∷ []) (current ∷ visited)

  dfs_loop :
      (fuel current : ℕ) (path visited : List ℕ)
      → eqb current dest ≡ false
      → find_all_paths_dfs (suc fuel) successors current dest path visited
        ≡ each_neighbor (deeper fuel current path visited) (current ∷ visited) (successors current)
  unfolding find_all_paths_dfs
  dfs_loop fuel current path visited away = rw away refl

  dfs_end :
      (fuel current s : ℕ) (q visited : List ℕ)
      → eqb current dest ≡ true
      → find_all_paths_dfs (suc fuel) successors current dest (s ∷ q) visited ≡ some (q ∷ [])
  unfolding find_all_paths_dfs
  dfs_end fuel current s q visited arrived =
      rw arrived (ap (λ l. some l) (branch_path-end s q current))

  dfs_sound :
      (fuel current s : ℕ) (q visited : List ℕ) (pss : List (List ℕ)) (xs : List ℕ)
      → find_all_paths_dfs fuel successors current dest (s ∷ q) visited ≡ some pss
      → IsIn xs pss
      → (ms : List ℕ) × (q ++ ms ≡ xs) × IsWay visited current ms
  unfolding find_all_paths_dfs
  dfs_sound zero current s q visited pss xs h there = cc
  dfs_sound (suc fuel) current s q visited pss xs h there = elim (Bool-cases (eqb current dest)) [
    | inl arrived ↦
        let both : some (q ∷ []) ≡ some pss = sym (dfs_end fuel current s q visited arrived) ∙ h in
        let lists : pss ≡ q ∷ [] = cc in
        elim (subst (IsIn xs) lists there) [
          | inl same ↦ ([], append-nil q ∙ same, arrived)
          | inr later ↦ absurd later
        ]
    | inr away ↦
        let (n, l, near, new, found, in_l) =
          each_neighbor_sound (deeper fuel current (s ∷ q) visited) (current ∷ visited)
            (successors current) pss xs (sym (dfs_loop fuel current (s ∷ q) visited away) ∙ h)
            there in
        let (ms, joined, way) =
          dfs_sound fuel n s (q ++ current ∷ []) (current ∷ visited) l xs found in_l in
        (
          current ∷ ms,
          sym (append_assoc q (current ∷ []) ms) ∙ joined,
          (refl, away, (n, near, new, way)),
        )
  ]

  dfs_complete :
      (fuel current s : ℕ) (q visited ms : List ℕ) (pss : List (List ℕ))
      → find_all_paths_dfs fuel successors current dest (s ∷ q) visited ≡ some pss
      → IsWay visited current ms
      → IsIn (q ++ ms) pss
  unfolding find_all_paths_dfs
  dfs_complete zero current s q visited ms pss h way = cc
  dfs_complete (suc fuel) current s q visited [] pss h arrived =
      let both : some (q ∷ []) ≡ some pss = sym (dfs_end fuel current s q visited arrived) ∙ h in
      let lists : q ∷ [] ≡ pss = cc in subst (IsIn (q ++ [])) lists (inl (sym (append-nil q)))
  dfs_complete (suc fuel) current s q visited (m ∷ ms) pss h (same, away, (k, near, new, way)) =
      let search = deeper fuel current (s ∷ q) visited in
      let ran = sym (dfs_loop fuel current (s ∷ q) visited away) ∙ h in
      let (l, found) =
        each_neighbor_found search (current ∷ visited) (successors current) pss k ran near new in
      let in_l = dfs_complete fuel k s (q ++ current ∷ []) (current ∷ visited) ms l found way in
      each_neighbor_complete search (current ∷ visited) (successors current) pss (q ++ m ∷ ms) ran (
        k,
        l,
        near,
        new,
        found,
        subst (λ x. IsIn (q ++ x ∷ ms) l) (sym same)
            (subst (λ p. IsIn p l) (append_assoc q (current ∷ []) ms) in_l),
      )

  module _ (nodes : List ℕ)
      (closed : (u k : ℕ)
        → contains nodes u ≡ true
        → contains (successors u) k ≡ true
        → contains nodes k ≡ true) where
    -- Every call visits one node more, so the depth is at most the number of nodes.
    dfs_total :
        (fuel current : ℕ) (path visited : List ℕ)
        → Distinct visited
        → Within visited nodes
        → contains nodes current ≡ true
        → contains visited current ≡ false
        → length nodes < fuel + length visited
        → (pss : List (List ℕ)) × (find_all_paths_dfs fuel successors current dest path visited
            ≡ some pss)
    unfolding find_all_paths_dfs
    dfs_total zero current path visited distinct within here new enough =
        absurd (omega (arith, enough, pigeonhole visited nodes distinct within))
    dfs_total (suc fuel) current path visited distinct within here new enough =
        elim (Bool-cases (eqb current dest)) [
          | inl arrived ↦ (branch_path (path ++ current ∷ []), rw arrived refl)
          | inr away ↦
              let (pss, ran) =
                each_neighbor_total (deeper fuel current path visited) (current ∷ visited)
                  (successors current)
                  (λ n near fresh.
                    dfs_total fuel n (path ++ current ∷ []) (current ∷ visited) (new, distinct)
                      (here, within) (closed current n here near) fresh (omega (arith, enough))) in
              (pss, dfs_loop fuel current path visited away ∙ ran)
        ]

    -- With more fuel than there are nodes, the search from a fork to another node ends, and the branches that it
    -- finds are exactly the node lists along edges, of distinct nodes other than the two, that lead from the fork
    -- to that node.
    pub find_all_paths_lem :
        (fuel source : ℕ)
        → contains nodes source ≡ true
        → eqb source dest ≡ false
        → length nodes < fuel
        → (pss : List (List ℕ)) × (find_all_paths fuel successors source dest ≡ some pss)
          × ((ms : List ℕ) → IsIn ms pss ↔ IsWay [] source (source ∷ ms))
    unfolding find_all_paths contains
    find_all_paths_lem zero source here away enough = absurd (omega (arith, enough))
    find_all_paths_lem (suc fuel) source here away enough =
        let (pss, ran) =
          dfs_total (suc fuel) source [] [] tt tt here refl (omega (arith, enough)) in
        let search = deeper fuel source [] [] in
        let loop = sym (dfs_loop fuel source [] [] away) ∙ ran in
        (
          pss,
          ran,
          λ ms. (
            λ there.
                let (n, l, near, new, found, in_l) =
                  each_neighbor_sound search (source ∷ []) (successors source) pss ms loop there in
                let (ms', same, way) = dfs_sound fuel n source [] (source ∷ []) l ms found in_l in
                (refl, away, (n, near, new, subst (IsWay (source ∷ []) n) same way)),
            λ whole.
                let (_, _, (k, near, new, way)) = whole in
                let (l, found) =
                  each_neighbor_found search (source ∷ []) (successors source) pss k loop near
                    new in
                each_neighbor_complete search (source ∷ []) (successors source) pss ms loop (
                  k,
                  l,
                  near,
                  new,
                  found,
                  dfs_complete fuel k source [] (source ∷ []) ms l found way,
                ),
          ),
        )
