-- ===== src/Join/Paths/Neighbors.antt =====
-- The loop over the neighbours in `findAllPathsDFS` of src/join_aware_sync_strategy.hpp.
use ai_pipe.Prelude.{
  ℕ, ◌≡◌, ◌⊎◌, inl, inr, refl, sym, ap, subst, ◌∙◌, arith, true, false, Option, some, List, [], ◌∷◌,
  ◌++◌, eqb, nat_eq, Bool-cases, Option-cases,
}
use ai_pipe.Prelude.Sets.{contains}
use ai_pipe.Join.Paths.{drop_last, branch_path, each_neighbor}

abbrev pub IsIn : List ℕ → List (List ℕ) → Type 0
IsIn xs [] = ⊥
IsIn xs (ys ∷ yss) = (ys ≡ xs) ⊎ IsIn xs yss

IsIn-append_left : (xs : List ℕ) (yss zss : List (List ℕ)) → IsIn xs yss → IsIn xs (yss ++ zss)
IsIn-append_left xs [] zss h = absurd h
IsIn-append_left xs (ys ∷ yss) zss h = elim h [
  | inl here ↦ inl here
  | inr later ↦ inr (IsIn-append_left xs yss zss later)
]

IsIn-append_right : (xs : List ℕ) (yss zss : List (List ℕ)) → IsIn xs zss → IsIn xs (yss ++ zss)
IsIn-append_right xs [] zss h = h
IsIn-append_right xs (ys ∷ yss) zss h = inr (IsIn-append_right xs yss zss h)

IsIn-append :
    (xs : List ℕ) (yss zss : List (List ℕ)) → IsIn xs (yss ++ zss) → IsIn xs yss ⊎ IsIn xs zss
IsIn-append xs [] zss h = inr h
IsIn-append xs (ys ∷ yss) zss h = elim h [
  | inl here ↦ inl (inl here)
  | inr later ↦ elim (IsIn-append xs yss zss later) [
    | inl first ↦ inl (inr first)
    | inr second ↦ inr second
  ]
]

drop_last-end : (q : List ℕ) (c : ℕ) → drop_last (q ++ c ∷ []) ≡ q
unfolding drop_last
drop_last-end [] c = refl
drop_last-end (x ∷ []) c = refl
drop_last-end (x ∷ y ∷ q) c = ap (λ l. x ∷ l) (drop_last-end (y ∷ q) c)

pub branch_path-end : (s : ℕ) (q : List ℕ) (c : ℕ) → branch_path (s ∷ (q ++ c ∷ [])) ≡ q ∷ []
unfolding branch_path
branch_path-end s [] c = ap (λ l. l ∷ []) (drop_last-end [] c)
branch_path-end s (x ∷ q) c = ap (λ l. l ∷ []) (drop_last-end (x ∷ q) c)

-- What the loop over the neighbours does with the results of the searches.
module _ (search : ℕ → Option (List (List ℕ))) (visited : List ℕ) where
  abbrev pub Found : List ℕ → List ℕ → Type 0
  Found ns xs =
      (n : ℕ) × (l : List (List ℕ)) × (contains ns n ≡ true)
      × (contains visited n ≡ false)
      × (search n ≡ some l)
      × IsIn xs l

  each_neighbor-cons :
      (n : ℕ) (ns : List ℕ) (pss : List (List ℕ))
      → contains visited n ≡ false
      → each_neighbor search visited (n ∷ ns) ≡ some pss
      → (l rest : List (List ℕ)) × (search n ≡ some l)
        × (each_neighbor search visited ns ≡ some rest)
        × (l ++ rest ≡ pss)
  unfolding each_neighbor
  each_neighbor-cons n ns pss new h = elim (Option-cases (search n)) [
    | inl failed ↦ absurd (ground (arith, h, new, failed))
    | inr (l, found) ↦ elim (Option-cases (each_neighbor search visited ns)) [
      | inl failed ↦ absurd (ground (arith, h, new, found, failed))
      | inr (rest, others) ↦ (l, rest, found, others, ground (arith, h, new, found, others))
    ]
  ]

  pub each_neighbor_sound :
      (ns : List ℕ) (pss : List (List ℕ)) (xs : List ℕ)
      → each_neighbor search visited ns ≡ some pss
      → IsIn xs pss
      → Found ns xs
  unfolding each_neighbor contains
  each_neighbor_sound [] pss xs h there =
      let same : [] ≡ pss = cc in absurd (subst (IsIn xs) (sym same) there)
  each_neighbor_sound (n ∷ ns) pss xs h there = elim (Bool-cases (contains visited n)) [
    | inl old ↦
        let (m, l, near, new, found, in_l) =
          each_neighbor_sound ns pss xs (ground (arith, h, old)) there in
        (m, l, ground (arith, near), new, found, in_l)
    | inr fresh ↦
        let (l, rest, found, others, joined) = each_neighbor-cons n ns pss fresh h in
        elim (IsIn-append xs l rest (subst (IsIn xs) (sym joined) there)) [
          | inl first ↦ (n, l, ground arith, fresh, found, first)
          | inr later ↦
              let (m, k, near, new, found', in_k) = each_neighbor_sound ns rest xs others later in
              (m, k, ground (arith, near), new, found', in_k)
        ]
  ]

  pub each_neighbor_complete :
      (ns : List ℕ) (pss : List (List ℕ)) (xs : List ℕ)
      → each_neighbor search visited ns ≡ some pss
      → Found ns xs
      → IsIn xs pss
  unfolding each_neighbor contains
  each_neighbor_complete [] pss xs h (m, l, near, new, found, in_l) = absurd (cc)
  each_neighbor_complete (n ∷ ns) pss xs h (m, l, near, new, found, in_l) =
      elim (Bool-cases (contains visited n)) [
        | inl old ↦
            let differ : eqb n m ≡ false =
              ground (arith, ap (contains visited) {x = n} {y = m}, old, new) in
            each_neighbor_complete ns pss xs (ground (arith, h, old))
              (m, l, ground (arith, near, differ), new, found, in_l)
        | inr fresh ↦
            let (l', rest, found', others, joined) = each_neighbor-cons n ns pss fresh h in
            subst (IsIn xs) joined (elim (Bool-cases (eqb n m)) [
              | inl hit ↦
                  let same : n ≡ m = ground arith in
                  let equal : some l' ≡ some l = sym found' ∙ ap search same ∙ found in
                  let lists : l ≡ l' = cc in
                  IsIn-append_left xs l' rest (subst (IsIn xs) lists in_l)
              | inr miss ↦ IsIn-append_right xs l' rest (
                  each_neighbor_complete ns rest xs others
                    (m, l, ground (arith, near, miss), new, found, in_l))
            ])
      ]

  pub each_neighbor_total :
      (ns : List ℕ)
      → ((n : ℕ)
          → contains ns n ≡ true
          → contains visited n ≡ false
          → (l : List (List ℕ)) × (search n ≡ some l))
      → (pss : List (List ℕ)) × (each_neighbor search visited ns ≡ some pss)
  unfolding each_neighbor contains
  each_neighbor_total [] all = ([], refl)
  each_neighbor_total (n ∷ ns) all =
      let (rest, others) =
        each_neighbor_total ns (λ m near new. all m (ground (arith, near)) new) in
      elim (Bool-cases (contains visited n)) [
        | inl old ↦ (rest, ground (arith, old, others))
        | inr fresh ↦
            let (l, found) = all n (ground arith) fresh in
            (l ++ rest, ground (arith, fresh, found, others))
      ]

  pub each_neighbor_found :
      (ns : List ℕ) (pss : List (List ℕ)) (m : ℕ)
      → each_neighbor search visited ns ≡ some pss
      → contains ns m ≡ true
      → contains visited m ≡ false
      → (l : List (List ℕ)) × (search m ≡ some l)
  unfolding each_neighbor contains
  each_neighbor_found [] pss m h near new = absurd (cc)
  each_neighbor_found (n ∷ ns) pss m h near new = elim (Bool-cases (contains visited n)) [
    | inl old ↦
        let differ : eqb n m ≡ false =
          ground (arith, ap (contains visited) {x = n} {y = m}, old, new) in
        each_neighbor_found ns pss m (ground (arith, h, old)) (ground (arith, near, differ)) new
    | inr fresh ↦
        let (l, rest, found, others, joined) = each_neighbor-cons n ns pss fresh h in
        elim (Bool-cases (eqb n m)) [
          | inl hit ↦ let same : n ≡ m = ground arith in (l, sym (ap search same) ∙ found)
          | inr miss ↦ each_neighbor_found ns rest m others (ground (arith, near, miss)) new
        ]
  ]
