-- ===== src/Compiled/Ports.antt =====
-- The connectivity validation of include/ai_pipe/compiled_graph.hpp.
use Prim.Native.String.{String}
use text.Mathlib.TextEquality.{eq_iff}
use ai_pipe.Prelude.{
  ℕ, zero, suc, ◌+◌, ◌<◌, ◌≡◌, ◌≢◌, ◌⊎◌, inl, inr, refl, sym, ap, ◌∙◌, arith, Bool, true, false,
  ◌||◌, none, some, List, [], ◌∷◌, eqb, length, get_or, get_elem?, set, Bool-cases, Option-cases,
  nat_eq, string_eq, ◌==◌,
}
use ai_pipe.Graph.{Edge}
use ai_pipe.Compiled.{
  Pass, index_of_ptr, k_invalid_index, k_invalid_port, find_port, cover, add_out_edge,
  compile_edges, uncovered_port, find_uncovered,
}

-- The port that `find_port` finds has the name that it looks for.
find_port-found :
    (port : String) (pi : ℕ) (ports : List String)
    → (find_port port pi ports ≡ k_invalid_port)
      ⊎ ((j : ℕ) × (find_port port pi ports ≡ pi + j) × (get_or ports j "" ≡ port))
unfolding find_port
find_port-found port pi [] = inl refl
find_port-found port pi (x ∷ ports) = elim (Bool-cases (x == port)) [
  | inl hit ↦ inr (0, rw hit (omega arith), (eq_iff x port).0 hit)
  | inr miss ↦ elim (find_port-found port (suc pi) ports) [
    | inl lost ↦ inl (rw miss lost)
    | inr (j, at, named) ↦ inr (suc j, rw miss (omega (arith, at)), named)
  ]
]

-- A write changes at most the entry that it names.
set-cases {ℓ} :
    {A : Type ℓ} (xs : List A) (i j : ℕ) (v d : A)
    → ((i ≡ j) × (get_or (set xs i v) j d ≡ v)) ⊎ (get_or (set xs i v) j d ≡ get_or xs j d)
set-cases [] i j v d = inr refl
set-cases (x ∷ xs) zero zero v d = inl (refl, refl)
set-cases (x ∷ xs) zero (suc j) v d = inr refl
set-cases (x ∷ xs) (suc i) zero v d = inr refl
set-cases (x ∷ xs) (suc i) (suc j) v d = elim (set-cases xs i j v d) [
  | inl (e, h) ↦ inl (ap suc e, h)
  | inr h ↦ inr h
]

abbrev pub covered_at : List (List Bool) → ℕ → ℕ → Bool
covered_at covered i pi = get_or (get_or covered i []) pi false

cover-cases :
    (dst pi i j : ℕ) (covered : List (List Bool))
    → covered_at (cover dst pi covered) i j ≡ true
    → ((dst ≡ i) × (pi ≡ j) × (pi ≢ k_invalid_port)) ⊎ (covered_at covered i j ≡ true)
unfolding cover
cover-cases dst pi i j covered h = elim (Bool-cases (eqb pi k_invalid_port)) [
  | inl lost ↦ inr (ground (arith, h))
  | inr found ↦
      let row = set (get_or covered dst []) pi true in
      let h' : covered_at (set covered dst row) i j ≡ true = ground (arith, h) in
      elim (set-cases covered dst i row []) [
        | inr kept ↦ inr (ap (λ l. get_or l j false) (sym kept) ∙ h')
        | inl (same, put) ↦ elim (set-cases (get_or covered dst []) pi j true false) [
          | inl (at, _) ↦ inl (same, at, λ bad. ground arith)
          | inr kept ↦ inr (
              ap (λ k. covered_at covered k j) (sym same)
              ∙ sym kept
              ∙ ap (λ l. get_or l j false) (sym put)
              ∙ h')
        ]
      ]
]

module _ (ptrs : List (ℕ × ℕ)) (input_ports : List (List String)) where
  -- An edge leads to that port of the node with that index.
  abbrev pub Fed : List Edge → ℕ → String → Type 0
  Fed es i port =
      (e : Edge) × (k : ℕ) × (get_elem? es k ≡ some e)
      × (index_of_ptr ptrs e.dest ≡ i)
      × (e.dest_port ≡ port)

  abbrev port_at : ℕ → ℕ → String
  port_at i pi = get_or (get_or input_ports i []) pi ""

  pub compile_edges-covered :
      (es : List Edge) (pass pass' : Pass) (i pi : ℕ)
      → compile_edges ptrs input_ports es pass ≡ some pass'
      → covered_at pass'.port_covered i pi ≡ true
      → (covered_at pass.port_covered i pi ≡ true) ⊎ Fed es i (port_at i pi)
  unfolding compile_edges add_out_edge
  compile_edges-covered [] pass pass' i pi h here =
      let same : pass ≡ pass' = cc in inl (ap (λ x. covered_at x.port_covered i pi) same ∙ here)
  compile_edges-covered (e ∷ es) pass pass' i pi h here =
      let src = index_of_ptr ptrs e.source in
      let dst = index_of_ptr ptrs e.dest in
      elim (Bool-cases (eqb src k_invalid_index || eqb dst k_invalid_index)) [
        | inl bad ↦ cc
        | inr good ↦
            elim (compile_edges-covered es (add_out_edge input_ports src dst e pass) pass' i pi
              (ground (arith, h, good)) here) [
                | inr (f, k, at, to, named) ↦ inr (f, suc k, at, to, named)
                | inl before ↦
                    elim (cover-cases dst (find_port e.dest_port 0 (get_or input_ports dst [])) i pi
                      pass.port_covered before) [
                        | inr earlier ↦ inl earlier
                        | inl (to, at, valid) ↦
                            elim (find_port-found e.dest_port 0 (get_or input_ports dst [])) [
                              | inl lost ↦ absurd (valid lost)
                              | inr (j, found, named) ↦
                                  let place : j ≡ pi = omega (arith, found, at) in
                                  inr (
                                    e,
                                    0,
                                    refl,
                                    to,
                                    sym (
                                        ap (λ d. port_at d pi) (sym to)
                                        ∙ ap (port_at dst) (sym place)
                                        ∙ named),
                                  )
                            ]
                      ]
              ]
      ]

uncovered_port-none :
    (ports : List String) (covered : List Bool) (pi : ℕ)
    → uncovered_port ports covered ≡ none
    → pi < length ports
    → get_or covered pi false ≡ true
unfolding uncovered_port
uncovered_port-none [] covered pi h lt = absurd (omega (arith, lt))
uncovered_port-none (port ∷ ports) [] pi h lt = cc
uncovered_port-none (port ∷ ports) (c ∷ covered) zero h lt = ground (arith, h)
uncovered_port-none (port ∷ ports) (c ∷ covered) (suc pi) h lt =
    uncovered_port-none ports covered pi (ground (arith, h)) (omega (arith, lt))

-- The validation passes only when each port of each node with incoming edges is covered.
pub find_uncovered-none :
    (ps : List ℕ) (input_ports : List (List String)) (in_degree : List ℕ)
    (covered : List (List Bool)) (i pi : ℕ)
    → length input_ports ≡ length ps
    → length in_degree ≡ length ps
    → length covered ≡ length ps
    → find_uncovered ps input_ports in_degree covered ≡ none
    → get_or in_degree i 0 ≢ 0
    → pi < length (get_or input_ports i [])
    → covered_at covered i pi ≡ true
unfolding find_uncovered
find_uncovered-none [] [] in_degree covered i pi l m n h some_edge lt = absurd (omega (arith, lt))
find_uncovered-none [] (x ∷ xs) in_degree covered i pi l m n h some_edge lt =
    absurd (omega (arith, l))
find_uncovered-none (p ∷ ps) [] in_degree covered i pi l m n h some_edge lt =
    absurd (omega (arith, l))
find_uncovered-none (p ∷ ps) (x ∷ xs) [] covered i pi l m n h some_edge lt =
    absurd (omega (arith, m))
find_uncovered-none (p ∷ ps) (x ∷ xs) (d ∷ ds) [] i pi l m n h some_edge lt =
    absurd (omega (arith, n))
find_uncovered-none (p ∷ ps) (x ∷ xs) (d ∷ ds) (c ∷ cs) zero pi l m n h some_edge lt =
    elim (Option-cases (uncovered_port x c)) [
      | inl fine ↦ uncovered_port-none x c pi fine lt
      | inr (port, bad) ↦ absurd (ground (arith, h, bad, some_edge))
    ]
find_uncovered-none (p ∷ ps) (x ∷ xs) (d ∷ ds) (c ∷ cs) (suc i) pi l m n h some_edge lt =
    find_uncovered-none ps xs ds cs i pi (omega (arith, l)) (omega (arith, m)) (omega (arith, n))
      (ground (arith, h)) some_edge lt
