-- ===== src/Compiled/Index.antt =====
-- The map from nodes to indices of include/ai_pipe/compiled_graph.hpp.
use ai_pipe.Prelude.{
  ℕ, zero, suc, ◌+◌, ◌<◌, ◌≡◌, ◌≢◌, refl, sym, ap, ◌∙◌, arith, true, false, List, [], ◌∷◌, eqb,
  length, get_elem?, lt-length_of_get_elem?, nat_eq, if◌then◌else◌, some, Bool-cases, inl, inr,
}
use ai_pipe.Prelude.Sets.{contains}
use ai_pipe.Prelude.Maps.{Distinct, lookup, assign, lookup-assign}
use ai_pipe.Compiled.{index_ptrs, index_of_ptr, k_invalid_index}

-- Where a number stands first.
place : ℕ → List ℕ → ℕ
place q [] = 0
place q (p ∷ ps) = let rest = place q ps in if eqb p q then 0 else suc rest

get_elem?-place : (q : ℕ) (ps : List ℕ) → contains ps q ≡ true → get_elem? ps (place q ps) ≡ some q
unfolding contains place
get_elem?-place q [] h = cc
get_elem?-place q (p ∷ ps) h = elim (Bool-cases (eqb p q)) [
  | inl hit ↦ rw hit (ground arith)
  | inr miss ↦ rw miss (get_elem?-place q ps (ground arith))
]

place-get_elem? :
    (i q : ℕ) (ps : List ℕ)
    → Distinct ps
    → get_elem? ps i ≡ some q
    → (place q ps ≡ i) × (contains ps q ≡ true)
unfolding contains place
place-get_elem? i q [] v h = cc
place-get_elem? zero q (p ∷ ps) v h = ground (arith, h)
place-get_elem? (suc i) q (p ∷ ps) v h = ground (arith, place-get_elem? i q ps v.1 h, v.0)

lookup-index_ptrs :
    (i q : ℕ) (ps : List ℕ) (m : List (ℕ × ℕ))
    → Distinct ps
    → lookup q (index_ptrs i ps m) ≡ (if contains ps q then some (i + place q ps) else lookup q m)
unfolding index_ptrs contains place
lookup-index_ptrs i q [] m v = refl
lookup-index_ptrs i q (p ∷ ps) m v = elim (Bool-cases (eqb p q)) [
  | inl hit ↦
      ground (arith, lookup-index_ptrs (suc i) q ps (assign p i m) v.1, lookup-assign p q i m, v.0)
  | inr miss ↦
      ground (arith, lookup-index_ptrs (suc i) q ps (assign p i m) v.1, lookup-assign p q i m)
]

abbrev pub index_in : List ℕ → ℕ → ℕ
index_in nodes p = index_of_ptr (index_ptrs 0 nodes []) p

-- The index of a node is where it stands; another pointer has the invalid index.
index_in-place :
    (nodes : List ℕ) (p : ℕ)
    → Distinct nodes
    → index_in nodes p ≡ (if contains nodes p then place p nodes else k_invalid_index)
unfolding index_of_ptr lookup
index_in-place nodes p v = ground (arith, lookup-index_ptrs 0 p nodes [] v)

pub get_elem?-some {ℓ} :
    {A : Type ℓ} (xs : List A) (i : ℕ) → i < length xs → (x : A) × (get_elem? xs i ≡ some x)
get_elem?-some [] i h = absurd (omega (arith, h))
get_elem?-some (x ∷ xs) zero h = (x, refl)
get_elem?-some (x ∷ xs) (suc i) h = get_elem?-some xs i (omega (arith, h))

module _ (nodes : List ℕ) (distinct : Distinct nodes) where
  pub index_known : (p : ℕ) → contains nodes p ≡ true → get_elem? nodes (index_in nodes p) ≡ some p
  index_known p known =
      ap (get_elem? nodes) (
        index_in-place nodes p distinct
        ∙ ap (λ b. if b then place p nodes else k_invalid_index) known)
      ∙ get_elem?-place p nodes known

  pub index_lt : (p : ℕ) → contains nodes p ≡ true → index_in nodes p < length nodes
  index_lt p known = lt-length_of_get_elem? nodes (index_in nodes p) p (index_known p known)

  pub index_unknown : (p : ℕ) → contains nodes p ≡ false → index_in nodes p ≡ k_invalid_index
  index_unknown p unknown =
      index_in-place nodes p distinct
      ∙ ap (λ b. if b then place p nodes else k_invalid_index) unknown

  pub index_at :
      (i p : ℕ) → get_elem? nodes i ≡ some p → (index_in nodes p ≡ i) × (contains nodes p ≡ true)
  index_at i p h =
      let (here, known) = place-get_elem? i p nodes distinct h in
      (
        index_in-place nodes p distinct
            ∙ ap (λ b. if b then place p nodes else k_invalid_index) known
            ∙ here,
        known,
      )

  pub index_valid : (p : ℕ) → index_in nodes p ≢ k_invalid_index → contains nodes p ≡ true
  index_valid p valid = elim (Bool-cases (contains nodes p)) [
    | inl known ↦ known
    | inr unknown ↦ absurd (valid (index_unknown p unknown))
  ]

  -- Two pointers with one valid index are the same.
  pub index_inj :
      (p q : ℕ) → index_in nodes p ≢ k_invalid_index → index_in nodes p ≡ index_in nodes q → p ≡ q
  index_inj p q valid same =
      let here = index_known p (index_valid p valid) in
      let also = index_known q (index_valid q (λ h. valid (same ∙ h))) in
      let both : some p ≡ some q = sym here ∙ ap (get_elem? nodes) same ∙ also in cc
