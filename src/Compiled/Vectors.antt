-- ===== src/Compiled/Vectors.antt =====
-- Vectors that are filled, read and written by index, for include/ai_pipe/compiled_graph.hpp.
use ai_pipe.Prelude.{
  ℕ, zero, suc, ◌+◌, ◌-◌, ◌≤◌, ◌<◌, ◌≡◌, refl, sym, ap, ◌∙◌, arith, ◌&&◌, List, [], ◌∷◌, eqb, leb,
  ltb, length, get_or, set, get_or-set_self, get_or-set_ne, nat_eq, if◌then◌else◌, Bool-cases, inl,
  inr,
}
use ai_pipe.Prelude.Sets.{contains}
use ai_pipe.Prelude.Maps.{Distinct}
use ai_pipe.Topology.Peel.{zeros}
use ai_pipe.Compiled.{filled, indices, zero_places}

pub contains-indices : (i n q : ℕ) → contains (indices i n) q ≡ (leb i q && ltb q (i + n))
unfolding contains
contains-indices i zero q = ground arith
contains-indices i (suc n) q = ground (arith, contains-indices (suc i) n q)

pub indices-Distinct : (i n : ℕ) → Distinct (indices i n)
indices-Distinct i zero = tt
indices-Distinct i (suc n) =
    (ground (arith, contains-indices (suc i) n i), indices-Distinct (suc i) n)

pub length-indices : (i n : ℕ) → length (indices i n) ≡ n
length-indices i zero = refl
length-indices i (suc n) = ap suc (length-indices (suc i) n)

module _ {ℓ} {A : Type ℓ} where
  pub length-filled : (n : ℕ) (a : A) → length (filled n a) ≡ n
  length-filled zero a = refl
  length-filled (suc n) a = ap suc (length-filled n a)

  pub get_or-filled : (n i : ℕ) (a : A) → get_or (filled n a) i a ≡ a
  get_or-filled zero i a = refl
  get_or-filled (suc n) zero a = refl
  get_or-filled (suc n) (suc i) a = get_or-filled n i a

  -- A read after a write within bounds.
  pub get_or-set :
      (xs : List A) (i j : ℕ) (v d : A)
      → i < length xs
      → get_or (set xs i v) j d ≡ (if eqb i j then v else get_or xs j d)
  get_or-set xs i j v d h = elim (Bool-cases (eqb i j)) [
    | inl hit ↦
        let e : i ≡ j = ground arith in
        rw hit (ap (λ k. get_or (set xs i v) k d) (sym e) ∙ get_or-set_self xs i v d h)
    | inr miss ↦ rw miss (get_or-set_ne xs i j v d (λ e. ground arith))
  ]

  pub get_or-past : (xs : List A) (i : ℕ) (d : A) → length xs ≤ i → get_or xs i d ≡ d
  get_or-past [] i d h = refl
  get_or-past (x ∷ xs) zero d h = absurd (omega (arith, h))
  get_or-past (x ∷ xs) (suc i) d h = get_or-past xs i d (omega (arith, h))

-- A count that is lowered, in or out of bounds.
pub get_or-lower :
    (xs : List ℕ) (n q : ℕ)
    → get_or (set xs n (get_or xs n 0 - 1)) q 0
      ≡ (if eqb n q then get_or xs q 0 - 1 else get_or xs q 0)
get_or-lower [] n q = ground arith
get_or-lower (x ∷ xs) zero zero = refl
get_or-lower (x ∷ xs) zero (suc q) = ground arith
get_or-lower (x ∷ xs) (suc n) zero = ground arith
get_or-lower (x ∷ xs) (suc n) (suc q) = ground (arith, get_or-lower xs n q)

-- The places of the zeros are the indices whose entry is 0.
pub zero_places-zeros :
    (i : ℕ) (xs : List ℕ) (r : ℕ → ℕ)
    → ((k : ℕ) → k < length xs → r (i + k) ≡ get_or xs k 0)
    → zero_places i xs ≡ zeros r (indices i (length xs))
unfolding zero_places zeros
zero_places-zeros i [] r h = refl
zero_places-zeros i (x ∷ xs) r h =
    let first : r i ≡ x = ap r (omega arith) ∙ h 0 (omega arith) in
    let rest =
      zero_places-zeros (suc i) xs r (λ k lt. ap r (omega arith) ∙ h (suc k) (omega (arith, lt))) in
    ground (arith, first, rest)
