-- ===== src/Prelude/Maps.antt =====
-- A map as an association list.
use mathlib.Core.Path.{◌≡◌, refl}
use mathlib.Core.Bool.{false, ◌||◌}
use mathlib.Core.Option
use mathlib.Core.Option.{Option, none, some}
use mathlib.Core.List.{List, [], ◌∷◌}
use native.Mathlib.Omega.{arith}
use ai_pipe.Prelude.Sets.{contains}
use ai_pipe.Prelude.Tests.{HasEq, ◌==◌, if◌then◌else◌}

-- No key stands twice.
abbrev pub Distinct {ℓ} : {K : Type ℓ} ⦃e : HasEq K⦄ → List K → Type 0
Distinct [] = Unit {0}
Distinct (k ∷ ks) = (contains ks k ≡ false) × Distinct ks

module _ {ℓ κ} {K : Type ℓ} {V : Type κ} ⦃e : HasEq K⦄ where
  unfoldable pub lookup : K → List (K × V) → Option V
  lookup k [] = none
  lookup k ((j, v) ∷ m) = if j == k then some v else lookup k m

  -- `m[k] = v`: in place where the key is there, else at the end.
  unfoldable pub assign : K → V → List (K × V) → List (K × V)
  assign k v [] = (k, v) ∷ []
  assign k v ((j, w) ∷ m) = if j == k then (j, v) ∷ m else (j, w) ∷ assign k v m

  -- A write through the iterator that `find` returns.
  unfoldable pub modify : K → (V → V) → List (K × V) → List (K × V)
  modify k f [] = []
  modify k f ((j, w) ∷ m) = if j == k then (j, f w) ∷ m else (j, w) ∷ modify k f m

  unfoldable pub erase_key : K → List (K × V) → List (K × V)
  erase_key k [] = []
  erase_key k ((j, w) ∷ m) = if j == k then erase_key k m else (j, w) ∷ erase_key k m

  -- A loop over all entries that may write the values.
  unfoldable pub map_entries : (K → V → V) → List (K × V) → List (K × V)
  map_entries f [] = []
  map_entries f ((j, w) ∷ m) = (j, f j w) ∷ map_entries f m

  unfoldable pub keys : List (K × V) → List K
  keys [] = []
  keys ((j, w) ∷ m) = j ∷ keys m

  pub lookup-assign :
      (k j : K) (v : V) (m : List (K × V))
      → lookup j (assign k v m) ≡ (if k == j then some v else lookup j m)
  unfolding lookup assign
  lookup-assign k j v [] = refl
  lookup-assign k j v ((i, w) ∷ m) =
      ground (arith, lookup-assign k j v m, e.same_iff i k, e.same_iff i j, e.same_iff k j)

  pub lookup-modify :
      (k j : K) (f : V → V) (m : List (K × V))
      → lookup j (modify k f m) ≡ (if k == j then Option.map f (lookup j m) else lookup j m)
  unfolding lookup modify
  lookup-modify k j f [] = ground arith
  lookup-modify k j f ((i, w) ∷ m) =
      ground (arith, lookup-modify k j f m, e.same_iff i k, e.same_iff i j, e.same_iff k j)

  pub lookup-erase_key :
      (k j : K) (m : List (K × V))
      → lookup j (erase_key k m) ≡ (if k == j then none else lookup j m)
  unfolding lookup erase_key
  lookup-erase_key k j [] = ground arith
  lookup-erase_key k j ((i, w) ∷ m) =
      ground (arith, lookup-erase_key k j m, e.same_iff i k, e.same_iff i j, e.same_iff k j)

  pub lookup-map_entries :
      (f : K → V → V) (j : K) (m : List (K × V))
      → lookup j (map_entries f m) ≡ Option.map (f j) (lookup j m)
  unfolding lookup map_entries
  lookup-map_entries f j [] = refl
  lookup-map_entries f j ((i, w) ∷ m) = ground (arith, lookup-map_entries f j m, e.same_iff i j)

  pub keys-modify : (k : K) (f : V → V) (m : List (K × V)) → keys (modify k f m) ≡ keys m
  unfolding keys modify
  keys-modify k f [] = refl
  keys-modify k f ((j, w) ∷ m) = ground (arith, keys-modify k f m)

  pub keys-map_entries : (f : K → V → V) (m : List (K × V)) → keys (map_entries f m) ≡ keys m
  unfolding keys map_entries
  keys-map_entries f [] = refl
  keys-map_entries f ((j, w) ∷ m) = ground (arith, keys-map_entries f m)

  contains-keys-erase_key :
      (k j : K) (m : List (K × V))
      → contains (keys m) j ≡ false
      → contains (keys (erase_key k m)) j ≡ false
  unfolding contains keys erase_key
  contains-keys-erase_key k j [] h = refl
  contains-keys-erase_key k j ((i, w) ∷ m) h = ground (arith, contains-keys-erase_key k j m)

  pub erase_key-Distinct :
      (k : K) (m : List (K × V)) → Distinct (keys m) → Distinct (keys (erase_key k m))
  unfolding keys erase_key
  erase_key-Distinct k [] v = tt
  erase_key-Distinct k ((i, w) ∷ m) v =
      ground (arith, contains-keys-erase_key k i m v.0, erase_key-Distinct k m v.1)

  contains-keys-assign :
      (k j : K) (v : V) (m : List (K × V))
      → contains (keys (assign k v m)) j ≡ (k == j || contains (keys m) j)
  unfolding contains keys assign
  contains-keys-assign k j v [] = ground arith
  contains-keys-assign k j v ((i, w) ∷ m) =
      ground (arith, contains-keys-assign k j v m, e.same_iff i k, e.same_iff i j, e.same_iff k j)

  pub assign-Distinct :
      (k : K) (v : V) (m : List (K × V)) → Distinct (keys m) → Distinct (keys (assign k v m))
  unfolding keys assign contains
  assign-Distinct k v [] d = (refl, tt)
  assign-Distinct k v ((i, w) ∷ m) d = ground (
    arith,
    contains-keys-assign k i v m,
    assign-Distinct k v m d.1,
    e.same_iff i k,
    e.same_iff k i,
  )
