-- ===== src/Topology/Counting.antt =====
-- Occurrences, sums over a list without repetition, and lists that fit into others.
use ai_pipe.Prelude.{
  ℕ, suc, ◌+◌, ◌≤◌, ◌<◌, ◌≡◌, ◌≢◌, inl, inr, refl, arith, true, false, List, [], ◌∷◌, ◌++◌, eqb,
  nat_eq, if◌then◌else◌, length, Bool-cases,
}
use ai_pipe.Prelude.Sets.{contains}
use ai_pipe.Prelude.Maps.{Distinct}

-- How often a number occurs.
unfoldable pub occurrences : ℕ → List ℕ → ℕ
occurrences q [] = 0
occurrences q (x ∷ xs) = let rest = occurrences q xs in if eqb x q then suc rest else rest

unfoldable pub total : (ℕ → ℕ) → List ℕ → ℕ
total f [] = 0
total f (x ∷ xs) = f x + total f xs

pub occurrences-end :
    (q n : ℕ) (xs : List ℕ)
    → occurrences q (xs ++ n ∷ []) ≡ occurrences q xs + (if eqb n q then 1 else 0)
unfolding occurrences
occurrences-end q n [] = ground arith
occurrences-end q n (x ∷ xs) = ground (arith, occurrences-end q n xs)

-- Every number of a list has the property.
abbrev pub Within : List ℕ → List ℕ → Type 0
Within [] ys = Unit {0}
Within (x ∷ xs) ys = (contains ys x ≡ true) × Within xs ys

pub total-same :
    (f g : ℕ → ℕ) (s : ℕ) (xs : List ℕ)
    → ((u : ℕ) → u ≢ s → g u ≡ f u)
    → contains xs s ≡ false
    → total g xs ≡ total f xs
unfolding total contains
total-same f g s [] same out = refl
total-same f g s (x ∷ xs) same out = ground (arith, total-same f g s xs same, same x)

-- A change at one place of a list without repetition changes the sum by as much.
pub total-bump :
    (f g : ℕ → ℕ) (s d : ℕ) (xs : List ℕ)
    → ((u : ℕ) → u ≢ s → g u ≡ f u)
    → g s ≡ f s + d
    → Distinct xs
    → contains xs s ≡ true
    → total g xs ≡ total f xs + d
unfolding total contains
total-bump f g s d [] same bump v here = cc
total-bump f g s d (x ∷ xs) same bump v here = elim (Bool-cases (eqb x s)) [
  | inl hit ↦ let e : x ≡ s = ground arith in ground (arith, total-same f g s xs same, v.0, e, bump)
  | inr miss ↦ ground (arith, total-bump f g s d xs same bump v.1, same x)
]

pub total-ge : (f : ℕ → ℕ) (s : ℕ) (xs : List ℕ) → contains xs s ≡ true → f s ≤ total f xs
unfolding total contains
total-ge f s [] here = cc
total-ge f s (x ∷ xs) here = ground (arith, total-ge f s xs)

-- Take one number out of a list, once.
remove : ℕ → List ℕ → List ℕ
remove x [] = []
remove x (y ∷ ys) = if eqb y x then ys else y ∷ remove x ys

length-remove :
    (x : ℕ) (ys : List ℕ) → contains ys x ≡ true → suc (length (remove x ys)) ≡ length ys
unfolding remove contains
length-remove x [] h = cc
length-remove x (y ∷ ys) h = ground (arith, length-remove x ys)

contains-remove :
    (x z : ℕ) (ys : List ℕ)
    → eqb x z ≡ false
    → contains ys z ≡ true
    → contains (remove x ys) z ≡ true
unfolding remove contains
contains-remove x z [] ne h = cc
contains-remove x z (y ∷ ys) ne h = ground (arith, contains-remove x z ys ne)

Within-remove :
    (x : ℕ) (xs ys : List ℕ) → contains xs x ≡ false → Within xs ys → Within xs (remove x ys)
unfolding contains
Within-remove x [] ys out v = tt
Within-remove x (z ∷ xs) ys out v =
    (contains-remove x z ys (ground arith) v.0, Within-remove x xs ys (ground arith) v.1)

-- A list without repetition is not longer than a list that it fits into.
pub pigeonhole : (xs ys : List ℕ) → Distinct xs → Within xs ys → length xs ≤ length ys
pigeonhole [] ys v w = omega arith
pigeonhole (x ∷ xs) ys v w =
    omega (
      arith,
      length-remove x ys w.0,
      pigeonhole xs (remove x ys) v.1 (Within-remove x xs ys v.0 w.1),
    )

pub total-positive :
    (f : ℕ → ℕ) (xs : List ℕ) → 0 < total f xs → (u : ℕ) × (contains xs u ≡ true) × (0 < f u)
unfolding total contains
total-positive f [] h = absurd (omega arith)
total-positive f (x ∷ xs) h = elim (Bool-cases (eqb (f x) 0)) [
  | inl none_here ↦
      let (u, here, pos) = total-positive f xs (ground arith) in (u, ground arith, pos)
  | inr some_here ↦ (x, ground arith, ground arith)
]
