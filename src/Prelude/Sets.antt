-- ===== src/Prelude/Sets.antt =====
-- An unordered set as a list that is asked by `contains`.
use mathlib.Core.Path.{◌≡◌, refl}
use mathlib.Core.Bool.{Bool, true, false, not, ◌&&◌, ◌||◌}
use mathlib.Core.List.{List, [], ◌∷◌}
use native.Mathlib.Omega.{arith}
use ai_pipe.Prelude.Tests.{HasEq, ◌==◌, if◌then◌else◌}

module _ {ℓ} {A : Type ℓ} ⦃e : HasEq A⦄ where
  unfoldable pub contains : List A → A → Bool
  contains [] a = false
  contains (x ∷ xs) a = x == a || contains xs a

  unfoldable pub insert : A → List A → List A
  insert a xs = if contains xs a then xs else a ∷ xs

  unfoldable pub erase : A → List A → List A
  erase a [] = []
  erase a (x ∷ xs) = if x == a then erase a xs else x ∷ erase a xs

  unfoldable pub keep : (A → Bool) → List A → List A
  keep p [] = []
  keep p (x ∷ xs) = if p x then x ∷ keep p xs else keep p xs

  pub contains-insert :
      (a b : A) (xs : List A) → contains (insert a xs) b ≡ (a == b || contains xs b)
  unfolding contains insert
  contains-insert a b xs = ground (arith, e.same_iff a b)

  pub contains-erase :
      (a b : A) (xs : List A) → contains (erase a xs) b ≡ (not (a == b) && contains xs b)
  unfolding contains erase
  contains-erase a b [] = ground arith
  contains-erase a b (x ∷ xs) =
      ground (arith, contains-erase a b xs, e.same_iff x a, e.same_iff x b, e.same_iff a b)

  pub contains-keep :
      (p : A → Bool) (b : A) (xs : List A) → contains (keep p xs) b ≡ (p b && contains xs b)
  unfolding contains keep
  contains-keep p b [] = ground arith
  contains-keep p b (x ∷ xs) = ground (arith, contains-keep p b xs, e.same_iff x b)

  pub same_refl : (a : A) → (a == a) ≡ true
  same_refl a = (e.same_iff a a).1 refl
