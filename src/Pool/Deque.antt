-- ===== src/Pool/Deque.antt =====
-- `WorkStealingDeque` of src/work_stealing_thread_pool.hpp, front first. Its mutex makes each method one step.
use mathlib.Core.List.{reverse, append-nil, append_assoc, reverse-append}
use ai_pipe.Prelude.{
  ℕ, zero, suc, ◌+◌, ◌/◌, ◌≤◌, ◌<◌, ◌≡◌, refl, ap, ◌∙◌, sym, arith, min, Bool, true, false, Option,
  none, some, List, [], ◌∷◌, ◌++◌, length,
}

module _ {ℓ} {A : Type ℓ} where
  unfoldable pub push_front : A → List A → List A
  push_front item xs = item ∷ xs

  unfoldable pub pop_front : List A → Option (A × List A)
  pop_front [] = none
  pop_front (x ∷ xs) = some (x, xs)

  -- The last item of `x ∷ xs`, and the others.
  unfoldable pub pull_back : A → List A → A × List A
  pull_back x [] = (x, [])
  pull_back x (y ∷ ys) = let rest = pull_back y ys in (rest.0, x ∷ rest.1)

  unfoldable pub steal_back : List A → Option (A × List A)
  steal_back [] = none
  steal_back (x ∷ xs) = some (pull_back x xs)

  -- The loop of `stealBatch`: what it has stolen, and what is left.
  pub steal_loop : ℕ → List A → List A × List A
  steal_loop zero xs = ([], xs)
  steal_loop (suc n) [] = ([], [])
  steal_loop (suc n) (x ∷ xs) =
      let last = pull_back x xs in let more = steal_loop n last.1 in (last.0 ∷ more.0, more.1)

  pub steal_batch : ℕ → List A → List A × List A
  steal_batch max_count xs = steal_loop (min max_count (length xs / 2 + 1)) xs

  pub is_empty : List A → Bool
  is_empty [] = true
  is_empty (x ∷ xs) = false

  pub pull_back_lem : (x : A) (xs : List A) → (pull_back x xs).1 ++ (pull_back x xs).0 ∷ [] ≡ x ∷ xs
  unfolding pull_back
  pull_back_lem x [] = refl
  pull_back_lem x (y ∷ ys) = ap (λ t. x ∷ t) (pull_back_lem y ys)

  pub steal_back_lem :
      (xs : List A) (x : A) (rest : List A) → steal_back xs ≡ some (x, rest) → xs ≡ rest ++ x ∷ []
  unfolding steal_back
  steal_back_lem [] x rest h = cc
  steal_back_lem (y ∷ ys) x rest h =
      let same : pull_back y ys ≡ (x, rest) = cc in
      sym (pull_back_lem y ys) ∙ ap (λ p. p.1 ++ p.0 ∷ []) same

  pub length-pull_back : (x : A) (xs : List A) → length (pull_back x xs).1 ≡ length xs
  unfolding pull_back
  length-pull_back x [] = refl
  length-pull_back x (y ∷ ys) = ap suc (length-pull_back y ys)

  -- A batch is stolen from the back: with the batch put back in reverse the queue is as it was.
  pub steal_loop-append :
      (n : ℕ) (xs : List A) → (steal_loop n xs).1 ++ reverse (steal_loop n xs).0 ≡ xs
  unfolding steal_loop
  steal_loop-append zero xs = append-nil xs
  steal_loop-append (suc n) [] = refl
  steal_loop-append (suc n) (x ∷ xs) =
      let last = pull_back x xs in
      ap (λ t. (steal_loop n last.1).1 ++ t) (reverse-append (last.0 ∷ []) (steal_loop n last.1).0)
      ∙ sym (append_assoc (steal_loop n last.1).1 (reverse (steal_loop n last.1).0) (last.0 ∷ []))
      ∙ ap (λ t. t ++ last.0 ∷ []) (steal_loop-append n last.1)
      ∙ pull_back_lem x xs

  length-steal_loop : (n : ℕ) (xs : List A) → n ≤ length xs → length (steal_loop n xs).0 ≡ n
  unfolding steal_loop
  length-steal_loop zero xs h = refl
  length-steal_loop (suc n) [] h = absurd (omega arith)
  length-steal_loop (suc n) (x ∷ xs) h =
      ap suc (length-steal_loop n (pull_back x xs).1 (omega (arith, length-pull_back x xs)))

  -- A batch of a deque that is not empty has the number of tasks asked for, or half of the tasks and one more
  -- if that is less.
  pub length-steal_batch :
      (max_count : ℕ) (xs : List A)
      → 0 < length xs
      → length (steal_batch max_count xs).0 ≡ min max_count (length xs / 2 + 1)
  unfolding steal_batch
  length-steal_batch max_count xs some_there =
      length-steal_loop (min max_count (length xs / 2 + 1)) xs (omega arith)
