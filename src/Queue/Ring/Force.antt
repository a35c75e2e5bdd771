-- ===== src/Queue/Ring/Force.antt =====
-- `LockFreeMPMCQueue::forcePush` of src/lock_free_queue.hpp. The victim stands beside the answer. Alone at
-- work, the last loop, which pops until a push goes through, pushes in its first round.
use native.Mathlib.Decide.{dec_lt}
use ai_pipe.Prelude.{
  ℕ, zero, suc, ◌+◌, ◌<◌, ◌≡◌, ◌⊎◌, ap, ◌∙◌, arith, Bool, true, false, Option, none, some, List, [],
  ◌∷◌, ◌++◌, inl, inr, length, lt→ltb, if◌then◌else◌, ◌>>=◌, List-cases, subst,
}
use ai_pipe.Queue.Ring.{Default, Ring, try_push, try_pop}
use ai_pipe.Queue.Ring.Holds.{Holds, cap_range}
use ai_pipe.Queue.Ring.Fifo.{try_push_lem, try_push-full, try_pop-cons}

module _ {A : Type 0} where
  -- `for (spin = 0; spin < n; ++spin) if (tryPush(item)) ...`
  pub spin_push : ℕ → Ring A → A → Option (Bool × Ring A)
  spin_push zero r item = some (false, r)
  spin_push (suc n) r item = do
    (pushed, r') ← try_push r item
    elim pushed [ true ↦ some (true, r') | false ↦ spin_push n r' item ]

module _ {A : Type 0} ⦃b : Default A⦄ where
  -- Phase 2: evict once more, and push.
  pub evict_again : ℕ → Ring A → A → Option (Bool × Ring A)
  evict_again zero r item = some (false, r)
  evict_again (suc n) r item = do
    (victim, r₁) ← try_pop r
    let attempt : Option (Bool × Ring A) = elim victim [
      | none ↦ some (false, r₁)
      | some _ ↦ spin_push 256 r₁ item
    ]
    (done, r₂) ← attempt
    elim done [
      | true ↦ some (true, r₂)
      | false ↦ do
        (pushed, r₃) ← try_push r₂ item
        elim pushed [ true ↦ some (true, r₃) | false ↦ evict_again n r₃ item ]
    ]

  -- Phase 3.
  pub assist : ℕ → Ring A → A → Option (Ring A)
  assist zero r item = none
  assist (suc fuel) r item = do
    (pushed, r₁) ← try_push r item
    elim pushed [ true ↦ some r₁ | false ↦ do (_, r₂) ← try_pop r₁; assist fuel r₂ item ]

  -- The victim is gone: the item must go in.
  pub push_after_eviction : Ring A → A → Option (Ring A)
  push_after_eviction r item = do
    (done, r₁) ← spin_push 256 r item
    elim done [
      | true ↦ some r₁
      | false ↦ do
        (again, r₂) ← evict_again 8 r₁ item
        elim again [ true ↦ some r₂ | false ↦ assist 2 r₂ item ]
    ]

  pub push_without_eviction : Ring A → A → Option (Ring A)
  push_without_eviction r item = do
    (done, r₁) ← spin_push 256 r item
    elim done [ true ↦ some r₁ | false ↦ do (_, r₂) ← try_push r₁ item; some r₂ ]

  pub force_push : Ring A → A → Option (Bool × (Option A × Ring A))
  force_push r item = do
    (pushed, r₁) ← try_push r item
    elim pushed [
      | true ↦ some (false, (none, r₁))
      | false ↦ do
        (victim, r₂) ← try_pop r₁
        elim victim [
          | none ↦ do r₃ ← push_without_eviction r₂ item; some (false, (none, r₃))
          | some x ↦ do r₃ ← push_after_eviction r₂ item; some (true, (some x, r₃))
        ]
    ]

module _ {A : Type 0} {r : Ring A} {d : ℕ} {xs : List A} (h : Holds r d xs) where
  try_push-room :
      (item : A)
      → length xs < r.capacity
      → (r' : Ring A) × (try_push r item ≡ some (true, r')) × Holds r' d (xs ++ item ∷ [])
  try_push-room item lt =
      let (r', e, _, held) = try_push_lem h item in
      let room = lt→ltb (length xs) r.capacity lt in
      (
        r',
        e ∙ ap (λ (t : Bool). some (t, r')) room,
        subst (λ (t : Bool). Holds r' d (if t then xs ++ item ∷ [] else xs)) room held,
      )

  spin_push-room :
      (n : ℕ) (item : A)
      → length xs < r.capacity
      → (r' : Ring A) × (spin_push (suc n) r item ≡ some (true, r')) × Holds r' d (xs ++ item ∷ [])
  unfolding spin_push
  spin_push-room n item lt =
      let (r', e, held) = try_push-room item lt in (r', rw (e, spin_push), held)

module _ {A : Type 0} ⦃b : Default A⦄ {r : Ring A} {d : ℕ} {xs : List A} (h : Holds r d xs) where
  -- `forcePush` ends and takes the item. With room it evicts nothing and returns false. In a full ring it
  -- hands out the oldest item, returns true, and the ring then holds the others and the new item.
  pub force_push_lem :
      (item : A)
      → ((length xs < r.capacity)
          × (r' : Ring A) × (force_push r item ≡ some (false, (none, r')))
          × Holds r' d (xs ++ item ∷ []))
        ⊎ ((x : A) × (rest : List A) × (xs ≡ x ∷ rest)
            × (r' : Ring A) × (force_push r item ≡ some (true, (some x, r')))
            × Holds r' (d + 1) (rest ++ item ∷ []))
  unfolding force_push push_after_eviction
  force_push_lem item = elim (dec_lt (length xs) r.capacity) [
    | yes lt ↦ let (r', e, held) = try_push-room h item lt in inl (lt, r', rw (e, force_push), held)
    | no full ↦
        let whole : length xs ≡ r.capacity = omega (arith, h.room) in
        elim (List-cases xs) [
          | inl nil ↦ absurd (omega (arith, ap (λ (l : List A). length l) nil, cap_range h))
          | inr (x, rest, e) ↦
              let (r₁, popped, same, held) = try_pop-cons h x rest e in
              let (r₂, spun, held₂) =
                spin_push-room held 255 item
                  (omega (arith, whole, same, ap (λ (l : List A). length l) e)) in
              inr (x, rest, e, r₂, rw (try_push-full h item whole, popped, spun, force_push), held₂)
        ]
  ]
