-- ===== src/Queue/Node/Pop.antt =====
-- `tryPop` and `clear` of `LockFreeNodeQueue` of src/lock_free_queue.hpp, on the list that the queue holds.
use ai_pipe.Prelude.{
  ℕ, zero, suc, ◌+◌, ◌<◌, ◌≡◌, refl, subst, arith, none, some, List, [], ◌∷◌, length,
}
use ai_pipe.Prelude.Words.{word}
use ai_pipe.Queue.Ring.{Default, Ring, size}
use ai_pipe.Queue.Ring.Holds.{Holds}
use ai_pipe.Queue.Ring.Fifo.{try_pop-cons, try_pop-nil, size_lem}
use ai_pipe.Queue.Node.{NodeQueue, counted, pop, clear, drain}

module _ {A : Type 0} ⦃b : Default A⦄ where
  -- `tryPop` takes the oldest item and counts it.
  pub pop-cons :
      (q : NodeQueue A) (d : ℕ) (x : A) (rest : List A)
      → Holds q.queue d (x ∷ rest)
      → (r : Ring A) × (pop q
          ≡ some (
            some x,
            record q {
              queue = r;
              stats = record (q.stats) { total_popped = counted q q.stats.total_popped };
            },
          ))
        × Holds r (d + 1) rest
  unfolding pop
  pop-cons q d x rest h =
      let (r, popped, _, held) = try_pop-cons h x rest refl in (r, rw (popped, pop), held)

  pub pop-nil : (q : NodeQueue A) (d : ℕ) → Holds q.queue d [] → pop q ≡ some (none, q)
  unfolding pop
  pop-nil q d h = rw (try_pop-nil h refl, pop)

  drain_lem :
      (xs : List A) (r : Ring A) (d fuel : ℕ)
      → Holds r d xs
      → length xs < fuel
      → (r' : Ring A) × (drain fuel r ≡ some r') × Holds r' (d + length xs) []
  unfolding drain
  drain_lem xs r d zero h lt = elim lt [ ]
  drain_lem [] r d (suc fuel) h lt =
      rw (try_pop-nil h refl, drain) (r, refl, subst (λ n. Holds r n []) (omega arith) h)
  drain_lem (x ∷ xs) r d (suc fuel) h lt =
      let (r₁, popped, _, held) = try_pop-cons h x xs refl in
      let (r₂, ran, left) = drain_lem xs r₁ (d + 1) fuel held (omega arith) in
      rw (popped, drain) (r₂, ran, subst (λ n. Holds r₂ n []) (omega arith) left)

  -- `clear` ends. It empties the queue and leaves the counters and the callback alone, if the
  -- positions of the ring have not wrapped.
  pub clear_lem :
      (q : NodeQueue A) (d : ℕ) (xs : List A)
      → Holds q.queue d xs
      → d + length xs < word
      → (r : Ring A) × (clear q ≡ some (record q { queue = r })) × Holds r (d + length xs) []
  unfolding clear
  clear_lem q d xs h lt =
      let (r, ran, held) =
        drain_lem xs q.queue d (suc (size q.queue)) h (omega (arith, size_lem h lt)) in
      (r, rw (ran, clear), held)
