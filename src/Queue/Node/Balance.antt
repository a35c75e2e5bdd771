-- ===== src/Queue/Node/Balance.antt =====
-- The accounts of `LockFreeNodeQueue` of src/lock_free_queue.hpp over histories of pushes and pops: no
-- item is lost uncounted.
use ai_pipe.Prelude.{
  ℕ, ◌+◌, ◌%◌, ◌^◌, ◌⊎◌, ◌≤◌, ◌<◌, ◌≡◌, refl, ap, ◌∙◌, arith, Bool, true, false, Option, some, List,
  [], ◌∷◌, ◌++◌, length, length-append, length-drop, drop, if◌then◌else◌, ◌>>=◌, inl, inr,
}
use ai_pipe.Prelude.Words.{word, add_word}
use ai_pipe.Queue.Ring.{Default, size}
use ai_pipe.Queue.Ring.Holds.{Holds, cap_range}
use ai_pipe.Queue.Ring.Fifo.{size_lem, make_ring-Holds}
use ai_pipe.Queue.Node.{
  NodeQueue, Config, DropPolicy, drop_tail, drop_head, keep_latest, counted, push, pop, push_by,
  make_queue,
}
use ai_pipe.Queue.Node.Pop.{pop-cons, pop-nil}
use ai_pipe.Queue.Node.Push.{PushedAfter}
use ai_pipe.Queue.Node.Policies.{
  Fresh, target_pos, push_drop_tail_lem, push_drop_head_lem, push_keep_latest_lem,
}

-- With statistics on: every item that was accepted was popped, dropped, or is still held.
pub record Balanced {A : Type 0} (q : NodeQueue A) (d : ℕ) (xs : List A) : Type 0 where
  pub tracked : q.config.track_statistics ≡ true
  pub holds : Holds q.queue d xs
  pub gone : q.stats.total_popped + q.stats.total_dropped ≡ d
  pub entered : q.stats.total_pushed ≡ d + length xs

pub data Op (A : Type 0) : Type 0 where
  pushes : A → Op A
  pops : Op A

module _ {A : Type 0} ⦃b : Default A⦄ where
  -- One operation, and a history of them. A pop of an empty queue changes nothing.
  pub step : NodeQueue A → Op A → Option (NodeQueue A)
  step q (pushes item) = push q item >>= λ (_, q'). some q'
  step q pops = pop q >>= λ (_, q'). some q'

  pub run : NodeQueue A → List (Op A) → Option (NodeQueue A)
  run q [] = some q
  run q (op ∷ ops) = do q' ← step q op; run q' ops

  abbrev rejected : NodeQueue A → NodeQueue A
  rejected q = record q {
    stats = record (q.stats) { total_rejected = counted q q.stats.total_rejected };
  }

  -- What any push does: it takes the item after `k` evictions, or rejects it.
  abbrev Pushes : NodeQueue A → ℕ → List A → A → Option (Bool × NodeQueue A) → Type 0
  Pushes q d xs item result =
      ((k : ℕ) × (q' : NodeQueue A) × (result ≡ some (true, q'))
        × (k ≤ length xs)
        × PushedAfter q d xs item k q')
      ⊎ (result ≡ some (false, rejected q))

  push_lem :
      (q : NodeQueue A) (d : ℕ) (xs : List A) (item : A) (policy : DropPolicy)
      → q.config.drop_policy ≡ policy
      → Fresh q d xs
      → Pushes q d xs item (push q item)
  unfolding push
  push_lem q d xs item drop_tail e f = elim (push_drop_tail_lem q f item) [
    | inl (room, q', done, after) ↦
        inl (0, q', ap (λ p. push_by p q item) e ∙ done, omega arith, after)
    | inr (full, done) ↦ inr (ap (λ p. push_by p q item) e ∙ done)
  ]
  push_lem q d xs item drop_head e f =
      let (q', done, after) = push_drop_head_lem q f item in
      inl (_, q', ap (λ p. push_by p q item) e ∙ done, omega (arith, cap_range f.holds), after)
  push_lem q d xs item keep_latest e f =
      let (q', done, after) = push_keep_latest_lem q f item in
      inl (
        _,
        q',
        ap (λ p. push_by p q item) e ∙ done,
        omega (arith, cap_range f.holds, target_pos q),
        after,
      )

  after-Balanced :
      (q : NodeQueue A) (d : ℕ) (xs : List A) (item : A) (k : ℕ) (q' : NodeQueue A)
      → Balanced q d xs
      → d + length xs + 1 < word
      → k ≤ length xs
      → PushedAfter q d xs item k q'
      → Balanced q' (d + k) (drop k xs ++ item ∷ [])
  after-Balanced q d xs item k q' v below le after =
      let dropped : q'.stats.total_dropped ≡ (q.stats.total_dropped + k) % word =
        after.dropped
        ∙ ap (λ (t : Bool). if t then add_word q.stats.total_dropped k else q.stats.total_dropped)
            v.tracked in
      let pushed : q'.stats.total_pushed ≡ (q.stats.total_pushed + 1) % word =
        after.pushed
        ∙ ap (λ (t : Bool). if t then add_word q.stats.total_pushed 1 else q.stats.total_pushed)
            v.tracked in
      record {
        tracked = ap (λ (c : Config). c.track_statistics) after.config_same ∙ v.tracked;
        holds = after.held;
        gone = omega (arith, after.popped_same, v.gone);
        entered = omega (arith, v.entered, length-append (drop k xs) (item ∷ []), length-drop k xs);
      }

  fresh :
      (q : NodeQueue A) (d : ℕ) (xs : List A)
      → Balanced q d xs
      → d + length xs + 1 < word
      → Fresh q d xs
  fresh q d xs v below = record { holds = v.holds; counter = omega (arith, v.gone); below = below }

  -- The accounts after one more operation, by which at most one item entered.
  abbrev Accounts : NodeQueue A → ℕ → Type 0
  Accounts q n = (d : ℕ) × (xs : List A) × Balanced q d xs × (d + length xs ≤ n)

  push-Balanced :
      (q : NodeQueue A) (d : ℕ) (xs : List A) (item : A)
      → Balanced q d xs
      → d + length xs + 1 < word
      → (q' : NodeQueue A) × (step q (pushes item) ≡ some q') × Accounts q' (d + length xs + 1)
  unfolding step
  push-Balanced q d xs item v below =
      elim (push_lem q d xs item q.config.drop_policy refl (fresh q d xs v below)) [
        | inl (k, q', done, le, after) ↦
            rw (done, step)
              (
                q',
                refl,
                (
                  d + k,
                  drop k xs ++ item ∷ [],
                  after-Balanced q d xs item k q' v below le after,
                  omega (arith, length-append (drop k xs) (item ∷ []), length-drop k xs),
                ),
              )
        | inr done ↦
            rw (done, step)
              (
                rejected q,
                refl,
                (
                  d,
                  xs,
                  record {
                    tracked = v.tracked;
                    holds = v.holds;
                    gone = v.gone;
                    entered = v.entered;
                  },
                  omega arith,
                ),
              )
      ]

  pop-Balanced :
      (q : NodeQueue A) (d : ℕ) (xs : List A)
      → Balanced q d xs
      → d + length xs + 1 < word
      → (q' : NodeQueue A) × (step q pops ≡ some q') × Accounts q' (d + length xs + 1)
  unfolding step
  pop-Balanced q d [] v below = rw (pop-nil q d v.holds, step) (q, refl, (d, [], v, omega arith))
  pop-Balanced q d (x ∷ rest) v below =
      let (r, done, held) = pop-cons q d x rest v.holds in
      let popped : counted q q.stats.total_popped ≡ (q.stats.total_popped + 1) % word =
        ap (λ (t : Bool). if t then add_word q.stats.total_popped 1 else q.stats.total_popped)
          v.tracked in
      rw (done, step)
        (
          _,
          refl,
          (
            d + 1,
            rest,
            record {
              tracked = v.tracked;
              holds = held;
              gone = omega (arith, popped, v.gone);
              entered = omega (arith, v.entered);
            },
            omega arith,
          ),
        )

  run-Balanced :
      (ops : List (Op A)) (q : NodeQueue A) (d : ℕ) (xs : List A)
      → Balanced q d xs
      → d + length xs + length ops + 1 < word
      → (q' : NodeQueue A) × (run q ops ≡ some q') × Accounts q' (d + length xs + length ops)
  unfolding run
  run-Balanced [] q d xs v below = (q, refl, (d, xs, v, omega arith))
  run-Balanced (pushes item ∷ ops) q d xs v below =
      let (q₁, done, (d₁, xs₁, v₁, le)) = push-Balanced q d xs item v (omega arith) in
      let (q₂, ran, (d₂, xs₂, v₂, le₂)) = run-Balanced ops q₁ d₁ xs₁ v₁ (omega arith) in
      rw (done, run) (q₂, ran, (d₂, xs₂, v₂, omega arith))
  run-Balanced (pops ∷ ops) q d xs v below =
      let (q₁, done, (d₁, xs₁, v₁, le)) = pop-Balanced q d xs v (omega arith) in
      let (q₂, ran, (d₂, xs₂, v₂, le₂)) = run-Balanced ops q₁ d₁ xs₁ v₁ (omega arith) in
      rw (done, run) (q₂, ran, (d₂, xs₂, v₂, omega arith))

  account :
      (q : NodeQueue A) (d : ℕ) (xs : List A)
      → Balanced q d xs
      → d + length xs < word
      → q.stats.total_pushed ≡ q.stats.total_popped + q.stats.total_dropped + size q.queue
  account q d xs v below = omega (arith, v.entered, v.gone, size_lem v.holds below)

  -- After any history of pushes and pops of a new queue whose capacity is at most 2^63 and that
  -- tracks statistics, under every drop policy, no call hangs, and the pushes that were counted are
  -- the pops, the drops and the items still held, if the history is shorter than 2^64 - 1.
  pub run_accounts :
      (c : Config) (ops : List (Op A))
      → c.track_statistics ≡ true
      → c.capacity ≤ 2 ^ 63
      → length ops + 1 < word
      → (q' : NodeQueue A) × (run (make_queue c) ops ≡ some q')
        × (q'.stats.total_pushed ≡ q'.stats.total_popped + q'.stats.total_dropped + size q'.queue)
  unfolding make_queue
  run_accounts c ops on cap below =
      let start : Balanced (make_queue c) 0 [] = record {
        tracked = on;
        holds = (make_ring-Holds c.capacity cap).0;
        gone = refl;
        entered = refl;
      } in
      let (q', ran, (d, xs, v, le)) = run-Balanced ops (make_queue c) 0 [] start (omega arith) in
      (q', ran, account q' d xs v (omega arith))
