-- ===== src/Queue/Node/Policies.antt =====
-- The three drop policies of `LockFreeNodeQueue`, as operations on the list that the queue holds.
use native.Mathlib.Decide.{dec_lt}
use ai_pipe.Prelude.{
  ℕ, suc, ◌+◌, ◌-◌, ◌<◌, ◌≡◌, refl, sym, ap, subst, ◌∙◌, arith, min, true, false, some, List,
  length, length-drop, drop, List-cases, inl, inr, ◌⊎◌,
}
use Prim.Native.String.{String}
use ai_pipe.Prelude.Words.{word}
use ai_pipe.Queue.Ring.{Default, size}
use ai_pipe.Queue.Ring.Holds.{Holds, cap_range}
use ai_pipe.Queue.Ring.Fifo.{try_push-full, size_lem}
use ai_pipe.Queue.Node.{
  NodeQueue, accepted, counted, evict, spin, evict_down, evict_rounds, push_drop_tail,
  push_drop_head, push_keep_latest, target_keep,
}
use ai_pipe.Queue.Node.Evict.{Evicted, Evicted-none, evict-Evicted}
use ai_pipe.Queue.Node.Push.{PushedAfter, push_attempt, spin_attempt, evict_down_lem}

-- The state of a queue whose 64-bit positions and counters have not wrapped.
pub record Fresh {A : Type 0} (q : NodeQueue A) (d : ℕ) (xs : List A) : Type 0 where
  pub holds : Holds q.queue d xs
  pub counter : q.stats.total_dropped < word
  pub below : d + length xs + 1 < word

abbrev pub window : {A : Type 0} → NodeQueue A → ℕ
window q = min (target_keep q) q.queue.capacity

pub target_pos : {A : Type 0} (q : NodeQueue A) → 0 < target_keep q
target_pos q = ground arith

module _ {A : Type 0} ⦃b : Default A⦄ (q : NodeQueue A) {d : ℕ} {xs : List A} (f : Fresh q d xs)
    (item : A) where
  start : Evicted q d xs 0 q
  start = Evicted-none q d xs f.holds f.counter

  -- In a full queue one eviction makes room, and the first attempt after it goes through.
  force :
      (k : ℕ) (q' : NodeQueue A)
      → Evicted q d xs k q'
      → length (drop k xs) ≡ q.queue.capacity
      → (reason : String) (n : ℕ)
      → (q₁ : NodeQueue A) × (evict q' reason n ≡ some (true, q₁))
        × (q₂ : NodeQueue A) × (spin 128 q₁ item ≡ some (true, q₂))
        × PushedAfter q d xs item (suc k) q₂
  force k q' v whole reason n = elim (List-cases (drop k xs)) [
    | inl nil ↦ absurd (omega (arith, ap (λ (l : List A). length l) nil, cap_range f.holds))
    | inr (x, rest, e) ↦
        let (q₁, gone, v₁) = evict-Evicted q d xs k q' v x rest e reason n in
        let (q₂, spun, after) =
          spin_attempt v₁ f.below 127 item
            (omega (arith, length-drop k xs, length-drop (suc k) xs, v₁.within)) in
        (q₁, gone, q₂, spun, after)
  ]

  -- From a queue that holds `xs` and whose positions and drop counter have not wrapped, DropTail
  -- takes the item if there is room. Otherwise it returns false, counts a rejection, and changes
  -- nothing else.
  pub push_drop_tail_lem :
      ((length xs < q.queue.capacity)
        × (q' : NodeQueue A) × (push_drop_tail q item ≡ some (true, q'))
        × PushedAfter q d xs item 0 q')
      ⊎ ((length xs ≡ q.queue.capacity)
          × (push_drop_tail q item
              ≡ some (
                false,
                record q {
                  stats = record (q.stats) { total_rejected = counted q q.stats.total_rejected };
                },
              )))
  unfolding push_drop_tail
  push_drop_tail_lem = elim (dec_lt (length xs) q.queue.capacity) [
    | yes room ↦
        let (r, pushed, after) = push_attempt start f.below item room in
        inl (room, accepted q r, rw (pushed, push_drop_tail), after)
    | no full ↦
        let whole : length xs ≡ q.queue.capacity = omega (arith, f.holds.room) in
        inr (whole, rw (try_push-full f.holds item whole, push_drop_tail))
  ]

  -- From a queue that holds `xs` and whose positions and drop counter have not wrapped, DropHead
  -- ends and takes the item. A full queue gives up its oldest item for it, which is counted as a
  -- drop and reported; otherwise none goes.
  pub push_drop_head_lem :
      (q' : NodeQueue A) × (push_drop_head q item ≡ some (true, q'))
      × PushedAfter q d xs item (suc (length xs) - q.queue.capacity) q'
  unfolding push_drop_head evict_rounds
  push_drop_head_lem = elim (dec_lt (length xs) q.queue.capacity) [
    | yes room ↦
        let (r, pushed, after) = push_attempt start f.below item room in
        let none_gone : 0 ≡ suc (length xs) - q.queue.capacity = omega arith in
        rw (pushed, push_drop_head)
          (
            accepted q r,
            refl,
            subst (λ k. PushedAfter q d xs item k (accepted q r)) none_gone after,
          )
    | no full ↦
        let whole : length xs ≡ q.queue.capacity = omega (arith, f.holds.room) in
        let (q₁, gone, q₂, spun, after) =
          force 0 q start whole "DropHead overflow" (size q.queue) in
        let one_gone : 1 ≡ suc (length xs) - q.queue.capacity = omega arith in
        rw (try_push-full f.holds item whole, gone, spun, push_drop_head)
          (q₂, refl, subst (λ k. PushedAfter q d xs item k q₂) one_gone after)
  ]

  keep_latest_finish :
      (k : ℕ) (q₁ : NodeQueue A)
      → k ≡ suc (length xs) - target_keep q
      → size q.queue ≡ length xs
      → evict_down (suc (length xs)) (target_keep q) q (length xs) ≡ some q₁
      → Evicted q d xs k q₁
      → (q' : NodeQueue A) × (push_keep_latest q item ≡ some (true, q'))
        × PushedAfter q d xs item (suc (length xs) - window q) q'
  unfolding push_keep_latest
  keep_latest_finish k q₁ e now ran v = elim (dec_lt (length (drop k xs)) q.queue.capacity) [
    | yes room ↦
        let (r, pushed, after) = push_attempt v f.below item room in
        let total : k ≡ suc (length xs) - window q =
          omega (arith, length-drop k xs, f.holds.room, v.within) in
        rw (now, ran, pushed, push_keep_latest)
          (accepted q₁ r, refl, subst (λ n. PushedAfter q d xs item n (accepted q₁ r)) total after)
    | no full ↦
        let whole : length (drop k xs) ≡ q.queue.capacity =
          omega (arith, length-drop k xs, f.holds.room) in
        let (q₂, gone, q₃, spun, after) =
          force k q₁ v whole "KeepLatest force overflow" (size q₁.queue) in
        let total : suc k ≡ suc (length xs) - window q =
          omega (arith, length-drop k xs, f.holds.room, cap_range f.holds) in
        rw
          (
            now,
            ran,
            try_push-full v.held item (whole ∙ sym v.capacity_same),
            gone,
            spun,
            push_keep_latest,
          )
          (q₃, refl, subst (λ n. PushedAfter q d xs item n q₃) total after)
  ]

  -- From a queue that holds `xs` and whose positions and drop counter have not wrapped, KeepLatest
  -- ends and takes the item. It first evicts the oldest items, as many as leave, with the new one,
  -- at most the window: `keep_latest_n`, at least one and at most the capacity. The evicted items
  -- are counted as drops and reported in order.
  pub push_keep_latest_lem :
      (q' : NodeQueue A) × (push_keep_latest q item ≡ some (true, q'))
      × PushedAfter q d xs item (suc (length xs) - window q) q'
  push_keep_latest_lem =
      let (q₁, ran, v) =
        evict_down_lem f.below (target_keep q) (target_pos q) (suc (length xs)) 0 q start
          (omega arith) in
      keep_latest_finish _ q₁ (omega arith) (size_lem f.holds (omega (arith, f.below))) ran v
