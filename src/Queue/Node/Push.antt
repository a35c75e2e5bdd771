-- ===== src/Queue/Node/Push.antt =====
-- A push that goes through after some evictions, and the loops that lead to it.
use native.Mathlib.Decide.{dec_le}
use ai_pipe.Prelude.{
  ℕ, zero, suc, ◌+◌, ◌-◌, ◌<◌, ◌≡◌, refl, ap, ap₂, subst, ◌∙◌, arith, max, Bool, true, false, some,
  List, [], ◌∷◌, ◌++◌, length, length-append, length-drop, drop, take, leb, ltb, if◌then◌else◌,
  List-cases, inl, inr, lt→ltb,
}
use ai_pipe.Prelude.Words.{word, add_word}
use ai_pipe.Queue.Ring.{Default, Ring, try_push, size}
use ai_pipe.Queue.Ring.Holds.{Holds}
use ai_pipe.Queue.Ring.Fifo.{try_push_lem, size_lem}
use ai_pipe.Queue.Node.{NodeQueue, Config, counted, accepted, update_peak_size, evict_down, spin}
use ai_pipe.Queue.Node.Evict.{Evicted, evict-Evicted, frames, counted_by, reports}

-- `q'` is `q`, which held `xs`, after its `k` oldest items were evicted and `item` was pushed.
pub record PushedAfter {A : Type 0} (q : NodeQueue A) (d : ℕ) (xs : List A) (item : A) (k : ℕ)
    (q' : NodeQueue A) : Type 0 where
  pub held : Holds q'.queue (d + k) (drop k xs ++ item ∷ [])
  pub capacity_same : q'.queue.capacity ≡ q.queue.capacity
  pub config_same : q'.config ≡ q.config
  pub pushed : q'.stats.total_pushed ≡ counted q q.stats.total_pushed
  pub popped_same : q'.stats.total_popped ≡ q.stats.total_popped
  pub rejected_same : q'.stats.total_rejected ≡ q.stats.total_rejected
  pub peak : q'.stats.peak_size ≡ (
      if q.config.track_statistics
      then max q.stats.peak_size (suc (length (drop k xs)))
      else q.stats.peak_size)
  pub dropped : q'.stats.total_dropped ≡ counted_by q k
  pub reported : frames q'.delivered ≡ frames q.delivered ++ reports q (take k xs)

abbrev raised_by : Bool → ℕ → ℕ → ℕ
raised_by track peak now = if track then (if ltb peak now then now else peak) else peak

raised_by-max :
    (b : Bool) (peak now : ℕ) → raised_by b peak now ≡ (if b then max peak now else peak)
raised_by-max true peak now = ground arith
raised_by-max false peak now = refl

module _ {A : Type 0} {q : NodeQueue A} {d : ℕ} {xs : List A} {k : ℕ} {q' : NodeQueue A}
    (v : Evicted q d xs k q') (below : d + length xs + 1 < word) where
  accepted-PushedAfter :
      (item : A) (r : Ring A)
      → r.capacity ≡ q'.queue.capacity
      → Holds r (d + k) (drop k xs ++ item ∷ [])
      → PushedAfter q d xs item k (accepted q' r)
  unfolding accepted update_peak_size
  accepted-PushedAfter item r cap held =
      let now : size r ≡ suc (length (drop k xs)) =
        size_lem held
          (omega (arith, length-append (drop k xs) (item ∷ []), length-drop k xs, v.within))
        ∙ omega (arith, length-append (drop k xs) (item ∷ [])) in
      record {
        held = held;
        capacity_same = cap ∙ v.capacity_same;
        config_same = v.config_same;
        pushed =
            ap₂ (λ (c : Config) (n : ℕ). if c.track_statistics then add_word n 1 else n)
              v.config_same v.pushed_same;
        popped_same = v.popped_same;
        rejected_same = v.rejected_same;
        peak =
            ap₂ (λ (c : Config) (n : ℕ). raised_by c.track_statistics n (size r)) v.config_same
              v.peak_same
            ∙ ap (raised_by q.config.track_statistics q.stats.peak_size) now
            ∙ raised_by-max q.config.track_statistics q.stats.peak_size _;
        dropped = v.dropped;
        reported = v.reported;
      }

  -- A push after the evictions goes through when they left room.
  pub push_attempt :
      (item : A)
      → length (drop k xs) < q.queue.capacity
      → (r : Ring A) × (try_push q'.queue item ≡ some (true, r))
        × PushedAfter q d xs item k (accepted q' r)
  push_attempt item room =
      let room' : length (drop k xs) < q'.queue.capacity = omega (arith, v.capacity_same) in
      let (r, pushed, cap, held) = try_push_lem v.held item in
      let test = lt→ltb (length (drop k xs)) q'.queue.capacity room' in
      (
        r,
        pushed ∙ ap (λ (done : Bool). some (done, r)) test,
        accepted-PushedAfter item r cap (
            subst (λ done. Holds r (d + k) (if done then drop k xs ++ item ∷ [] else drop k xs))
              test held),
      )

  -- So the first attempt of the spinning loop does.
  pub spin_attempt :
      (n : ℕ) (item : A)
      → length (drop k xs) < q.queue.capacity
      → (q'' : NodeQueue A) × (spin (suc n) q' item ≡ some (true, q''))
        × PushedAfter q d xs item k q''
  unfolding spin
  spin_attempt n item room =
      let (r, pushed, after) = push_attempt item room in (accepted q' r, rw (pushed, spin), after)

module _ {A : Type 0} ⦃b : Default A⦄ {q : NodeQueue A} {d : ℕ} {xs : List A}
    (below : d + length xs + 1 < word) (target : ℕ) (pos : 0 < target) where
  -- The loop of `pushKeepLatest` leaves fewer than `target` items.
  pub evict_down_lem :
      (fuel k : ℕ) (q' : NodeQueue A)
      → Evicted q d xs k q'
      → length (drop k xs) < fuel
      → (q'' : NodeQueue A) × (evict_down fuel target q' (length (drop k xs)) ≡ some q'')
        × Evicted q d xs (max k (suc (length xs) - target)) q''
  unfolding evict_down
  evict_down_lem zero k q' v lt = elim lt [ ]
  evict_down_lem (suc fuel) k q' v lt = elim (dec_le target (length (drop k xs))) [
    | no small ↦
        let done : leb target (length (drop k xs)) ≡ false = ground arith in
        let kept : k ≡ max k (suc (length xs) - target) =
          omega (arith, length-drop k xs, v.within) in
        rw done (q', refl, subst (λ n. Evicted q d xs n q') kept v)
    | yes big ↦ elim (List-cases (drop k xs)) [
      | inl nil ↦ absurd (omega (arith, ap (λ (l : List A). length l) nil))
      | inr (x, rest, e) ↦
          let again : leb target (length (drop k xs)) ≡ true = ground arith in
          let (q₁, gone, v₁) =
            evict-Evicted q d xs k q' v x rest e "KeepLatest overflow" (length (drop k xs)) in
          let now : size q₁.queue ≡ length (drop (suc k) xs) =
            size_lem v₁.held (omega (arith, length-drop (suc k) xs, v₁.within)) in
          let (q₂, ran, v₂) =
            evict_down_lem fuel (suc k) q₁ v₁
              (omega (arith, length-drop (suc k) xs, length-drop k xs, v₁.within)) in
          let total : max (suc k) (suc (length xs) - target) ≡ max k (suc (length xs) - target) =
            omega (arith, length-drop k xs, v.within) in
          rw (again, gone, now) (q₂, ran, subst (λ n. Evicted q d xs n q₂) total v₂)
    ]
  ]
