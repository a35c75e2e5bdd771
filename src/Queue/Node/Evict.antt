-- ===== src/Queue/Node/Evict.antt =====
-- What a run of evictions does to a node queue: the oldest items go, each is counted and reported.
use ai_pipe.Prelude.{
  ℕ, zero, suc, ◌+◌, ◌≤◌, ◌<◌, ◌≡◌, refl, sym, ap, ap₂, ◌∙◌, arith, Bool, true, false, some, List,
  [], ◌∷◌, ◌++◌, map, subst, length, length-drop, drop, take, if◌then◌else◌,
}
use mathlib.Core.List.{append-nil, append_assoc, map-append}
use Prim.Native.String.{String}
use ai_pipe.Prelude.Words.{word, add_word}
use ai_pipe.Queue.Ring.{Default}
use ai_pipe.Queue.Ring.Holds.{Holds}
use ai_pipe.Queue.Ring.Fifo.{try_pop-cons}
use ai_pipe.Queue.Node.{
  NodeQueue, Config, DropEvent, counted, frame_by, frame_of, notify_drop, evict,
}

abbrev pub frames : List DropEvent → List ℕ
frames = map (λ e. e.frame_id)

-- The counter after `k` counted drops.
abbrev pub counted_by : {A : Type 0} → NodeQueue A → ℕ → ℕ
counted_by q k =
    if q.config.track_statistics then add_word q.stats.total_dropped k else q.stats.total_dropped

abbrev pub reports : {A : Type 0} → NodeQueue A → List A → List ℕ
reports q xs = if q.listening then map (frame_of q) xs else []

-- `q'` is `q`, which held `xs`, after its `k` oldest items were evicted.
pub record Evicted {A : Type 0} (q : NodeQueue A) (d : ℕ) (xs : List A) (k : ℕ) (q' : NodeQueue A)
    : Type 0 where
  pub within : k ≤ length xs
  pub held : Holds q'.queue (d + k) (drop k xs)
  pub capacity_same : q'.queue.capacity ≡ q.queue.capacity
  pub config_same : q'.config ≡ q.config
  pub listening_same : q'.listening ≡ q.listening
  pub accessor_same : q'.accessor ≡ q.accessor
  pub pushed_same : q'.stats.total_pushed ≡ q.stats.total_pushed
  pub popped_same : q'.stats.total_popped ≡ q.stats.total_popped
  pub rejected_same : q'.stats.total_rejected ≡ q.stats.total_rejected
  pub peak_same : q'.stats.peak_size ≡ q.stats.peak_size
  pub dropped : q'.stats.total_dropped ≡ counted_by q k
  pub reported : frames q'.delivered ≡ frames q.delivered ++ reports q (take k xs)

-- One more item off the front of a list.
pub drop-suc {ℓ} :
    {A : Type ℓ} (k : ℕ) (xs : List A) (x : A) (rest : List A)
    → drop k xs ≡ x ∷ rest
    → (drop (suc k) xs ≡ rest) × (take (suc k) xs ≡ take k xs ++ x ∷ [])
drop-suc zero [] x rest e = cc
drop-suc zero (y ∷ ys) x rest e = (cc, cc)
drop-suc (suc k) [] x rest e = cc
drop-suc (suc k) (y ∷ ys) x rest e =
    let (left, taken) = drop-suc k ys x rest e in (left, ap (λ l. y ∷ l) taken)

append-none : (b : Bool) (l : List ℕ) → l ++ (if b then [] else []) ≡ l
append-none true l = append-nil l
append-none false l = append-nil l

frames-report :
    (b : Bool) (old : List DropEvent) (event : DropEvent)
    → frames (if b then old ++ event ∷ [] else old)
      ≡ frames old ++ (if b then event.frame_id ∷ [] else [])
frames-report true old event = map-append _ old (event ∷ [])
frames-report false old event = sym (append-nil (frames old))

reports-append :
    {A : Type 0} (b : Bool) (f : A → ℕ) (xs : List A) (x : A)
    → (if b then map f xs else []) ++ (if b then f x ∷ [] else [])
      ≡ (if b then map f (xs ++ x ∷ []) else [])
reports-append true f xs x = sym (map-append f xs (x ∷ []))
reports-append false f xs x = refl

counted-suc :
    {A : Type 0} (q q' : NodeQueue A) (k : ℕ)
    → q'.config ≡ q.config
    → q'.stats.total_dropped ≡ counted_by q k
    → counted q' q'.stats.total_dropped ≡ counted_by q (suc k)
counted-suc q q' k same e =
    ap₂ (λ (c : Config) (n : ℕ). if c.track_statistics then add_word n 1 else n) same e
    ∙ twice q.config.track_statistics q.stats.total_dropped
  where
    twice :
        (b : Bool) (n : ℕ)
        → (if b
            then add_word (if b then add_word n k else n) 1
            else (if b then add_word n k else n))
          ≡ (if b then add_word n (suc k) else n)
    twice true n = omega arith
    twice false n = refl

module _ {A : Type 0} where
  pub Evicted-none :
      (q : NodeQueue A) (d : ℕ) (xs : List A)
      → Holds q.queue d xs
      → q.stats.total_dropped < word
      → Evicted q d xs 0 q
  Evicted-none q d xs h lt = record {
    within = omega arith;
    held = subst (λ n. Holds q.queue n xs) (omega arith) h;
    capacity_same = refl;
    config_same = refl;
    listening_same = refl;
    accessor_same = refl;
    pushed_same = refl;
    popped_same = refl;
    rejected_same = refl;
    peak_same = refl;
    dropped = ground arith;
    reported = sym (append-none q.listening (frames q.delivered));
  }

module _ {A : Type 0} ⦃b : Default A⦄ where
  pub evict-Evicted :
      (q : NodeQueue A) (d : ℕ) (xs : List A) (k : ℕ) (q' : NodeQueue A)
      → Evicted q d xs k q'
      → (x : A) (rest : List A) → drop k xs ≡ x ∷ rest
      → (reason : String) (n : ℕ)
      → (q'' : NodeQueue A) × (evict q' reason n ≡ some (true, q'')) × Evicted q d xs (suc k) q''
  unfolding evict notify_drop
  evict-Evicted q d xs k q' v x rest e reason n =
      let (r, popped, cap, held) = try_pop-cons v.held x rest e in
      let (left, taken) = drop-suc k xs x rest e in
      rw (popped, evict)
        (
          _,
          refl,
          record {
            within = omega (arith, length-drop k xs, ap (λ (l : List A). length l) e);
            held = rw left (subst (λ m. Holds r m rest) (omega arith) held);
            capacity_same = cap ∙ v.capacity_same;
            config_same = v.config_same;
            listening_same = v.listening_same;
            accessor_same = v.accessor_same;
            pushed_same = v.pushed_same;
            popped_same = v.popped_same;
            rejected_same = v.rejected_same;
            peak_same = v.peak_same;
            dropped = counted-suc q q' k v.config_same v.dropped;
            reported =
                frames-report q'.listening q'.delivered _
                ∙ ap₂ (λ (l : Bool) (f : ℕ). frames q'.delivered ++ (if l then f ∷ [] else []))
                    v.listening_same (ap (λ a. frame_by a x) v.accessor_same)
                ∙ ap (λ (l : List ℕ). l ++ (if q.listening then frame_of q x ∷ [] else []))
                    v.reported
                ∙ append_assoc (frames q.delivered) (reports q (take k xs)) _
                ∙ ap (λ (l : List ℕ). frames q.delivered ++ l)
                    (reports-append q.listening (frame_of q) (take k xs) x)
                ∙ ap (λ (l : List A). frames q.delivered ++ reports q l) (sym taken);
          },
        )
