-- ===== src/Queue/Ring/Fifo.antt =====
-- The ring buffer refines a first-in first-out queue of at most `capacity` items: what `tryPush`,
-- `tryPop`, `tryPeek` and `size` do to the list that it holds.
use ai_pipe.Prelude.{
  ℕ, ◌+◌, ◌-◌, ◌%◌, ◌^◌, ◌≤◌, ◌<◌, ◌≡◌, refl, sym, ap, ap₂, ◌∙◌, arith, false, ltb, if◌then◌else◌,
  none, some, List, [], ◌∷◌, ◌++◌, inl, inr, length, get_elem?, List-cases, lt→ltb, not-lt→ltb,
}
use native.Mathlib.Nat.{mod-eq_of_lt}
use native.Mathlib.Decide.{dec_lt}
use ai_pipe.Prelude.Words.{word, sub_word}
use ai_pipe.Queue.Ring.{
  Default, Ring, publish, take_out, try_push, try_pop, try_peek, size, make_ring,
}
use ai_pipe.Queue.Ring.Index.{diff_due, diff_behind}
use ai_pipe.Queue.Ring.Holds.{
  Holds, front_tag, next_pos, empty_tag, claim_push-room, claim_push-full, claim_pop-item,
  claim_pop-empty,
}
use ai_pipe.Prelude.Bits.{two-pow-pos}
use ai_pipe.Queue.Capacity.{round_up}
use ai_pipe.Queue.Capacity.Smear.{pow_mono}
use ai_pipe.Queue.Capacity.Power.{round_up_lem}
use ai_pipe.Queue.Ring.Push.{publish-Holds}
use ai_pipe.Queue.Ring.Pop.{take_out-Holds}

module _ {A : Type 0} {r : Ring A} {d : ℕ} {xs : List A} (h : Holds r d xs) where
  -- For a ring that holds `xs`, a push ends at once. It returns whether there was room; with room
  -- the ring then holds `xs` and the item at its end, and without room `xs`. The capacity stays.
  pub try_push_lem :
      (item : A)
      → (r' : Ring A) × (try_push r item ≡ some (ltb (length xs) r.capacity, r'))
        × (r'.capacity ≡ r.capacity)
        × Holds r' d (if ltb (length xs) r.capacity then xs ++ item ∷ [] else xs)
  unfolding try_push publish
  try_push_lem item = elim (dec_lt (length xs) r.capacity) [
    | yes lt ↦
        rw (lt→ltb (length xs) r.capacity lt, claim_push-room h 1 lt, try_push)
          (publish r item r.enqueue_pos, refl, refl, publish-Holds h item lt)
    | no full ↦
        rw
          (
            not-lt→ltb (length xs) r.capacity full,
            claim_push-full h 1 (omega (arith, h.room)),
            try_push,
          )
          (r, refl, refl, h)
  ]

  pub try_push-full : (item : A) → length xs ≡ r.capacity → try_push r item ≡ some (false, r)
  unfolding try_push
  try_push-full item full = rw (claim_push-full h 1 full, try_push)

  -- For a ring that holds at least one item, a pop ends at once. It returns the oldest item, and the
  -- ring then holds the others in their order. The capacity stays.
  pub try_pop-cons :
      ⦃b : Default A⦄ (x : A) (rest : List A)
      → xs ≡ x ∷ rest
      → (r' : Ring A) × (try_pop r ≡ some (some x, r'))
        × (r'.capacity ≡ r.capacity)
        × Holds r' (d + 1) rest
  unfolding try_pop take_out
  try_pop-cons x rest e =
      let held = take_out-Holds h x rest e in
      rw (claim_pop-item h 1 x rest e, try_pop)
        (
          (take_out r r.dequeue_pos).1,
          ap (λ (y : A). some (some y, (take_out r r.dequeue_pos).1)) held.0,
          refl,
          held.1,
        )

  pub try_pop-nil : ⦃b : Default A⦄ → xs ≡ [] → try_pop r ≡ some (none, r)
  unfolding try_pop
  try_pop-nil e = rw (claim_pop-empty h 1 e, try_pop)

  -- For a ring that holds `xs`, peeking returns the first item of `xs`, or nothing if `xs` is empty.
  pub try_peek_lem : try_peek r ≡ get_elem? xs 0
  unfolding try_peek
  try_peek_lem = elim (List-cases xs) [
    | inl e ↦
        let behind = diff_behind d 1 (omega arith) (omega arith) in
        rw (ap₂ sub_word (empty_tag h e) (next_pos h), behind.0, e)
    | inr (x, rest, e) ↦
        rw (front_tag h x rest e, ap (sub_word ((d + 1) % word)) (next_pos h), diff_due (d + 1), e)
  ]

  -- `size` is the number of items that the ring holds, if the enqueue position has not wrapped.
  pub size_lem : d + length xs < word → size r ≡ length xs
  unfolding size
  size_lem lt = rw (h.taken, h.put) (ground arith)

-- A new buffer of a request up to 2^63 is empty, and its capacity is not below the request.
pub make_ring-Holds :
    {A : Type 0} ⦃b : Default A⦄ (min_capacity : ℕ)
    → min_capacity ≤ 2 ^ 63
    → Holds {A = A} (make_ring min_capacity) 0 []
      × (min_capacity ≤ (make_ring {A = A} min_capacity).capacity)
unfolding make_ring
make_ring-Holds ⦃b⦄ min_capacity h =
    let request = if ltb min_capacity 2 then 2 else min_capacity in
    let (k, pos, le, power, above, _) = round_up_lem request (ground arith) in
    let small : 2 ^ k ≤ 2 ^ 63 = pow_mono k 63 le in
    let ones : sub_word (round_up request) 1 ≡ 2 ^ k - 1 = omega (arith, power, two-pow-pos k) in
    (
      record {
        bits = k;
        bits_range = (pos, le);
        power = power;
        mask_ones = ones;
        taken = refl;
        put = refl;
        room = omega arith;
        live = λ i x e. cc;
        free = λ i _ hi.
            ap (λ (t : ℕ). t % round_up request) (omega arith)
            ∙ mod-eq_of_lt hi
            ∙ sym (mod-eq_of_lt (omega (arith, power)))
            ∙ ap (λ (t : ℕ). t % word) (omega arith);
      },
      ground (arith, power, above),
    )
