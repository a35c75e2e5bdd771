-- ===== src/Queue/Ring/Push.antt =====
-- A push into a ring buffer that has room.
use ai_pipe.Prelude.{
  ℕ, ◌+◌, ◌%◌, ◌<◌, ◌≡◌, ◌≢◌, sym, ap, ap₂, ◌∙◌, arith, some, List, [], ◌∷◌, ◌++◌, length,
  get_elem?, get_elem?-append_left, get_elem?-append_end, lt-length_of_get_elem?, length-append,
}
use native.Mathlib.Decide.{dec_lt}
use ai_pipe.Prelude.Words.{word, add_word}
use ai_pipe.Queue.Ring.{Cell, Ring, slot, write, publish}
use ai_pipe.Queue.Ring.Index.{mod-ne_of_lt, add_word-mod}
use ai_pipe.Queue.Ring.Holds.{Holds, write_self, write-ne, end_slot}

module _ {A : Type 0} {r : Ring A} {d : ℕ} {xs : List A} (h : Holds r d xs) where
  -- Within the lap, only position `d + length xs` is in the slot that a push writes.
  other_end :
      (i : ℕ)
      → i ≢ length xs
      → i < r.capacity
      → length xs < r.capacity
      → slot r r.enqueue_pos ≢ (d + i) % r.capacity
  other_end i ne lt space e = elim (dec_lt i (length xs)) [
    | yes lo ↦
        mod-ne_of_lt r.capacity (d + i) (d + length xs) (omega arith) (omega arith)
          (sym e ∙ end_slot h)
    | no hi ↦
        mod-ne_of_lt r.capacity (d + length xs) (d + i) (omega arith) (omega arith)
          (sym (end_slot h) ∙ e)
  ]

  abbrev pushed : A → Cell A
  pushed item = record { sequence = add_word r.enqueue_pos 1; payload = item }

  pushed_lem :
      (item : A) → pushed item ≡ record { sequence = (d + length xs + 1) % word; payload = item }
  pushed_lem item =
      ap (λ (t : ℕ). record { sequence = t; payload = item })
        (ap (λ (t : ℕ). add_word t 1) h.put ∙ add_word-mod (d + length xs) 1)

  publish-live :
      (item : A) (i : ℕ) (x : A)
      → length xs < r.capacity
      → get_elem? (xs ++ item ∷ []) i ≡ some x
      → write r (slot r r.enqueue_pos) (pushed item) ((d + i) % r.capacity)
        ≡ record { sequence = (d + i + 1) % word; payload = x }
  publish-live item i x lt e = elim (dec_lt i (length xs)) [
    | yes old ↦
        write-ne r (slot r r.enqueue_pos) ((d + i) % r.capacity) (pushed item)
          (other_end i (omega arith) (omega arith) lt)
        ∙ h.live i x (sym (get_elem?-append_left xs (item ∷ []) i old) ∙ e)
    | no new ↦
        let last : i ≡ length xs =
          omega
            (arith, lt-length_of_get_elem? (xs ++ item ∷ []) i x e, length-append xs (item ∷ [])) in
        let same : item ≡ x =
          cc (get_elem?-append_end xs item, ap (get_elem? (xs ++ item ∷ [])) last, e) in
        ap (write r (slot r r.enqueue_pos) (pushed item))
          (ap (λ (t : ℕ). (d + t) % r.capacity) last ∙ sym (end_slot h))
        ∙ write_self r (slot r r.enqueue_pos) (pushed item)
        ∙ pushed_lem item
        ∙ ap₂ (λ (t : ℕ) (y : A). record { sequence = (d + t + 1) % word; payload = y }) (sym last)
            same
  ]

  pub publish-Holds :
      (item : A) → length xs < r.capacity → Holds (publish r item r.enqueue_pos) d (xs ++ item ∷ [])
  unfolding publish
  publish-Holds item lt = record {
    bits = h.bits;
    bits_range = h.bits_range;
    power = h.power;
    mask_ones = h.mask_ones;
    taken = h.taken;
    put =
        ap (λ (t : ℕ). add_word t 1) h.put
        ∙ add_word-mod (d + length xs) 1
        ∙ ap (λ (t : ℕ). t % word) (omega (arith, length-append xs (item ∷ [])));
    room = omega (arith, length-append xs (item ∷ []));
    live = λ i x e. publish-live item i x lt e;
    free = λ i lo hi.
        ap (λ (c : Cell A). c.sequence)
          (write-ne r (slot r r.enqueue_pos) ((d + i) % r.capacity) (pushed item)
            (other_end i (omega (arith, length-append xs (item ∷ []))) hi lt))
        ∙ h.free i (omega (arith, length-append xs (item ∷ []))) hi;
  }
