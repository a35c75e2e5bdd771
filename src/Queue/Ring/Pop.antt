-- ===== src/Queue/Ring/Pop.antt =====
-- A pop from a ring buffer that is not empty.
use ai_pipe.Prelude.{
  ℕ, suc, ◌+◌, ◌%◌, ◌≤◌, ◌<◌, ◌≡◌, ◌≢◌, sym, ap, ◌∙◌, arith, some, List, ◌∷◌, length, get_elem?,
  lt-length_of_get_elem?,
}
use native.Mathlib.Nat.{add-mod_right}
use native.Mathlib.Decide.{dec_lt}
use ai_pipe.Prelude.Words.{word, add_word}
use ai_pipe.Queue.Ring.{Default, Cell, Ring, slot, write, take_out}
use ai_pipe.Queue.Ring.Index.{mod-ne_of_lt, add_word-mod}
use ai_pipe.Queue.Ring.Holds.{Holds, write_self, write-ne, front_slot, front_tag, next_pos}

module _ {A : Type 0} {r : Ring A} {d : ℕ} {xs : List A} (h : Holds r d xs) where
  other_front : (i : ℕ) → 0 < i → i < r.capacity → slot r r.dequeue_pos ≢ (d + i) % r.capacity
  other_front i lo hi e =
      mod-ne_of_lt r.capacity (d + 0) (d + i) (omega arith) (omega arith) (sym (front_slot h) ∙ e)

  module _ (b x : A) (rest : List A) (e : xs ≡ x ∷ rest) where
    abbrev released : Cell A
    released = record { sequence = add_word r.dequeue_pos r.capacity; payload = b }

    abbrev counted : length xs ≡ suc (length rest)
    counted = ap (λ (l : List A). length l) e

    release-free :
        (i : ℕ)
        → length rest ≤ i
        → i < r.capacity
        → (write r (slot r r.dequeue_pos) released ((d + 1 + i) % r.capacity)).sequence
          ≡ (d + 1 + i) % word
    release-free i lo hi = elim (dec_lt (suc i) r.capacity) [
      | yes inner ↦
          ap (λ (t : ℕ). (write r (slot r r.dequeue_pos) released (t % r.capacity)).sequence)
            (omega arith)
          ∙ ap (λ (c : Cell A). c.sequence)
              (write-ne r (slot r r.dequeue_pos) ((d + suc i) % r.capacity) released
                (other_front (suc i) (omega arith) inner))
          ∙ h.free (suc i) (omega (arith, counted)) inner
          ∙ ap (λ (t : ℕ). t % word) (omega arith)
      | no outer ↦
          let whole : d + 1 + i ≡ d + r.capacity = omega arith in
          ap (λ (j : ℕ). (write r (slot r r.dequeue_pos) released j).sequence)
            (ap (λ (t : ℕ). t % r.capacity) whole
              ∙ add-mod_right d r.capacity
              ∙ ap (λ (t : ℕ). t % r.capacity) (omega arith)
              ∙ sym (front_slot h))
          ∙ ap (λ (c : Cell A). c.sequence) (write_self r (slot r r.dequeue_pos) released)
          ∙ ap (λ (t : ℕ). add_word t r.capacity) h.taken
          ∙ add_word-mod d r.capacity
          ∙ ap (λ (t : ℕ). t % word) (sym whole)
    ]

    release-live :
        (i : ℕ) (y : A)
        → get_elem? rest i ≡ some y
        → write r (slot r r.dequeue_pos) released ((d + 1 + i) % r.capacity)
          ≡ record { sequence = (d + 1 + i + 1) % word; payload = y }
    release-live i y q =
        ap (λ (t : ℕ). write r (slot r r.dequeue_pos) released (t % r.capacity)) (omega arith)
        ∙ write-ne r (slot r r.dequeue_pos) ((d + suc i) % r.capacity) released (
            other_front (suc i) (omega arith)
              (omega (arith, counted, h.room, lt-length_of_get_elem? rest i y q)))
        ∙ h.live (suc i) y (ap (λ (l : List A). get_elem? l (suc i)) e ∙ q)
        ∙ ap (λ (t : ℕ). record { sequence = t % word; payload = y }) (omega arith)

  pub take_out-Holds :
      ⦃b : Default A⦄ (x : A) (rest : List A)
      → xs ≡ x ∷ rest
      → ((take_out r r.dequeue_pos).0 ≡ x) × Holds (take_out r r.dequeue_pos).1 (d + 1) rest
  unfolding take_out
  take_out-Holds ⦃b⦄ x rest e = (
    ap (λ (c : Cell A). c.payload) (front_tag h x rest e),
    record {
      bits = h.bits;
      bits_range = h.bits_range;
      power = h.power;
      mask_ones = h.mask_ones;
      taken = next_pos h;
      put = h.put ∙ ap (λ (t : ℕ). t % word) (omega (arith, ap (λ (l : List A). length l) e));
      room = omega (arith, h.room, ap (λ (l : List A). length l) e);
      live = release-live b.blank x rest e;
      free = release-free b.blank x rest e;
    },
  )
