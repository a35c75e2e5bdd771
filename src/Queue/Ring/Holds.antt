-- ===== src/Queue/Ring/Holds.antt =====
-- When a ring buffer holds a list of items, and what its loops then find at the two positions.
use ai_pipe.Prelude.{
  ℕ, suc, ◌+◌, ◌-◌, ◌%◌, ◌^◌, ◌≤◌, ◌<◌, ◌≡◌, ◌≢◌, sym, ap, ap₂, ◌∙◌, arith, some, List, [], ◌∷◌,
  inl, inr, length, get_elem?, List-cases,
}
use native.Mathlib.Nat.{add-mod_right}
use ai_pipe.Prelude.Words.{word, add_word, sub_word}
use ai_pipe.Queue.Ring.{Cell, Ring, claimed, refused, slot, write, claim_push, claim_pop}
use ai_pipe.Queue.Ring.Index.{
  two-le-pow, pow-le-half, slot-mod, add_word-mod, diff_due, diff_behind,
}

-- `r` holds `xs`, oldest first, after `d` items were taken out. A cell that holds the item of
-- position `p` has the tag `p + 1`; a cell that waits for position `p` has the tag `p`.
pub record Holds {A : Type 0} (r : Ring A) (d : ℕ) (xs : List A) : Type 0 where
  pub bits : ℕ
  pub bits_range : (0 < bits) × (bits ≤ 63)
  pub power : r.capacity ≡ 2 ^ bits
  pub mask_ones : r.mask ≡ 2 ^ bits - 1
  pub taken : r.dequeue_pos ≡ d % word
  pub put : r.enqueue_pos ≡ (d + length xs) % word
  pub room : length xs ≤ r.capacity
  pub live :
      (i : ℕ) (x : A)
      → get_elem? xs i ≡ some x
      → r.buffer ((d + i) % r.capacity) ≡ record { sequence = (d + i + 1) % word; payload = x }
  pub free :
      (i : ℕ)
      → length xs ≤ i
      → i < r.capacity
      → (r.buffer ((d + i) % r.capacity)).sequence ≡ (d + i) % word

pub write_self : {A : Type 0} (r : Ring A) (i : ℕ) (c : Cell A) → write r i c i ≡ c
write_self r i c = ground arith

pub write-ne : {A : Type 0} (r : Ring A) (i j : ℕ) (c : Cell A) → i ≢ j → write r i c j ≡ r.buffer j
write-ne r i j c h = ground arith

module _ {A : Type 0} {r : Ring A} {d : ℕ} {xs : List A} (h : Holds r d xs) where
  pub cap_range : (2 ≤ r.capacity) × (r.capacity ≤ 2 ^ 63)
  cap_range =
      omega (arith, h.power, two-le-pow h.bits h.bits_range.0, pow-le-half h.bits h.bits_range.1)

  pub slot_of : (p : ℕ) → slot r (p % word) ≡ p % r.capacity
  slot_of p = rw (h.mask_ones, h.power) (slot-mod h.bits p h.bits_range.1)

  pub end_slot : slot r r.enqueue_pos ≡ (d + length xs) % r.capacity
  end_slot = ap (slot r) h.put ∙ slot_of (d + length xs)

  pub front_slot : slot r r.dequeue_pos ≡ (d + 0) % r.capacity
  front_slot = ap (slot r) h.taken ∙ slot_of d ∙ ap (λ (t : ℕ). t % r.capacity) (omega arith)

  -- The tag at the enqueue position, when there is room and when there is none.
  tag_room : length xs < r.capacity → (r.buffer (slot r r.enqueue_pos)).sequence ≡ r.enqueue_pos
  tag_room lt =
      ap (λ (i : ℕ). (r.buffer i).sequence) end_slot
      ∙ h.free (length xs) (omega arith) lt
      ∙ sym h.put

  pub front_tag :
      (x : A) (rest : List A)
      → xs ≡ x ∷ rest
      → r.buffer (slot r r.dequeue_pos) ≡ record { sequence = (d + 1) % word; payload = x }
  front_tag x rest e =
      ap r.buffer front_slot
      ∙ h.live 0 x (ap (λ (l : List A). get_elem? l 0) e)
      ∙ ap (λ (t : ℕ). record { sequence = t % word; payload = x }) (omega arith)

  full_slot : length xs ≡ r.capacity → slot r r.enqueue_pos ≡ slot r r.dequeue_pos
  full_slot e =
      end_slot
      ∙ ap (λ (n : ℕ). (d + n) % r.capacity) e
      ∙ add-mod_right d r.capacity
      ∙ ap (λ (t : ℕ). t % r.capacity) (omega arith)
      ∙ sym front_slot

  pub empty_tag : xs ≡ [] → (r.buffer (slot r r.dequeue_pos)).sequence ≡ d % word
  empty_tag e =
      ap (λ (i : ℕ). (r.buffer i).sequence) front_slot
      ∙ h.free 0 (omega (arith, ap (λ (l : List A). length l) e)) (omega (arith, cap_range))
      ∙ ap (λ (t : ℕ). t % word) (omega arith)

  pub next_pos : add_word r.dequeue_pos 1 ≡ (d + 1) % word
  next_pos = ap (λ (t : ℕ). add_word t 1) h.taken ∙ add_word-mod d 1

  -- The first round of each loop decides.
  pub claim_push-room :
      (fuel : ℕ)
      → length xs < r.capacity
      → claim_push (suc fuel) r r.enqueue_pos ≡ claimed r.enqueue_pos
  unfolding claim_push
  claim_push-room fuel lt =
      let due : sub_word (r.buffer (slot r r.enqueue_pos)).sequence r.enqueue_pos ≡ 0 =
        ap (λ (t : ℕ). sub_word t r.enqueue_pos) (tag_room lt)
        ∙ ap (λ (t : ℕ). sub_word t t) h.put
        ∙ diff_due (d + length xs) in
      rw due

  pub claim_push-full :
      (fuel : ℕ) → length xs ≡ r.capacity → claim_push (suc fuel) r r.enqueue_pos ≡ refused
  unfolding claim_push
  claim_push-full fuel e = elim (List-cases xs) [
    | inl nil ↦ absurd (omega (arith, ap (λ (l : List A). length l) nil, cap_range))
    | inr (x, rest, eq) ↦
        let tag : (r.buffer (slot r r.enqueue_pos)).sequence ≡ (d + 1) % word =
          ap (λ (i : ℕ). (r.buffer i).sequence) (full_slot e)
          ∙ ap (λ (c : Cell A). c.sequence) (front_tag x rest eq) in
        let pos : r.enqueue_pos ≡ (d + 1 + (r.capacity - 1)) % word =
          h.put ∙ ap (λ (t : ℕ). t % word) (omega (arith, cap_range)) in
        let behind =
          diff_behind (d + 1) (r.capacity - 1) (omega (arith, cap_range))
            (omega (arith, cap_range)) in
        let diff = ap₂ sub_word tag pos in rw (diff, behind.0, behind.1)
  ]

  pub claim_pop-item :
      (fuel : ℕ) (x : A) (rest : List A)
      → xs ≡ x ∷ rest
      → claim_pop (suc fuel) r r.dequeue_pos ≡ claimed r.dequeue_pos
  unfolding claim_pop
  claim_pop-item fuel x rest e =
      let cell = front_tag x rest e in
      let due : sub_word (r.buffer (slot r r.dequeue_pos)).sequence (add_word r.dequeue_pos 1) ≡ 0 =
        ap₂ sub_word (ap (λ (c : Cell A). c.sequence) cell) next_pos ∙ diff_due (d + 1) in
      rw due

  pub claim_pop-empty : (fuel : ℕ) → xs ≡ [] → claim_pop (suc fuel) r r.dequeue_pos ≡ refused
  unfolding claim_pop
  claim_pop-empty fuel e =
      let behind = diff_behind d 1 (omega arith) (omega arith) in
      let diff = ap₂ sub_word (empty_tag e) next_pos in rw (diff, behind.0, behind.1)
