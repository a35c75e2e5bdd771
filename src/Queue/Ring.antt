-- ===== src/Queue/Ring.antt =====
-- `LockFreeMPMCQueue` of src/lock_free_queue.hpp, run by one thread at a time: between the load of a
-- position and its exchange no other thread moves it, so an exchange succeeds. Positions and sequence
-- tags are 64-bit words that wrap.
mod Index
pub mod Holds
mod Push
mod Pop
pub mod Fifo
pub mod Force
pub mod Tests
use Prim.Native.Nat.{bit_and}
use ai_pipe.Prelude.{
  ℕ, zero, suc, ◌-◌, Bool, true, false, Option, none, some, eqb, leb, ltb, if◌then◌else◌, ◌>>=◌,
}
use ai_pipe.Queue.Capacity.{round_up}
use ai_pipe.Prelude.Words.{add_word, sub_word, is_negative}

-- What `T{}` makes, and what a moved-from payload is left as.
pub record Default (A : Type 0) : Type 0 where
  pub blank : A

pub record Cell (A : Type 0) : Type 0 where
  pub sequence : ℕ
  pub payload : A

-- The buffer is a function of the slot: `m_mask` keeps every index below `m_capacity`.
pub record Ring (A : Type 0) : Type 0 where
  pub capacity : ℕ
  pub mask : ℕ
  pub buffer : ℕ → Cell A
  pub enqueue_pos : ℕ
  pub dequeue_pos : ℕ

-- How the loop over a position ends. `spinning` is the loop that its fuel cut off.
pub data Claim : Type 0 where
  claimed : ℕ → Claim
  refused spinning : Claim

-- With nobody else at work the first round decides.
abbrev pub rounds : ℕ
rounds = 2

module _ {A : Type 0} where
  abbrev pub slot : Ring A → ℕ → ℕ
  slot r pos = bit_and pos r.mask

  abbrev pub write : Ring A → ℕ → Cell A → ℕ → Cell A
  write r i c j = if eqb i j then c else r.buffer j

  -- The loop of `tryPush`: claim `pos` when the tag is `pos`, give up when it is behind, and
  -- reload the position when it is ahead.
  pub claim_push : ℕ → Ring A → ℕ → Claim
  claim_push zero r pos = spinning
  claim_push (suc fuel) r pos =
      let diff = sub_word (r.buffer (slot r pos)).sequence pos in
      let reloaded = claim_push fuel r r.enqueue_pos in
      if eqb diff 0 then claimed pos else if is_negative diff then refused else reloaded

  -- The loop of `tryPop`: the tag of a cell that holds data is `pos + 1`.
  pub claim_pop : ℕ → Ring A → ℕ → Claim
  claim_pop zero r pos = spinning
  claim_pop (suc fuel) r pos =
      let diff = sub_word (r.buffer (slot r pos)).sequence (add_word pos 1) in
      let reloaded = claim_pop fuel r r.dequeue_pos in
      if eqb diff 0 then claimed pos else if is_negative diff then refused else reloaded

  -- The slot is ours: write the data, then publish.
  pub publish : Ring A → A → ℕ → Ring A
  publish r item pos = record r {
    buffer = write r (slot r pos) (record { sequence = add_word pos 1; payload = item });
    enqueue_pos = add_word pos 1;
  }

  -- `none` is a loop that still spins after `rounds` rounds.
  pub try_push : Ring A → A → Option (Bool × Ring A)
  try_push r item = elim (claim_push rounds r r.enqueue_pos) [
    | claimed pos ↦ some (true, publish r item pos)
    | refused ↦ some (false, r)
    | spinning ↦ none
  ]

  pub try_peek : Ring A → Option A
  try_peek r =
      let cell = r.buffer (slot r r.dequeue_pos) in
      if eqb (sub_word cell.sequence (add_word r.dequeue_pos 1)) 0 then some cell.payload else none

  pub size : Ring A → ℕ
  size r = if leb r.dequeue_pos r.enqueue_pos then r.enqueue_pos - r.dequeue_pos else 0

  pub is_empty : Ring A → Bool
  unfolding size
  is_empty r = eqb (size r) 0

  pub is_full : Ring A → Bool
  unfolding size
  is_full r = leb r.capacity (size r)

module _ {A : Type 0} ⦃d : Default A⦄ where
  -- The constructor: the request is raised to 2, then to a power of two, and slot `i` is tagged `i`.
  pub make_ring : ℕ → Ring A
  make_ring min_capacity =
      let capacity = round_up (if ltb min_capacity 2 then 2 else min_capacity) in
      record {
        capacity = capacity;
        mask = sub_word capacity 1;
        buffer = λ i. record { sequence = i; payload = d.blank };
        enqueue_pos = 0;
        dequeue_pos = 0;
      }

  -- The slot is ours: take the data, then release the slot for the next lap.
  pub take_out : Ring A → ℕ → A × Ring A
  take_out r pos =
      let payload = (r.buffer (slot r pos)).payload in
      (
        payload,
        record r {
          buffer =
              write r (slot r pos)
                (record { sequence = add_word pos r.capacity; payload = d.blank });
          dequeue_pos = add_word pos 1;
        },
      )

  pub try_pop : Ring A → Option (Option A × Ring A)
  try_pop r = elim (claim_pop rounds r r.dequeue_pos) [
    | claimed pos ↦ let (item, r') = take_out r pos in some (some item, r')
    | refused ↦ some (none, r)
    | spinning ↦ none
  ]
