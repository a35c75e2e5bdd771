-- ===== src/Queue/Node.antt =====
-- `LockFreeNodeQueue` of src/lock_free_queue.hpp: a drop policy, counters and a drop callback around
-- the ring buffer, run by one thread at a time. Calls of the drop callback are collected in
-- `delivered`, oldest first; the time stamp of a `DropEvent` and the
-- creation time of the counters are left out.
pub mod Evict
pub mod Push
pub mod Policies
pub mod Pop
pub mod Balance
pub mod Settings
mod Tests
use Prim.Native.String.{String}
use ai_pipe.Prelude.{
  ℕ, zero, suc, ◌+◌, Bool, true, false, Option, none, some, List, [], ◌∷◌, ◌++◌, leb, ltb,
  if◌then◌else◌, ◌>>=◌,
}
use ai_pipe.Prelude.Words.{add_word}
use ai_pipe.Queue.Ring.{Default, Ring, make_ring, try_push, try_pop, try_peek, size}

pub data DropPolicy : Type 0 where
  drop_tail drop_head keep_latest : DropPolicy

pub record Config : Type 0 where
  pub capacity : ℕ
  pub drop_policy : DropPolicy
  pub keep_latest_n : ℕ
  pub track_statistics : Bool
  pub node_name : String
  pub port_name : String

pub record Statistics : Type 0 where
  pub total_pushed : ℕ
  pub total_popped : ℕ
  pub total_dropped : ℕ
  pub total_rejected : ℕ
  pub peak_size : ℕ

pub record DropEvent : Type 0 where
  pub frame_id : ℕ
  pub stream_id : ℕ
  pub node_name : String
  pub port_name : String
  pub reason : String
  pub queue_size_before : ℕ
  pub queue_size_after : ℕ
  pub total_drops : ℕ

pub record NodeQueue (A : Type 0) : Type 0 where
  pub config : Config
  pub queue : Ring A
  pub stats : Statistics
  -- whether a drop callback is set
  pub listening : Bool
  pub accessor : Option (A → Option ℕ)
  pub delivered : List DropEvent

abbrev pub no_statistics : Statistics
no_statistics = record {
  total_pushed = 0;
  total_popped = 0;
  total_dropped = 0;
  total_rejected = 0;
  peak_size = 0;
}

-- `k_invalid_frame_id`, and `k_default_stream_id` of a `DropEvent` that does not set its stream.
abbrev pub invalid_frame_id : ℕ
invalid_frame_id = 0

abbrev pub default_stream_id : ℕ
default_stream_id = 0

-- Alone at work, the loop that the slow paths fall back on pushes in its first round.
abbrev pub fall_back_rounds : ℕ
fall_back_rounds = 2

module _ {A : Type 0} where
  -- A counter that is left alone when statistics are off.
  abbrev pub counted : NodeQueue A → ℕ → ℕ
  counted q n = if q.config.track_statistics then add_word n 1 else n

  pub update_peak_size : NodeQueue A → NodeQueue A
  update_peak_size q =
      let current = size q.queue in
      let raised = if ltb q.stats.peak_size current then current else q.stats.peak_size in
      let peak = if q.config.track_statistics then raised else q.stats.peak_size in
      record q { stats = record (q.stats) { peak_size = peak } }

  -- The frame that a `DropEvent` names: what the accessor reads, if one is set.
  abbrev pub frame_by : Option (A → Option ℕ) → A → ℕ
  frame_by none item = invalid_frame_id
  frame_by (some read) item = elim (read item) [ none ↦ invalid_frame_id | some frame ↦ frame ]

  abbrev pub frame_of : NodeQueue A → A → ℕ
  frame_of q item = frame_by q.accessor item

  pub notify_drop : NodeQueue A → A → String → ℕ → NodeQueue A
  notify_drop q item reason size_before =
      let event : DropEvent = record {
        frame_id = frame_of q item;
        stream_id = default_stream_id;
        node_name = q.config.node_name;
        port_name = q.config.port_name;
        reason = reason;
        queue_size_before = size_before;
        queue_size_after = size q.queue;
        total_drops = q.stats.total_dropped;
      } in
      record q { delivered = if q.listening then q.delivered ++ event ∷ [] else q.delivered }

  -- What follows a push that went through.
  pub accepted : NodeQueue A → Ring A → NodeQueue A
  accepted q r =
      let q' = update_peak_size (record q { queue = r }) in
      record q' { stats = record (q'.stats) { total_pushed = counted q' q'.stats.total_pushed } }

  pub push_drop_tail : NodeQueue A → A → Option (Bool × NodeQueue A)
  push_drop_tail q item = do
    (pushed, r) ← try_push q.queue item
    let rejected = record q {
      queue = r;
      stats = record (q.stats) { total_rejected = counted q q.stats.total_rejected };
    }
    some (if pushed then (true, accepted q r) else (false, rejected))

  -- `for (spin = 0; spin < n; ++spin) if (tryPush(item)) ...`
  pub spin : ℕ → NodeQueue A → A → Option (Bool × NodeQueue A)
  spin zero q item = some (false, q)
  spin (suc n) q item = do
    (pushed, r) ← try_push q.queue item
    elim pushed [ true ↦ some (true, accepted q r) | false ↦ spin n (record q { queue = r }) item ]

  abbrev pub target_keep : NodeQueue A → ℕ
  target_keep q = if ltb 0 q.config.keep_latest_n then q.config.keep_latest_n else 1

  pub peek : NodeQueue A → Option A
  peek q = try_peek q.queue

module _ {A : Type 0} ⦃d : Default A⦄ where
  pub make_queue : Config → NodeQueue A
  make_queue c = record {
    config = c;
    queue = make_ring c.capacity;
    stats = no_statistics;
    listening = false;
    accessor = none;
    delivered = [];
  }

  pub pop : NodeQueue A → Option (Option A × NodeQueue A)
  pop q = do
    (item, r) ← try_pop q.queue
    let counters = record (q.stats) { total_popped = counted q q.stats.total_popped }
    some (elim item [
      | none ↦ (none, record q { queue = r })
      | some x ↦ (some x, record q { queue = r; stats = counters })
    ])

  -- `evictOne`, with the counter and the callback of a success.
  pub evict : NodeQueue A → String → ℕ → Option (Bool × NodeQueue A)
  evict q reason size_before = do
    (victim, r) ← try_pop q.queue
    let counters = record (q.stats) { total_dropped = counted q q.stats.total_dropped }
    some (elim victim [
      | none ↦ (false, record q { queue = r })
      | some x ↦ (true, notify_drop (record q { queue = r; stats = counters }) x reason size_before)
    ])

  -- The slow path of `pushDropHead`: rounds of one eviction and 128 attempts.
  pub evict_rounds : ℕ → NodeQueue A → A → Option (Bool × NodeQueue A)
  evict_rounds zero q item = some (false, q)
  evict_rounds (suc n) q item = do
    (_, q₁) ← evict q "DropHead overflow" (size q.queue)
    (pushed, q₂) ← spin 128 q₁ item
    elim pushed [ true ↦ some (true, q₂) | false ↦ evict_rounds n q₂ item ]

  -- The last loop of both policies: push, or evict and try again.
  pub fall_back : ℕ → NodeQueue A → A → String → Option (Bool × NodeQueue A)
  fall_back zero q item reason = none
  fall_back (suc fuel) q item reason = do
    (pushed, r) ← try_push q.queue item
    elim pushed [
      | true ↦ some (true, accepted q r)
      | false ↦ do
        let q' = record q { queue = r }
        (_, q'') ← evict q' reason (size q'.queue)
        fall_back fuel q'' item reason
    ]

  pub push_drop_head : NodeQueue A → A → Option (Bool × NodeQueue A)
  push_drop_head q item = do
    (pushed, r) ← try_push q.queue item
    elim pushed [
      | true ↦ some (true, accepted q r)
      | false ↦ do
        (done, q') ← evict_rounds 4 (record q { queue = r }) item
        elim done [
          | true ↦ some (true, q')
          | false ↦ fall_back fall_back_rounds q' item "DropHead overflow (fallback)"
        ]
    ]

  -- `while (current_size >= target_keep)` of `pushKeepLatest`.
  pub evict_down : ℕ → ℕ → NodeQueue A → ℕ → Option (NodeQueue A)
  evict_down zero target q current = none
  evict_down (suc fuel) target q current =
      let next = evict q "KeepLatest overflow" current >>= λ (victim, q'). elim victim [
        | true ↦ evict_down fuel target q' (size q'.queue)
        | false ↦ some q'
      ] in
      if leb target current then next else some q

  pub push_keep_latest : NodeQueue A → A → Option (Bool × NodeQueue A)
  push_keep_latest q item = do
    let current = size q.queue
    q₁ ← evict_down (suc current) (target_keep q) q current
    (pushed, r) ← try_push q₁.queue item
    elim pushed [
      | true ↦ some (true, accepted q₁ r)
      | false ↦ do
        let q₂ = record q₁ { queue = r }
        (_, q₃) ← evict q₂ "KeepLatest force overflow" (size q₂.queue)
        (done, q₄) ← spin 128 q₃ item
        elim done [
          | true ↦ some (true, q₄)
          | false ↦ fall_back fall_back_rounds q₄ item "KeepLatest overflow (fallback)"
        ]
    ]

  pub push_by : DropPolicy → NodeQueue A → A → Option (Bool × NodeQueue A)
  push_by drop_tail q item = push_drop_tail q item
  push_by drop_head q item = push_drop_head q item
  push_by keep_latest q item = push_keep_latest q item

  pub push : NodeQueue A → A → Option (Bool × NodeQueue A)
  unfolding push_by
  push q item = push_by q.config.drop_policy q item

  -- `clear`: pop until the ring buffer is empty. Neither counters nor callbacks.
  pub drain : ℕ → Ring A → Option (Ring A)
  drain zero r = none
  drain (suc fuel) r = do
    (item, r') ← try_pop r
    elim item [ none ↦ some r' | some _ ↦ drain fuel r' ]

  pub clear : NodeQueue A → Option (NodeQueue A)
  clear q = do r ← drain (suc (size q.queue)) q.queue; some (record q { queue = r })
