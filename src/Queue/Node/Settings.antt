-- ===== src/Queue/Node/Settings.antt =====
-- The setters of `LockFreeNodeQueue` of src/lock_free_queue.hpp. A drop callback is set or not; what it is
-- called with is collected. `resetStatistics` also sets the creation time, which is left out.
use ai_pipe.Prelude.{ℕ, Bool, Option, some}
use ai_pipe.Queue.Node.{NodeQueue, DropPolicy, no_statistics}

module _ {A : Type 0} where
  abbrev pub set_drop_policy : NodeQueue A → DropPolicy → NodeQueue A
  set_drop_policy q policy = record q { config = record (q.config) { drop_policy = policy } }

  abbrev pub set_queue_callback : NodeQueue A → Bool → NodeQueue A
  set_queue_callback q set = record q { listening = set }

  -- The accessor is adapted to return an optional frame id.
  abbrev pub set_frame_id_accessor : NodeQueue A → (A → Option ℕ) → NodeQueue A
  set_frame_id_accessor q accessor = record q { accessor = some accessor }

  abbrev pub reset_statistics : NodeQueue A → NodeQueue A
  reset_statistics q = record q { stats = no_statistics }
