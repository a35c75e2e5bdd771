-- ===== src/Align.antt =====
-- src/frame_alignment.hpp: which heads of the input queues of a join may be processed together, and
-- which can never be. A time point is its tick count above the least one, so `Timestamp::min()` is 0
-- and `Timestamp{}` is 2^63; ticks are nanoseconds. Differences and tolerances are 64-bit numbers with a sign:
-- one that is out of range wraps around, as machines do where C++ leaves it undefined. A null packet is `none`. Of a packet the identity is kept.
pub mod Frames
pub mod Streams
pub mod Times
pub mod Discard
pub mod Gather
mod Tests
use ai_pipe.Prelude.{
  ℕ, ◌+◌, ◌-◌, ◌*◌, ◌%◌, ◌^◌, max, min, Bool, true, false, not, ◌&&◌, ◌||◌, Option, none, some,
  List, [], ◌∷◌, eqb, ltb, leb, if◌then◌else◌,
}

-- `DataPacket` of include/ai_pipe/data_packet.hpp, without its parameters.
pub record Packet : Type 0 where
  pub id : ℕ
  pub stream_id : ℕ
  pub timestamp : ℕ

abbrev pub Heads : Type 0
Heads = List (Option Packet)

abbrev pub has_frame_id : Packet → Bool
has_frame_id p = not (eqb p.id 0)

-- `headId`
abbrev pub head_id : Option Packet → ℕ
head_id none = 0
head_id (some p) = p.id

-- `newestId`, from the target found so far.
pub newest_id : ℕ → Heads → ℕ
newest_id target [] = target
newest_id target (h ∷ hs) = newest_id (max target (head_id h)) hs

-- The loop of `FrameIdPolicy::aligned`.
pub all_at : ℕ → Heads → Bool
all_at target [] = true
all_at target (h ∷ hs) =
    if not (eqb (head_id h) 0) && not (eqb (head_id h) target) then false else all_at target hs

-- The flags of the heads that `FrameIdPolicy::forEachStale` visits.
pub lagging : ℕ → Heads → List Bool
lagging target [] = []
lagging target (h ∷ hs) = (not (eqb (head_id h) 0) && ltb (head_id h) target) ∷ lagging target hs

abbrev pub same_key : Packet → Packet → Bool
same_key p q = eqb p.stream_id q.stream_id && eqb p.id q.id

-- The loop of `StreamFrameIdPolicy::aligned`; the key is that of the first head with a frame id.
pub all_keyed : Option Packet → Heads → Bool
all_keyed key [] = true
all_keyed key (none ∷ hs) = all_keyed key hs
all_keyed none (some p ∷ hs) = all_keyed (if has_frame_id p then some p else none) hs
all_keyed (some k) (some p ∷ hs) =
    if has_frame_id p && not (same_key p k) then false else all_keyed (some k) hs

abbrev pub epoch : ℕ
epoch = 2 ^ 63

-- `newest_ts` of `StreamFrameIdPolicy::forEachStale`.
pub newest_time : ℕ → Heads → ℕ
newest_time newest [] = newest
newest_time newest (none ∷ hs) = newest_time newest hs
newest_time newest (some p ∷ hs) =
    newest_time (if has_frame_id p && ltb newest p.timestamp then p.timestamp else newest) hs

pub older : ℕ → Heads → List Bool
older newest [] = []
older newest (none ∷ hs) = false ∷ older newest hs
older newest (some p ∷ hs) = (has_frame_id p && ltb p.timestamp newest) ∷ older newest hs

pub any : List Bool → Bool
any [] = false
any (f ∷ fs) = f || any fs

-- `std::make_pair(stream, id) <` is lexicographic.
abbrev pub key_before : Packet → Packet → Bool
key_before p q = ltb p.stream_id q.stream_id || (eqb p.stream_id q.stream_id && ltb p.id q.id)

-- The search for `min_index`: the head with the smallest key.
pub smallest : Option Packet → Heads → Option Packet
smallest least [] = least
smallest least (none ∷ hs) = smallest least hs
smallest none (some p ∷ hs) = smallest (if has_frame_id p then some p else none) hs
smallest (some k) (some p ∷ hs) =
    smallest (some (if has_frame_id p && key_before p k then p else k)) hs

pub keyed_as : Packet → Heads → List Bool
keyed_as k [] = []
keyed_as k (none ∷ hs) = false ∷ keyed_as k hs
keyed_as k (some p ∷ hs) = (has_frame_id p && same_key p k) ∷ keyed_as k hs

abbrev pub nobody : Heads → List Bool
nobody [] = []
nobody (h ∷ hs) = false ∷ nobody hs

pub tie_break : Heads → List Bool
unfolding smallest keyed_as
tie_break hs = elim (smallest none hs) [ none ↦ nobody hs | some k ↦ keyed_as k hs ]

-- `Timestamp::max()` and `Timestamp::min()`
abbrev pub latest_time : ℕ
latest_time = 2 ^ 64 - 1

abbrev pub earliest_time : ℕ
earliest_time = 0

pub min_time : ℕ → Heads → ℕ
min_time m [] = m
min_time m (none ∷ hs) = min_time m hs
min_time m (some p ∷ hs) = min_time (min m p.timestamp) hs

pub max_time : ℕ → Heads → ℕ
max_time m [] = m
max_time m (none ∷ hs) = max_time m hs
max_time m (some p ∷ hs) = max_time (max m p.timestamp) hs

-- The microseconds of a tolerance, in ticks.
abbrev pub ticks : ℕ → ℕ
ticks microseconds = microseconds * 1000

-- `<=` of two durations with a sign, as 64-bit words: the sign is the highest bit.
pub within : ℕ → ℕ → Bool
within difference tolerance =
    leb ((difference + epoch) % 2 ^ 64) ((ticks tolerance + epoch) % 2 ^ 64)

pub behind : ℕ → ℕ → Heads → List Bool
behind newest tolerance [] = []
behind newest tolerance (none ∷ hs) = false ∷ behind newest tolerance hs
behind newest tolerance (some p ∷ hs) =
    not (within (newest - p.timestamp) tolerance) ∷ behind newest tolerance hs

-- The three policies; a tolerance is in microseconds.
pub data Policy : Type 0 where
  by_frame_id by_stream_frame_id : Policy
  by_timestamp : ℕ → Policy

pub aligned : Policy → Heads → Bool
aligned by_frame_id hs = all_at (newest_id 0 hs) hs
aligned by_stream_frame_id hs = all_keyed none hs
aligned (by_timestamp tolerance) hs =
    let least = min_time latest_time hs in
    let greatest = max_time earliest_time hs in
    ltb greatest least || within (greatest - least) tolerance

-- `forEachStale`, as a flag for each head.
pub stale : Policy → Heads → List Bool
stale by_frame_id hs = lagging (newest_id 0 hs) hs
stale by_stream_frame_id hs =
    let by_time = older (newest_time epoch hs) hs in if any by_time then by_time else tie_break hs
stale (by_timestamp tolerance) hs = behind (max_time earliest_time hs) tolerance hs

pub pairs_with : Policy → Packet → Packet → Bool
pairs_with by_frame_id head reference = not (has_frame_id head) || eqb head.id reference.id
pairs_with by_stream_frame_id head reference = not (has_frame_id head) || same_key head reference
pairs_with (by_timestamp tolerance) head reference =
    within
      (if leb reference.timestamp head.timestamp
        then head.timestamp - reference.timestamp
        else reference.timestamp - head.timestamp)
      tolerance
