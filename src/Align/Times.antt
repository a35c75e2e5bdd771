-- ===== src/Align/Times.antt =====
-- The policy by time stamps.
use ai_pipe.Prelude.{
  ℕ, zero, suc, ◌+◌, ◌-◌, ◌≤◌, ◌<◌, ◌≡◌, ◌⊎◌, inl, refl, arith, max, min, leb, true, false, none,
  some, [], ◌∷◌, get_elem?,
}
use ai_pipe.Align.{
  Packet, Heads, min_time, max_time, behind, any, by_timestamp, aligned, stale, pairs_with,
  latest_time, earliest_time, epoch, ticks, within,
}

-- Time stamps are 64-bit tick counts.
abbrev pub IsClock : Heads → Type 0
IsClock [] = Unit {0}
IsClock (none ∷ hs) = IsClock hs
IsClock (some p ∷ hs) = (p.timestamp ≤ latest_time) × IsClock hs

max_time-ge : (m : ℕ) (hs : Heads) → m ≤ max_time m hs
unfolding max_time
max_time-ge m [] = omega arith
max_time-ge m (none ∷ hs) = max_time-ge m hs
max_time-ge m (some p ∷ hs) = omega (arith, max_time-ge (max m p.timestamp) hs)

min_time-le : (m : ℕ) (hs : Heads) → min_time m hs ≤ m
unfolding min_time
min_time-le m [] = omega arith
min_time-le m (none ∷ hs) = min_time-le m hs
min_time-le m (some p ∷ hs) = omega (arith, min_time-le (min m p.timestamp) hs)

max_time-bound : (m n : ℕ) (hs : Heads) → m ≤ latest_time → IsClock hs → max_time m hs ≤ latest_time
unfolding max_time
max_time-bound m n [] h v = h
max_time-bound m n (none ∷ hs) h v = max_time-bound m n hs h v
max_time-bound m n (some p ∷ hs) h v =
    max_time-bound (max m p.timestamp) n hs (omega (arith, v.0)) v.1

-- Durations that are not negative compare like numbers.
pub within-leb :
    (d tolerance : ℕ)
    → d < epoch
    → ticks tolerance < epoch
    → within d tolerance ≡ leb d (ticks tolerance)
unfolding within
within-leb d tolerance h k = ground (arith, h, k)

-- When no head is behind, the earliest is within the tolerance.
nobody_behind :
    (g t m : ℕ) (hs : Heads)
    → any (behind g t hs) ≡ false
    → (min_time m hs ≡ m) ⊎ (within (g - min_time m hs) t ≡ true)
unfolding behind any min_time
nobody_behind g t m [] e = inl refl
nobody_behind g t m (none ∷ hs) e = nobody_behind g t m hs e
nobody_behind g t m (some p ∷ hs) e = ground (arith, nobody_behind g t (min m p.timestamp) hs)

pub times_progress :
    (tolerance : ℕ) (hs : Heads)
    → ticks tolerance < epoch
    → IsClock hs
    → aligned (by_timestamp tolerance) hs ≡ false
    → any (stale (by_timestamp tolerance) hs) ≡ true
unfolding aligned stale
times_progress tolerance hs small v e = ground (
  arith,
  nobody_behind (max_time earliest_time hs) tolerance latest_time hs,
  within-leb 0 tolerance (omega arith) small,
  max_time-bound earliest_time 0 hs (omega arith) v,
)

time-get :
    (m n : ℕ) (hs : Heads) (i : ℕ) (p : Packet)
    → get_elem? hs i ≡ some (some p)
    → (min_time m hs ≤ p.timestamp) × (p.timestamp ≤ max_time n hs)
unfolding min_time max_time
time-get m n [] i p f = cc
time-get m n (none ∷ hs) zero p f = cc
time-get m n (none ∷ hs) (suc i) p f = time-get m n hs i p f
time-get m n (some h ∷ hs) zero p f =
    ground (arith, min_time-le (min m h.timestamp) hs, max_time-ge (max n h.timestamp) hs)
time-get m n (some h ∷ hs) (suc i) p f = time-get (min m h.timestamp) (max n h.timestamp) hs i p f

-- If the time stamp policy calls the heads aligned, where the heads are less than 2^63 ticks apart and the
-- tolerance is less than 2^63 ticks, then the time stamps of any two heads differ by at most the tolerance.
pub times_pairs :
    (tolerance : ℕ) (hs : Heads) (i j : ℕ) (p q : Packet)
    → max_time earliest_time hs - min_time latest_time hs < epoch
    → ticks tolerance < epoch
    → aligned (by_timestamp tolerance) hs ≡ true
    → get_elem? hs i ≡ some (some p)
    → get_elem? hs j ≡ some (some q)
    → (pairs_with (by_timestamp tolerance) p q ≡ true)
      × (p.timestamp ≤ q.timestamp + ticks tolerance)
unfolding aligned pairs_with
times_pairs tolerance hs i j p q close small e f g = ground (
  arith,
  within-leb (max_time earliest_time hs - min_time latest_time hs) tolerance close small,
  within-leb (p.timestamp - q.timestamp) tolerance,
  within-leb (q.timestamp - p.timestamp) tolerance,
  time-get latest_time earliest_time hs i p f,
  time-get latest_time earliest_time hs j q g,
)
