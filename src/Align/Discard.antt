-- ===== src/Align/Discard.antt =====
-- What a policy discards could never be paired: the heads of a port do not go back in id or in time.
use ai_pipe.Prelude.{
  ℕ, zero, suc, ◌-◌, ◌≤◌, ◌<◌, ◌≡◌, arith, true, false, none, some, [], ◌∷◌, get_elem?,
}
use ai_pipe.Align.{
  Packet, Heads, newest_id, lagging, max_time, earliest_time, behind, epoch, ticks, within,
  by_frame_id, by_timestamp, stale, pairs_with,
}
use ai_pipe.Align.Times.{within-leb}

lagging-get :
    (n : ℕ) (hs : Heads) (i : ℕ) (p : Packet)
    → get_elem? (lagging n hs) i ≡ some true
    → get_elem? hs i ≡ some (some p)
    → (0 < p.id) × (p.id < n)
unfolding lagging
lagging-get n [] i p f e = absurd (cc)
lagging-get n (h ∷ hs) zero p f e = ground arith
lagging-get n (h ∷ hs) (suc i) p f e = lagging-get n hs i p f e

-- A head that the frame id policy discards pairs with no packet whose id is at least that of the newest
-- head.
pub frames_discard :
    (hs : Heads) (i : ℕ) (p later : Packet)
    → get_elem? (stale by_frame_id hs) i ≡ some true
    → get_elem? hs i ≡ some (some p)
    → newest_id 0 hs ≤ later.id
    → pairs_with by_frame_id p later ≡ false
unfolding stale pairs_with
frames_discard hs i p later f e newer = ground (arith, lagging-get (newest_id 0 hs) hs i p f e)

behind-get :
    (n t : ℕ) (hs : Heads) (i : ℕ) (p : Packet)
    → get_elem? (behind n t hs) i ≡ some true
    → get_elem? hs i ≡ some (some p)
    → within (n - p.timestamp) t ≡ false
unfolding behind
behind-get n t [] i p f e = absurd (cc)
behind-get n t (none ∷ hs) zero p f e = absurd (cc)
behind-get n t (none ∷ hs) (suc i) p f e = behind-get n t hs i p f e
behind-get n t (some h ∷ hs) zero p f e = ground arith
behind-get n t (some h ∷ hs) (suc i) p f e = behind-get n t hs i p f e

-- A head that the time stamp policy discards pairs with no packet whose time stamp is at least that of
-- the newest head, and less than 2^63 ticks after that of the head, with a tolerance of less than 2^63 ticks.
pub times_discard :
    (tolerance : ℕ) (hs : Heads) (i : ℕ) (p later : Packet)
    → get_elem? (stale (by_timestamp tolerance) hs) i ≡ some true
    → get_elem? hs i ≡ some (some p)
    → max_time earliest_time hs ≤ later.timestamp
    → later.timestamp - p.timestamp < epoch
    → ticks tolerance < epoch
    → pairs_with (by_timestamp tolerance) p later ≡ false
unfolding stale pairs_with
times_discard tolerance hs i p later f e newer close small = ground (
  arith,
  behind-get (max_time earliest_time hs) tolerance hs i p f e,
  within-leb (max_time earliest_time hs - p.timestamp) tolerance,
  within-leb (later.timestamp - p.timestamp) tolerance close small,
)
