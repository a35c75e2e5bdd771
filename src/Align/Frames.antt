-- ===== src/Align/Frames.antt =====
-- The frame id policy.
use ai_pipe.Prelude.{ℕ, zero, suc, ◌≤◌, ◌≡◌, ◌⊎◌, arith, max, true, false, some, [], ◌∷◌, get_elem?}
use ai_pipe.Align.{
  Packet, Heads, head_id, newest_id, all_at, lagging, any, by_frame_id, aligned, stale,
  has_frame_id, pairs_with,
}

newest_id-ge : (target : ℕ) (hs : Heads) → target ≤ newest_id target hs
unfolding newest_id
newest_id-ge target [] = omega arith
newest_id-ge target (h ∷ hs) = omega (arith, newest_id-ge (max target (head_id h)) hs)

-- Every head is at most the newest.
abbrev Below : ℕ → Heads → Type 0
Below n [] = Unit {0}
Below n (h ∷ hs) = (head_id h ≤ n) × Below n hs

newest_id-Below : (target : ℕ) (hs : Heads) → Below (newest_id target hs) hs
unfolding newest_id
newest_id-Below target [] = tt
newest_id-Below target (h ∷ hs) = (
  omega (arith, newest_id-ge (max target (head_id h)) hs),
  newest_id-Below (max target (head_id h)) hs,
)

lagging-any : (n : ℕ) (hs : Heads) → Below n hs → all_at n hs ≡ false → any (lagging n hs) ≡ true
unfolding all_at lagging any
lagging-any n [] v e = cc
lagging-any n (h ∷ hs) v e = ground (arith, lagging-any n hs v.1)

-- Heads that are not aligned have one that the policy discards.
pub frames_progress :
    (hs : Heads) → aligned by_frame_id hs ≡ false → any (stale by_frame_id hs) ≡ true
unfolding aligned stale
frames_progress hs e = lagging-any (newest_id 0 hs) hs (newest_id-Below 0 hs) e

all_at-get :
    (n : ℕ) (hs : Heads) (i : ℕ) (p : Packet)
    → all_at n hs ≡ true
    → get_elem? hs i ≡ some (some p)
    → (p.id ≡ 0) ⊎ (p.id ≡ n)
unfolding all_at
all_at-get n [] i p e f = cc
all_at-get n (h ∷ hs) zero p e f = ground arith
all_at-get n (h ∷ hs) (suc i) p e f = all_at-get n hs i p (ground arith) f

-- If the frame id policy calls the heads aligned, then any head pairs with any head that has a frame
-- id: it has no frame id itself, or the same one.
pub frames_pairs :
    (hs : Heads) (i j : ℕ) (p q : Packet)
    → aligned by_frame_id hs ≡ true
    → get_elem? hs i ≡ some (some p)
    → get_elem? hs j ≡ some (some q)
    → has_frame_id q ≡ true
    → pairs_with by_frame_id p q ≡ true
unfolding aligned pairs_with
frames_pairs hs i j p q e f g real =
    ground (arith, all_at-get (newest_id 0 hs) hs i p e f, all_at-get (newest_id 0 hs) hs j q e g)
