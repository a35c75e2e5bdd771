-- ===== src/Align/Streams.antt =====
-- The policy by stream and frame id.
use ai_pipe.Prelude.{
  ℕ, zero, suc, ◌≡◌, ◌⊎◌, inl, inr, refl, arith, true, false, ◌&&◌, Option, none, some, [], ◌∷◌,
  get_elem?, Bool-cases,
}
use ai_pipe.Align.{
  Packet, Heads, has_frame_id, same_key, all_keyed, any, smallest, keyed_as, tie_break,
  by_stream_frame_id, aligned, stale, pairs_with, key_before,
}

-- Once a head with a frame id is found, the search ends at such a head, and the tie-break flags it.
smallest-some :
    (k : Packet) (hs : Heads)
    → (k' : Packet) × (smallest (some k) hs ≡ some k') × ((k' ≡ k) ⊎ (any (keyed_as k' hs) ≡ true))
unfolding smallest keyed_as any
smallest-some k [] = (k, refl, inl refl)
smallest-some k (none ∷ hs) = smallest-some k hs
smallest-some k (some p ∷ hs) = elim (Bool-cases (has_frame_id p && key_before p k)) [
  | inl better ↦
      let (k', found, from) = smallest-some p hs in
      (k', rw better found, ground (arith, better, from))
  | inr worse ↦
      let (k', found, from) = smallest-some k hs in
      (k', rw worse found, ground (arith, worse, from))
]

smallest-none :
    (hs : Heads)
    → all_keyed none hs ≡ false
    → (k : Packet) × (smallest none hs ≡ some k) × (any (keyed_as k hs) ≡ true)
unfolding smallest all_keyed any keyed_as
smallest-none [] e = cc
smallest-none (none ∷ hs) e = smallest-none hs e
smallest-none (some p ∷ hs) e = elim (Bool-cases (has_frame_id p)) [
  | inl real ↦
      let (k, found, from) = smallest-some p hs in (k, rw real found, ground (arith, real, from))
  | inr wild ↦
      let (k, found, hit) = smallest-none hs (rw wild at e) in
      (k, rw wild found, ground (arith, hit))
]

tie_break-any : (hs : Heads) → all_keyed none hs ≡ false → any (tie_break hs) ≡ true
unfolding tie_break
tie_break-any hs e = let (k, found, hit) = smallest-none hs e in rw (found, tie_break) hit

pub streams_progress :
    (hs : Heads) → aligned by_stream_frame_id hs ≡ false → any (stale by_stream_frame_id hs) ≡ true
unfolding aligned stale
streams_progress hs e = ground (arith, tie_break-any hs e)

keyed-get :
    (k : Packet) (hs : Heads) (i : ℕ) (p : Packet)
    → all_keyed (some k) hs ≡ true
    → get_elem? hs i ≡ some (some p)
    → (has_frame_id p ≡ false) ⊎ (same_key p k ≡ true)
unfolding all_keyed
keyed-get k [] i p e f = cc
keyed-get k (none ∷ hs) zero p e f = cc
keyed-get k (none ∷ hs) (suc i) p e f = keyed-get k hs i p e f
keyed-get k (some h ∷ hs) zero p e f = ground arith
keyed-get k (some h ∷ hs) (suc i) p e f = keyed-get k hs i p (ground arith) f

get-tail :
    (h : Option Packet) (hs : Heads) (i : ℕ) (p : Packet)
    → get_elem? (h ∷ hs) i ≡ some (some p)
    → (h ≡ some p) ⊎ ((j : ℕ) × (get_elem? hs j ≡ some (some p)))
get-tail h hs zero p f = inl (cc)
get-tail h hs (suc i) p f = inr (i, f)

abbrev Keyed : Packet → Packet → Type 0
Keyed k p = (has_frame_id p ≡ false) ⊎ (same_key p k ≡ true)

-- Aligned heads have one key.
key-get :
    (hs : Heads)
    → all_keyed none hs ≡ true
    → (k : Packet) × ((i : ℕ) (p : Packet) → get_elem? hs i ≡ some (some p) → Keyed k p)
unfolding all_keyed
key-get [] e = (record { id = 0; stream_id = 0; timestamp = 0 }, λ i p f. absurd (cc))
key-get (none ∷ hs) e =
    let (k, at) = key-get hs e in
    (k, λ i p f. elim (get-tail none hs i p f) [ inl q ↦ absurd (cc) | inr (j, g) ↦ at j p g ])
key-get (some h ∷ hs) e = elim (Bool-cases (has_frame_id h)) [
  | inl real ↦ (
    h,
    λ i p f. elim (get-tail (some h) hs i p f) [
      | inl q ↦ inr (ground arith)
      | inr (j, g) ↦ keyed-get h hs j p (rw real at e) g
    ],
  )
  | inr wild ↦
      let (k, at) = key-get hs (rw wild at e) in
      (
        k,
        λ i p f. elim (get-tail (some h) hs i p f) [
          | inl q ↦ inl (ground arith)
          | inr (j, g) ↦ at j p g
        ],
      )
]

-- If the stream policy calls the heads aligned, then any head pairs with any head that has a frame
-- id: it has no frame id itself, or the same stream and frame.
pub streams_pairs :
    (hs : Heads) (i j : ℕ) (p q : Packet)
    → aligned by_stream_frame_id hs ≡ true
    → get_elem? hs i ≡ some (some p)
    → get_elem? hs j ≡ some (some q)
    → has_frame_id q ≡ true
    → pairs_with by_stream_frame_id p q ≡ true
unfolding aligned pairs_with
streams_pairs hs i j p q e f g real =
    let (k, at) = key-get hs e in ground (arith, at i p f, at j q g)
