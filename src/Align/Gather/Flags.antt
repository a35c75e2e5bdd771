-- ===== src/Align/Gather/Flags.antt =====
-- What the phases of `gatherAligned` of src/frame_alignment.hpp do to the queues: the flags fall on
-- real heads, and a discard makes the queues shorter.
use ai_pipe.Prelude.{
  ℕ, ◌+◌, ◌≤◌, ◌<◌, ◌≡◌, ◌⊎◌, inl, inr, refl, arith, Bool, true, false, Option, none, some, List,
  [], ◌∷◌, length, Bool-cases, Option-cases, List-cases, subst,
}
use ai_pipe.Align.{
  Packet, Heads, Policy, by_frame_id, by_stream_frame_id, by_timestamp, stale, any, lagging, older,
  newest_id, newest_time, epoch, tie_break, smallest, keyed_as, behind, nobody, max_time,
  earliest_time,
}
use ai_pipe.Align.Times.{IsClock}
use ai_pipe.Align.Gather.{Port, Seen, drained, read, drop_flagged}

-- Queued packets.
unfoldable pub total : List Port → ℕ
total [] = 0
total (p ∷ ps) = length p.queue + total ps

-- The heads seen are the heads of the queues; a port without a head is drained.
abbrev pub Matches : Seen → List Port → Type 0
Matches [] [] = Unit {0}
Matches [] (p ∷ ps) = ⊥
Matches (h ∷ hs) [] = ⊥
Matches (none ∷ hs) (p ∷ ps) = (drained p ≡ true) × Matches hs ps
Matches (some h ∷ hs) (p ∷ ps) =
    ((rest : List (Option Packet)) × (p.queue ≡ h ∷ rest)) × Matches hs ps

-- Only real heads are flagged.
abbrev pub is_real : Option Packet → Bool
is_real none = false
is_real (some _) = true

abbrev pub Fits : List Bool → Heads → Type 0
Fits [] hs = Unit {0}
Fits (f ∷ fs) [] = ⊥
Fits (f ∷ fs) (h ∷ hs) = ((f ≡ false) ⊎ (is_real h ≡ true)) × Fits fs hs

lagging-Fits : (n : ℕ) (hs : Heads) → Fits (lagging n hs) hs
unfolding lagging
lagging-Fits n [] = tt
lagging-Fits n (none ∷ hs) = (inl refl, lagging-Fits n hs)
lagging-Fits n (some p ∷ hs) = (inr refl, lagging-Fits n hs)

older-Fits : (n : ℕ) (hs : Heads) → Fits (older n hs) hs
unfolding older
older-Fits n [] = tt
older-Fits n (none ∷ hs) = (inl refl, older-Fits n hs)
older-Fits n (some p ∷ hs) = (inr refl, older-Fits n hs)

keyed-Fits : (k : Packet) (hs : Heads) → Fits (keyed_as k hs) hs
unfolding keyed_as
keyed-Fits k [] = tt
keyed-Fits k (none ∷ hs) = (inl refl, keyed-Fits k hs)
keyed-Fits k (some p ∷ hs) = (inr refl, keyed-Fits k hs)

nobody-Fits : (hs : Heads) → Fits (nobody hs) hs
nobody-Fits [] = tt
nobody-Fits (h ∷ hs) = (inl refl, nobody-Fits hs)

behind-Fits : (n t : ℕ) (hs : Heads) → Fits (behind n t hs) hs
unfolding behind
behind-Fits n t [] = tt
behind-Fits n t (none ∷ hs) = (inl refl, behind-Fits n t hs)
behind-Fits n t (some p ∷ hs) = (inr refl, behind-Fits n t hs)

tie_break-Fits : (hs : Heads) → Fits (tie_break hs) hs
unfolding tie_break
tie_break-Fits hs = elim (Option-cases (smallest none hs)) [
  | inl e ↦ rw (e, tie_break) (nobody-Fits hs)
  | inr (k, e) ↦ rw (e, tie_break) (keyed-Fits k hs)
]

pub stale-Fits : (policy : Policy) (hs : Heads) → Fits (stale policy hs) hs
unfolding stale
stale-Fits by_frame_id hs = lagging-Fits (newest_id 0 hs) hs
stale-Fits by_stream_frame_id hs = elim (Bool-cases (any (older (newest_time epoch hs) hs))) [
  | inl e ↦ rw e (older-Fits (newest_time epoch hs) hs)
  | inr e ↦ rw e (tie_break-Fits hs)
]
stale-Fits (by_timestamp tolerance) hs = behind-Fits (max_time earliest_time hs) tolerance hs

pub drop_flagged-le : (fs : List Bool) (ps : List Port) → total (drop_flagged fs ps).0 ≤ total ps
unfolding total drop_flagged
drop_flagged-le [] ps = omega arith
drop_flagged-le (f ∷ fs) [] = omega arith
drop_flagged-le (false ∷ fs) (p ∷ ps) = omega (arith, drop_flagged-le fs ps)
drop_flagged-le (true ∷ fs) (p ∷ ps) = ground (arith, drop_flagged-le fs ps)

pub drop_flagged-lt :
    (fs : List Bool) (hs : Seen) (ps : List Port)
    → Fits fs (read hs)
    → Matches hs ps
    → any fs ≡ true
    → total (drop_flagged fs ps).0 < total ps
unfolding total drop_flagged any
drop_flagged-lt [] hs ps f m e = cc
drop_flagged-lt (b ∷ fs) [] ps f m e = absurd f
drop_flagged-lt (b ∷ fs) (h ∷ hs) [] f m e = absurd m
drop_flagged-lt (false ∷ fs) (none ∷ hs) (p ∷ ps) f m e =
    omega (arith, drop_flagged-lt fs hs ps f.1 m.1 e)
drop_flagged-lt (false ∷ fs) (some h ∷ hs) (p ∷ ps) f m e =
    omega (arith, drop_flagged-lt fs hs ps f.1 m.1 e)
drop_flagged-lt (true ∷ fs) (none ∷ hs) (p ∷ ps) f m e = ground arith
drop_flagged-lt (true ∷ fs) (some h ∷ hs) (p ∷ ps) f m e =
    let (rest, q) = m.0 in ground (arith, drop_flagged-le fs ps, q)

-- Every queued time stamp is a 64-bit tick count.
abbrev pub AllClock : List Port → Type 0
AllClock [] = Unit {0}
AllClock (p ∷ ps) = IsClock p.queue × AllClock ps

pub IsClock-tail : (h : Option Packet) (hs : Heads) → IsClock (h ∷ hs) → IsClock hs
IsClock-tail none hs v = v
IsClock-tail (some p) hs v = v.1

IsClock-rest :
    (q : Heads) (h : Option Packet) (rest : Heads) → q ≡ h ∷ rest → IsClock q → IsClock rest
IsClock-rest q h rest e v = IsClock-tail h rest (subst IsClock e v)

pub drop_flagged-AllClock :
    (fs : List Bool) (ps : List Port) → AllClock ps → AllClock (drop_flagged fs ps).0
unfolding drop_flagged
drop_flagged-AllClock [] ps v = v
drop_flagged-AllClock (f ∷ fs) [] v = tt
drop_flagged-AllClock (false ∷ fs) (p ∷ ps) v = (v.0, drop_flagged-AllClock fs ps v.1)
drop_flagged-AllClock (true ∷ fs) (p ∷ ps) v = elim (List-cases p.queue) [
  | inl e ↦ rw e (subst IsClock e v.0, drop_flagged-AllClock fs ps v.1)
  | inr (h, rest, e) ↦ rw e (IsClock-rest p.queue h rest e v.0, drop_flagged-AllClock fs ps v.1)
]

pub read-IsClock : (hs : Seen) (ps : List Port) → Matches hs ps → AllClock ps → IsClock (read hs)
read-IsClock [] ps m v = tt
read-IsClock (h ∷ hs) [] m v = absurd m
read-IsClock (none ∷ hs) (p ∷ ps) m v = read-IsClock hs ps m.1 v.1
read-IsClock (some none ∷ hs) (p ∷ ps) m v = read-IsClock hs ps m.1 v.1
read-IsClock (some (some h) ∷ hs) (p ∷ ps) m v =
    let (rest, q) = m.0 in ((subst IsClock q v.0).0, read-IsClock hs ps m.1 v.1)
