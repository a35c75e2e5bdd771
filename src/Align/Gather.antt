-- ===== src/Align/Gather.antt =====
-- `gatherAligned` of src/frame_alignment.hpp with the callbacks of `runAlignedGather`,
-- `peekAlignmentHead` and `dropStaleHead` of src/execution_engine_impl.cpp. A run of the loop is alone
-- at the queues. `doomed` is `shouldDrop` of the sync strategy for the node, which depends on the stale
-- heads that the run has reported to the strategy so far; it is false for a node that is not tracked.
pub mod Flags
pub mod Delivery
pub mod Ends
use ai_pipe.Prelude.{
  ℕ, zero, suc, ◌+◌, Bool, true, false, not, ◌&&◌, ◌||◌, Option, none, some, List, [], ◌∷◌, ◌++◌,
  eqb, if◌then◌else◌, ◌>>=◌,
}
use mathlib.Core.Option
use ai_pipe.Align.{Packet, Heads, head_id, Policy, aligned, stale, any}

pub record Port : Type 0 where
  pub queue : List (Option Packet)
  -- whether the end of the stream has reached the port
  pub ended : Bool

-- What became of the packets that left a port, oldest first.
pub record Log : Type 0 where
  pub delivered : List (Option Packet)
  pub dropped : List (Option Packet)

abbrev pub is_empty : List (Option Packet) → Bool
is_empty [] = true
is_empty (_ ∷ _) = false

-- `portDrained`
abbrev pub drained : Port → Bool
drained p = p.ended && is_empty p.queue

module _ (doomed : ℕ → Bool) where
  -- The loop of `peekAlignmentHead`: doomed heads are dropped first.
  abbrev pub is_doomed : Option Packet → Bool
  is_doomed h = not (eqb (head_id h) 0) && doomed (head_id h)

  pub purge : List (Option Packet) → List (Option Packet)
  purge [] = []
  purge (h ∷ hs) = if is_doomed h then purge hs else h ∷ hs

  -- Phase A: the heads of the open ports, or nothing when an open port is dry. A port after a dry one
  -- is not looked at.
  pub peek_all : List Port → List Port × Option (List (Option (Option Packet)))
  peek_all [] = ([], some [])
  peek_all (p ∷ ps) =
      let purged = purge p.queue in
      let (ps', heads) = peek_all ps in
      let p' = record p { queue = purged } in
      if drained p then (p ∷ ps', Option.map (λ hs. none ∷ hs) heads) else elim purged [
        | [] ↦ (p' ∷ ps, none)
        | h ∷ _ ↦ (p' ∷ ps', Option.map (λ hs. some h ∷ hs) heads)
      ]

abbrev pub Seen : Type 0
Seen = List (Option (Option Packet))

-- The heads that the policy reads: a closed port has a null head.
abbrev pub read : Seen → Heads
read [] = []
read (none ∷ hs) = none ∷ read hs
read (some h ∷ hs) = h ∷ read hs

abbrev pub open_ports : Seen → ℕ
open_ports [] = 0
open_ports (none ∷ hs) = open_ports hs
open_ports (some _ ∷ hs) = suc (open_ports hs)

-- Phase B: pop every open port. `none` is a pop that fails.
pub pop_all : Seen → List Port → Option (List Port × List (Option Packet))
pop_all [] ps = some (ps, [])
pop_all (h ∷ hs) [] = some ([], [])
pop_all (none ∷ hs) (p ∷ ps) = do (ps', out) ← pop_all hs ps; some (p ∷ ps', out)
pop_all (some _ ∷ hs) (p ∷ ps) = elim p.queue [
  | [] ↦ none
  | d ∷ rest ↦ do (ps', out) ← pop_all hs ps; some (record p { queue = rest } ∷ ps', d ∷ out)
]

-- Phase C: discard the flagged heads.
pub drop_flagged : List Bool → List Port → List Port × List (Option Packet)
drop_flagged [] ps = (ps, [])
drop_flagged (f ∷ fs) [] = ([], [])
drop_flagged (false ∷ fs) (p ∷ ps) = let (ps', out) = drop_flagged fs ps in (p ∷ ps', out)
drop_flagged (true ∷ fs) (p ∷ ps) =
    let (ps', out) = drop_flagged fs ps in
    elim p.queue [ [] ↦ (p ∷ ps', out) | d ∷ rest ↦ (record p { queue = rest } ∷ ps', d ∷ out) ]

-- How a run ends. All but `gathered` return false in the source: an open port is dry, every port is
-- closed, a pop fails, or the policy discards nothing. `out_of_fuel` is a loop that goes on.
pub data Outcome : Type 0 where
  gathered : List Port → Log → Outcome
  dry all_closed : List Port → Log → Outcome
  failed_pop no_progress out_of_fuel : Outcome

module _ (doomed : List (Option Packet) → ℕ → Bool) (policy : Policy) where
  pub gather : ℕ → List Port → Log → Outcome
  gather zero ps log = out_of_fuel
  gather (suc fuel) ps log =
      let (ps₁, seen) = peek_all (doomed log.dropped) ps in
      elim seen [
        | none ↦ dry ps₁ log
        | some hs ↦
            let flags = stale policy (read hs) in
            let (ps₂, out) = drop_flagged flags ps₁ in
            let next = gather fuel ps₂ (record log { dropped = log.dropped ++ out }) in
            let deliver : Outcome = elim (pop_all hs ps₁) [
              | none ↦ failed_pop
              | some (ps₃, taken) ↦ gathered ps₃ (record log { delivered = log.delivered ++ taken })
            ] in
            if eqb (open_ports hs) 0
            then all_closed ps₁ log
            else (if aligned policy (read hs)
                then deliver
                else (if any flags then next else no_progress))
      ]
