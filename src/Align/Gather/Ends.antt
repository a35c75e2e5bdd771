-- ===== src/Align/Gather/Ends.antt =====
-- The gather loop of src/frame_alignment.hpp ends, and delivers aligned heads only.
use ai_pipe.Prelude.{
  ℕ, zero, suc, ◌≤◌, ◌<◌, ◌≡◌, inl, inr, refl, ap, ◌∙◌, arith, Bool, true, false, not, ◌&&◌, Option,
  none, some, List, [], ◌∷◌, ◌++◌, eqb, length, Bool-cases, Option-cases, List-cases, subst,
}
use mathlib.Core.Option
use mathlib.Core.Option.{some-injective}
use ai_pipe.Align.{
  Packet, Heads, head_id, Policy, by_frame_id, by_stream_frame_id, by_timestamp, aligned, stale,
  any, epoch, ticks,
}
use ai_pipe.Align.Times.{IsClock, times_progress}
use ai_pipe.Align.Frames.{frames_progress}
use ai_pipe.Align.Streams.{streams_progress}
use ai_pipe.Align.Gather.{
  Port, Log, Seen, drained, purge, peek_all, read, open_ports, drop_flagged, Outcome, gathered, dry,
  all_closed, failed_pop, no_progress, out_of_fuel, gather,
}
use ai_pipe.Align.Gather.Flags.{
  total, Matches, AllClock, stale-Fits, drop_flagged-lt, drop_flagged-AllClock, read-IsClock,
  IsClock-tail,
}
use ai_pipe.Align.Gather.Delivery.{
  Later, Later-refl, Later-trans, drop_flagged-Later, Delivers, opened, Later-Delivers,
  pop_all-Delivers,
}

module _ (doomed : ℕ → Bool) where
  purge-le : (q : List (Option Packet)) → length (purge doomed q) ≤ length q
  unfolding purge
  purge-le [] = omega arith
  purge-le (h ∷ hs) = ground (arith, purge-le hs)

  purge-IsClock : (q : List (Option Packet)) → IsClock q → IsClock (purge doomed q)
  unfolding purge
  purge-IsClock [] v = v
  purge-IsClock (h ∷ hs) v = elim (Bool-cases (not (eqb (head_id h) 0) && doomed (head_id h))) [
    | inl gone ↦ rw gone (purge-IsClock hs (IsClock-tail h hs v))
    | inr kept ↦ rw kept v
  ]

  purge-suffix :
      (q : List (Option Packet)) → (gone : List (Option Packet)) × (q ≡ gone ++ purge doomed q)
  unfolding purge
  purge-suffix [] = ([], refl)
  purge-suffix (h ∷ hs) = elim (Bool-cases (not (eqb (head_id h) 0) && doomed (head_id h))) [
    | inl lost ↦ let (gone, e) = purge-suffix hs in (h ∷ gone, rw lost (ap (λ t. h ∷ t) e))
    | inr kept ↦ ([], rw kept refl)
  ]

  -- What phase A leaves of the ports, and how the heads it saw relate to that.
  record Peeked (ps : List Port) (r : List Port × Option Seen) : Type 0 where
    less : total r.0 ≤ total ps
    clock : AllClock ps → AllClock r.0
    later : Later ps r.0
    match : (hs : Seen) → r.1 ≡ some hs → Matches hs r.0

  Peeked-closed :
      (p : Port) (ps : List Port) (r : List Port × Option Seen)
      → drained p ≡ true
      → Peeked ps r
      → Peeked (p ∷ ps) (p ∷ r.0, Option.map (λ hs. none ∷ hs) r.1)
  unfolding total
  Peeked-closed p ps (ps', none) closed v = record {
    less = omega (arith, v.less);
    later = (refl, ([], refl), v.later);
    clock = λ c. (c.0, v.clock c.1);
    match = λ hs e. absurd (cc);
  }
  Peeked-closed p ps (ps', some seen) closed v = record {
    less = omega (arith, v.less);
    later = (refl, ([], refl), v.later);
    clock = λ c. (c.0, v.clock c.1);
    match = λ hs e.
        subst (λ h. Matches h (p ∷ ps')) (some-injective (none ∷ seen) hs e)
          (closed, v.match seen refl);
  }

  -- What `purge` does to a queue.
  abbrev Shrinks : List (Option Packet) → List (Option Packet) → Type 0
  Shrinks q q' =
      (length q' ≤ length q)
      × (IsClock q → IsClock q')
      × ((gone : List (Option Packet)) × (q ≡ gone ++ q'))

  purge-Shrinks : (q q' : List (Option Packet)) → purge doomed q ≡ q' → Shrinks q q'
  purge-Shrinks q q' e = subst (Shrinks q) e (purge-le q, purge-IsClock q, purge-suffix q)

  Peeked-open :
      (p : Port) (h : Option Packet) (rest : List (Option Packet)) (ps : List Port)
      (r : List Port × Option Seen)
      → Shrinks p.queue (h ∷ rest)
      → Peeked ps r
      → Peeked (p ∷ ps) (record p { queue = h ∷ rest } ∷ r.0, Option.map (λ hs. some h ∷ hs) r.1)
  unfolding total
  Peeked-open p h rest ps (ps', none) s v = record {
    less = omega (arith, v.less, s.0);
    later = (refl, s.2, v.later);
    clock = λ c. (s.1 c.0, v.clock c.1);
    match = λ hs e. absurd (cc);
  }
  Peeked-open p h rest ps (ps', some seen) s v = record {
    less = omega (arith, v.less, s.0);
    later = (refl, s.2, v.later);
    clock = λ c. (s.1 c.0, v.clock c.1);
    match = λ hs e.
        subst (λ hs'. Matches hs' (record p { queue = h ∷ rest } ∷ ps'))
          (some-injective (some h ∷ seen) hs e) ((rest, refl), v.match seen refl);
  }

  Peeked-dry :
      (p : Port) (ps : List Port)
      → Shrinks p.queue []
      → Peeked (p ∷ ps) (record p { queue = [] } ∷ ps, none)
  unfolding total
  Peeked-dry p ps s = record {
    less = omega (arith, s.0);
    later = (refl, s.2, Later-refl ps);
    clock = λ c. (tt, c.1);
    match = λ hs e. absurd (cc);
  }

  peek_all-Peeked : (ps : List Port) → Peeked ps (peek_all doomed ps)
  unfolding peek_all
  peek_all-Peeked [] = record {
    less = omega arith;
    later = tt;
    clock = λ c. c;
    match = λ hs e. subst (λ h. Matches h []) (some-injective [] hs e) tt;
  }
  peek_all-Peeked (p ∷ ps) = elim (Bool-cases (drained p)) [
    | inl closed ↦ rw closed (Peeked-closed p ps (peek_all doomed ps) closed (peek_all-Peeked ps))
    | inr open_port ↦ elim (List-cases (purge doomed p.queue)) [
      | inl q ↦ rw (open_port, q, q) (Peeked-dry p ps (purge-Shrinks p.queue [] q))
      | inr (h, rest, q) ↦
          rw (open_port, q, q)
            (Peeked-open p h rest ps (peek_all doomed ps) (purge-Shrinks p.queue (h ∷ rest) q)
              (peek_all-Peeked ps))
    ]
  ]

-- A tolerance is less than 2^63 ticks.
abbrev pub IsTolerance : Policy → Type 0
IsTolerance (by_timestamp tolerance) = ticks tolerance < epoch
IsTolerance _ = Unit {0}

policy_progress :
    (policy : Policy) (hs : Heads)
    → IsTolerance policy
    → IsClock hs
    → aligned policy hs ≡ false
    → any (stale policy hs) ≡ true
policy_progress by_frame_id hs small v e = frames_progress hs e
policy_progress by_stream_frame_id hs small v e = streams_progress hs e
policy_progress (by_timestamp tolerance) hs small v e = times_progress tolerance hs small v e

-- A delivery from the ports hands over a packet of each open port, and they are aligned; a run that returns false
-- hands over nothing. The other outcomes do not occur.
abbrev pub IsSound : Policy → List Port → Log → Outcome → Type 0
IsSound policy ps log (gathered ps' log') =
    (hs : Seen) × (aligned policy (read hs) ≡ true)
    × (0 < open_ports hs)
    × Delivers hs ps ps'
    × (log'.delivered ≡ log.delivered ++ opened hs)
IsSound policy ps log (dry ps' log') = (log'.delivered ≡ log.delivered) × Later ps ps'
IsSound policy ps log (all_closed ps' log') = (log'.delivered ≡ log.delivered) × Later ps ps'
IsSound policy ps log failed_pop = ⊥
IsSound policy ps log no_progress = ⊥
IsSound policy ps log out_of_fuel = ⊥

module _ (doomed : List (Option Packet) → ℕ → Bool) (policy : Policy) where
  Later-IsSound :
      (ps qs : List Port) (log log' : Log) (o : Outcome)
      → Later ps qs
      → log'.delivered ≡ log.delivered
      → IsSound policy qs log' o
      → IsSound policy ps log o
  Later-IsSound ps qs log log' (gathered rs out) h same (hs, fit, some_open, d, e) =
      (hs, fit, some_open, Later-Delivers hs ps qs rs h d, e ∙ ap (λ t. t ++ opened hs) same)
  Later-IsSound ps qs log log' (dry rs out) h same (e, later) =
      (e ∙ same, Later-trans ps qs rs h later)
  Later-IsSound ps qs log log' (all_closed rs out) h same (e, later) =
      (e ∙ same, Later-trans ps qs rs h later)
  Later-IsSound ps qs log log' failed_pop h same s = s
  Later-IsSound ps qs log log' no_progress h same s = s
  Later-IsSound ps qs log log' out_of_fuel h same s = s

  -- With more fuel than packets are queued, time stamps that are 64-bit ticks, and a tolerance below 2^63 ticks,
  -- the gather loop ends. It never fails a pop and never stops for lack of progress. A delivery takes one
  -- packet from each port that is not at its end, from at least one port, and the policy calls them aligned: in
  -- its queue the packet stood behind those that the run discarded, and those behind it are left. A run that
  -- returns false delivers nothing, and takes packets from the fronts of the queues only.
  pub gather-IsSound :
      (fuel : ℕ) (ps : List Port) (log : Log)
      → IsTolerance policy
      → AllClock ps
      → total ps < fuel
      → IsSound policy ps log (gather doomed policy fuel ps log)
  unfolding gather
  gather-IsSound zero ps log small v h = absurd (omega arith)
  gather-IsSound (suc fuel) ps log small v h =
      let k = peek_all-Peeked (doomed log.dropped) ps in
      elim (Option-cases (peek_all (doomed log.dropped) ps).1) [
        | inl e ↦ rw (e, IsSound) (refl, k.later)
        | inr (hs, e) ↦
            let m = k.match hs e in
            elim (Bool-cases (eqb (open_ports hs) 0)) [
              | inl closed ↦ rw (e, closed, IsSound) (refl, k.later)
              | inr opening ↦ elim (Bool-cases (aligned policy (read hs))) [
                | inl fit ↦
                    let qs = (peek_all (doomed log.dropped) ps).0 in
                    let (ps', popped, d) = pop_all-Delivers hs qs m in
                    rw (e, opening, fit, popped, IsSound)
                      (hs, fit, ground arith, Later-Delivers hs ps qs ps' k.later d, refl)
                | inr off ↦
                    let clock = k.clock v in
                    let progress =
                      policy_progress policy (read hs) small
                        (read-IsClock hs (peek_all (doomed log.dropped) ps).0 m clock) off in
                    let flags = stale policy (read hs) in
                    let qs = (peek_all (doomed log.dropped) ps).0 in
                    let next : Log = record log {
                      dropped = log.dropped ++ (drop_flagged flags qs).1;
                    } in
                    let less =
                      drop_flagged-lt flags hs qs (stale-Fits policy (read hs)) m progress in
                    rw (e, opening, off, progress, IsSound)
                      (Later-IsSound ps (drop_flagged flags qs).0 log next
                        (gather doomed policy fuel (drop_flagged flags qs).0 next)
                        (Later-trans ps qs (drop_flagged flags qs).0 k.later
                          (drop_flagged-Later flags qs))
                        refl
                        (gather-IsSound fuel (drop_flagged flags qs).0 next small
                          (drop_flagged-AllClock flags qs clock) (omega (arith, k.less, h, less))))
              ]
            ]
      ]
