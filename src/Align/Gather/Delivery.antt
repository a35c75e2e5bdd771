-- ===== src/Align/Gather/Delivery.antt =====
-- What a run of `gatherAligned` of src/frame_alignment.hpp leaves of the queues, and what it delivers of them.
use ai_pipe.Prelude.{
  ◌≡◌, refl, sym, ap, ◌∙◌, arith, Bool, true, false, Option, some, none, List, [], ◌∷◌, ◌++◌, inl,
  inr, List-cases,
}
use mathlib.Core.List.{append_assoc}
use ai_pipe.Align.{Packet}
use ai_pipe.Align.Gather.{Port, Seen, drained, pop_all, drop_flagged}
use ai_pipe.Align.Gather.Flags.{Matches}

-- The ports later: packets have left the fronts of the queues.
abbrev pub Later : List Port → List Port → Type 0
Later [] [] = Unit {0}
Later [] (q ∷ qs) = ⊥
Later (p ∷ ps) [] = ⊥
Later (p ∷ ps) (q ∷ qs) =
    (p.ended ≡ q.ended)
    × ((gone : List (Option Packet)) × (p.queue ≡ gone ++ q.queue))
    × Later ps qs

pub Later-refl : (ps : List Port) → Later ps ps
Later-refl [] = tt
Later-refl (p ∷ ps) = (refl, ([], refl), Later-refl ps)

pub Later-trans : (ps qs rs : List Port) → Later ps qs → Later qs rs → Later ps rs
Later-trans [] [] [] h k = tt
Later-trans [] [] (r ∷ rs) h k = absurd k
Later-trans [] (q ∷ qs) rs h k = absurd h
Later-trans (p ∷ ps) [] rs h k = absurd h
Later-trans (p ∷ ps) (q ∷ qs) [] h k = absurd k
Later-trans (p ∷ ps) (q ∷ qs) (r ∷ rs) (same, (gone, e), later) (same', (gone', e'), later') = (
  same ∙ same',
  (gone ++ gone', e ∙ ap (λ t. gone ++ t) e' ∙ sym (append_assoc gone gone' r.queue)),
  Later-trans ps qs rs later later',
)

pub drop_flagged-Later : (fs : List Bool) (ps : List Port) → Later ps (drop_flagged fs ps).0
unfolding drop_flagged
drop_flagged-Later [] ps = Later-refl ps
drop_flagged-Later (f ∷ fs) [] = tt
drop_flagged-Later (false ∷ fs) (p ∷ ps) = (refl, ([], refl), drop_flagged-Later fs ps)
drop_flagged-Later (true ∷ fs) (p ∷ ps) = elim (List-cases p.queue) [
  | inl e ↦ rw e (refl, ([], refl), drop_flagged-Later fs ps)
  | inr (h, rest, e) ↦ rw e (refl, (h ∷ [], refl), drop_flagged-Later fs ps)
]

-- The heads that the ports `ps` deliver when `qs` is left of them: of an open port a packet in its queue, after
-- some that were discarded and before those that are left; of a closed port none, for it is at its end.
abbrev pub Delivers : Seen → List Port → List Port → Type 0
Delivers [] [] [] = Unit {0}
Delivers (none ∷ hs) (p ∷ ps) (q ∷ qs) = ((p.ended ≡ true) × (q.queue ≡ [])) × Delivers hs ps qs
Delivers (some h ∷ hs) (p ∷ ps) (q ∷ qs) =
    ((gone : List (Option Packet)) × (p.queue ≡ gone ++ h ∷ q.queue)) × Delivers hs ps qs
Delivers _ _ _ = ⊥

-- The heads of the open ports.
pub opened : Seen → List (Option Packet)
opened [] = []
opened (none ∷ hs) = opened hs
opened (some h ∷ hs) = h ∷ opened hs

pub Later-Delivers :
    (hs : Seen) (ps qs rs : List Port) → Later ps qs → Delivers hs qs rs → Delivers hs ps rs
Later-Delivers [] [] [] rs h d = d
Later-Delivers (none ∷ hs) [] [] rs h d = d
Later-Delivers (some x ∷ hs) [] [] rs h d = d
Later-Delivers hs [] (q ∷ qs) rs h d = absurd h
Later-Delivers hs (p ∷ ps) [] rs h d = absurd h
Later-Delivers [] (p ∷ ps) (q ∷ qs) rs h d = absurd d
Later-Delivers (none ∷ hs) (p ∷ ps) (q ∷ qs) [] h d = absurd d
Later-Delivers (some x ∷ hs) (p ∷ ps) (q ∷ qs) [] h d = absurd d
Later-Delivers (none ∷ hs) (p ∷ ps) (q ∷ qs) (r ∷ rs) (same, _, later) ((ended, nothing), d) =
    ((same ∙ ended, nothing), Later-Delivers hs ps qs rs later d)
Later-Delivers (some x ∷ hs) (p ∷ ps) (q ∷ qs) (r ∷ rs) (same, (gone, e), later) ((gone', e'), d) =
    (
      (gone ++ gone', e ∙ ap (λ t. gone ++ t) e' ∙ sym (append_assoc gone gone' (x ∷ r.queue))),
      Later-Delivers hs ps qs rs later d,
    )

drained-at_end : (p : Port) → drained p ≡ true → (p.ended ≡ true) × (p.queue ≡ [])
drained-at_end p h = elim (List-cases p.queue) [
  | inl nothing ↦ (ground (arith, h, nothing), nothing)
  | inr (x, rest, e) ↦ absurd (ground (arith, h, e))
]

-- A pop of heads that are there takes them and no other packet.
pub pop_all-Delivers :
    (hs : Seen) (ps : List Port)
    → Matches hs ps
    → (ps' : List Port) × (pop_all hs ps ≡ some (ps', opened hs)) × Delivers hs ps ps'
unfolding pop_all opened
pop_all-Delivers [] [] m = ([], refl, tt)
pop_all-Delivers [] (p ∷ ps) m = absurd m
pop_all-Delivers (h ∷ hs) [] m = absurd m
pop_all-Delivers (none ∷ hs) (p ∷ ps) m =
    let (ps', e, d) = pop_all-Delivers hs ps m.1 in (p ∷ ps', rw e refl, (drained-at_end p m.0, d))
pop_all-Delivers (some h ∷ hs) (p ∷ ps) m =
    let (ps', e, d) = pop_all-Delivers hs ps m.1 in
    let (rest, q) = m.0 in (record p { queue = rest } ∷ ps', ground (arith, e, q), (([], q), d))
