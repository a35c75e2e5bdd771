-- ===== src/Topology/Peel.antt =====
-- The loop that peels nodes of in-degree 0, on functions in place of tables, and what it leaves.
use ai_pipe.Prelude.{
  ℕ, zero, suc, ◌+◌, ◌-◌, ◌≤◌, ◌<◌, ◌≡◌, inl, inr, refl, arith, true, false, ◌&&◌, ◌||◌, List, [],
  ◌∷◌, ◌++◌, eqb, nat_eq, if◌then◌else◌, Bool-cases, Option, none, some,
}
use ai_pipe.Prelude.Sets.{contains}
use ai_pipe.Prelude.Maps.{Distinct}
use ai_pipe.Topology.Counting.{occurrences}

-- The loop over the successors of a node: each loses one, and joins the queue when it has none left.
unfoldable pub lower_all : List ℕ → List ℕ → (ℕ → ℕ) → List ℕ × (ℕ → ℕ)
lower_all [] ready r = (ready, r)
lower_all (n ∷ ns) ready r =
    lower_all ns (if eqb (r n) 1 then ready ++ n ∷ [] else ready)
      (λ q. if eqb n q then r q - 1 else r q)

-- `order` has the nodes taken off the queue, the latest first.
unfoldable pub peel_by : ℕ → (ℕ → List ℕ) → List ℕ → List ℕ → (ℕ → ℕ) → Option (List ℕ)
peel_by zero succ order ready r = none
peel_by (suc fuel) succ order [] r = some order
peel_by (suc fuel) succ order (p ∷ ready) r =
    let (ready', r') = lower_all (succ p) ready r in peel_by fuel succ (p ∷ order) ready' r'

pub contains-end : (xs : List ℕ) (n q : ℕ) → contains (xs ++ n ∷ []) q ≡ (contains xs q || eqb n q)
unfolding contains
contains-end [] n q = ground arith
contains-end (x ∷ xs) n q = ground (arith, contains-end xs n q)

pub Distinct-end :
    (xs : List ℕ) (n : ℕ) → contains xs n ≡ false → Distinct xs → Distinct (xs ++ n ∷ [])
unfolding contains
Distinct-end [] n out v = (refl, tt)
Distinct-end (x ∷ xs) n out v =
    (ground (arith, contains-end xs n x, v.0), Distinct-end xs n (ground arith) v.1)

-- The nodes that are done or in the queue are those that have no count left, and none is there twice.
pub record Front (nodes order ready : List ℕ) (r : ℕ → ℕ) : Type 0 where
  pub order_distinct : Distinct order
  pub ready_distinct : Distinct ready
  pub apart : (q : ℕ) → contains order q ≡ true → contains ready q ≡ false
  pub inside : (q : ℕ) → (contains order q || contains ready q) ≡ true → contains nodes q ≡ true
  pub spent :
      (q : ℕ) → contains nodes q ≡ true → (contains order q || contains ready q) ≡ eqb (r q) 0

module _ (nodes order : List ℕ) where
  Front-one :
      (n : ℕ) (ready : List ℕ) (r : ℕ → ℕ)
      → 0 < r n
      → contains nodes n ≡ true
      → Front nodes order ready r
      → Front nodes order
          (if eqb (r n) 1 then ready ++ n ∷ [] else ready)
          (λ q. if eqb n q then r q - 1 else r q)
  Front-one n ready r pos here v = elim (Bool-cases (eqb (r n) 1)) [
    | inl last ↦ rw last (record {
      order_distinct = v.order_distinct;
      ready_distinct = Distinct-end ready n (ground (arith, v.spent n here)) v.ready_distinct;
      apart = λ q h. ground (arith, contains-end ready n q, v.apart q h, v.spent n here);
      inside = λ q h. ground (arith, contains-end ready n q, v.inside q, here);
      spent = λ q h. ground (arith, contains-end ready n q, v.spent q h);
    })
    | inr more ↦ rw more (record {
      order_distinct = v.order_distinct;
      ready_distinct = v.ready_distinct;
      apart = v.apart;
      inside = v.inside;
      spent = λ q h. ground (arith, v.spent q h);
    })
  ]

  pub lower_all-Front :
      (ns ready : List ℕ) (r : ℕ → ℕ)
      → ((q : ℕ) → occurrences q ns ≤ r q)
      → ((q : ℕ) → 0 < occurrences q ns → contains nodes q ≡ true)
      → Front nodes order ready r
      → Front nodes order (lower_all ns ready r).0 (lower_all ns ready r).1
        × ((q : ℕ) → (lower_all ns ready r).1 q + occurrences q ns ≡ r q)
  unfolding lower_all occurrences
  lower_all-Front [] ready r fits known v = (v, λ q. omega arith)
  lower_all-Front (n ∷ ns) ready r fits known v =
      let r' : ℕ → ℕ = λ q. if eqb n q then r q - 1 else r q in
      let (front, counts) =
        lower_all-Front ns (if eqb (r n) 1 then ready ++ n ∷ [] else ready) r'
          (λ q. ground (arith, fits q)) (λ q h. known q (ground arith))
          (Front-one n ready r (ground (arith, fits n)) (known n (ground arith)) v) in
      (front, λ q. ground (arith, counts q, fits q))

-- The nodes without edges into them, in their order.
unfoldable pub zeros : (ℕ → ℕ) → List ℕ → List ℕ
zeros r [] = []
zeros r (p ∷ ps) = if eqb (r p) 0 then p ∷ zeros r ps else zeros r ps

pub contains-zeros :
    (r : ℕ → ℕ) (ps : List ℕ) (q : ℕ) → contains (zeros r ps) q ≡ (contains ps q && eqb (r q) 0)
unfolding zeros contains
contains-zeros r [] q = refl
contains-zeros r (p ∷ ps) q = ground (arith, contains-zeros r ps q)

pub zeros-Distinct : (r : ℕ → ℕ) (ps : List ℕ) → Distinct ps → Distinct (zeros r ps)
unfolding zeros
zeros-Distinct r [] v = tt
zeros-Distinct r (p ∷ ps) v = elim (Bool-cases (eqb (r p) 0)) [
  | inl free ↦ rw free (ground (arith, contains-zeros r ps p, v.0), zeros-Distinct r ps v.1)
  | inr held ↦ rw held (zeros-Distinct r ps v.1)
]
