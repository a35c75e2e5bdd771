-- ===== src/Graph/Steps.antt =====
-- What one more edge, or one more node, does to a degree and to an adjacency list.
use ai_pipe.Prelude.{
  ℕ, ◌+◌, ◌≡◌, refl, sym, ap, ◌∙◌, arith, Bool, true, false, Option, some, List, [], ◌∷◌, ◌++◌, map,
  eqb, length, length-append, string_eq, nat_eq, if◌then◌else◌, Bool-cases, inl, inr,
}
use mathlib.Core.List.{map-append, append-nil}
use ai_pipe.Prelude.Maps.{lookup, assign, lookup-assign}
use ai_pipe.Graph.{Edge, at_or, listed, counted, edges_to, edges_from}

pub edges_to-append :
    (p : ℕ) (es : List Edge) (e : Edge)
    → edges_to p (es ++ e ∷ []) ≡ edges_to p es ++ (if eqb e.dest p then e ∷ [] else [])
unfolding edges_to
edges_to-append p [] e = ground arith
edges_to-append p (f ∷ es) e = ground (arith, edges_to-append p es e)

pub edges_from-append :
    (p : ℕ) (es : List Edge) (e : Edge)
    → edges_from p (es ++ e ∷ []) ≡ edges_from p es ++ (if eqb e.source p then e ∷ [] else [])
unfolding edges_from
edges_from-append p [] e = ground arith
edges_from-append p (f ∷ es) e = ground (arith, edges_from-append p es e)

at_or_if {ℓ} :
    {B : Type ℓ} (d : B) (b : Bool) (v : B) (o : Option B)
    → at_or d (if b then some v else o) ≡ (if b then v else at_or d o)
at_or_if d true v o = refl
at_or_if d false v o = refl

pub at_or-assign {ℓ} :
    {B : Type ℓ} (d : B) (k p : ℕ) (v : B) (m : List (ℕ × B))
    → at_or d (lookup p (assign k v m)) ≡ (if eqb k p then v else at_or d (lookup p m))
at_or-assign d k p v m = ap (at_or d) (lookup-assign k p v m) ∙ at_or_if d (eqb k p) v (lookup p m)

pub eqb→eq : (a b : ℕ) → eqb a b ≡ true → a ≡ b
eqb→eq a b h = ground arith

-- One more edge into `e.dest`.
pub degree_step :
    (p : ℕ) (e : Edge) (es : List Edge) (m : List (ℕ × ℕ))
    → ((q : ℕ) → counted q m ≡ length (edges_to q es))
    → counted p (assign e.dest (counted e.dest m + 1) m) ≡ length (edges_to p (es ++ e ∷ []))
degree_step p e es m h = at_or-assign 0 e.dest p _ m ∙ elim (Bool-cases (eqb e.dest p)) [
  | inl hit ↦
      rw (hit, edges_to-append p es e, hit)
        (omega (
          arith,
          h p,
          ap (λ q. counted q m) (eqb→eq e.dest p hit),
          length-append (edges_to p es) (e ∷ []),
        ))
  | inr miss ↦ rw (miss, edges_to-append p es e, miss, append-nil) (h p)
]

pub out_step :
    (p : ℕ) (e : Edge) (es : List Edge) (m : List (ℕ × List ℕ))
    → ((q : ℕ) → listed q m ≡ map (λ f. f.dest) (edges_from q es))
    → listed p (assign e.source (listed e.source m ++ e.dest ∷ []) m)
      ≡ map (λ f. f.dest) (edges_from p (es ++ e ∷ []))
out_step p e es m h = at_or-assign [] e.source p _ m ∙ elim (Bool-cases (eqb e.source p)) [
  | inl hit ↦
      rw (hit, edges_from-append p es e, hit)
        (ap (λ q. listed q m ++ e.dest ∷ []) (eqb→eq e.source p hit)
          ∙ ap (λ l. l ++ e.dest ∷ []) (h p)
          ∙ sym (map-append (λ f. f.dest) (edges_from p es) (e ∷ [])))
  | inr miss ↦ rw (miss, edges_from-append p es e, miss, append-nil) (h p)
]

pub into_step :
    (p : ℕ) (e : Edge) (es : List Edge) (m : List (ℕ × List ℕ))
    → ((q : ℕ) → listed q m ≡ map (λ f. f.source) (edges_to q es))
    → listed p (assign e.dest (listed e.dest m ++ e.source ∷ []) m)
      ≡ map (λ f. f.source) (edges_to p (es ++ e ∷ []))
into_step p e es m h = at_or-assign [] e.dest p _ m ∙ elim (Bool-cases (eqb e.dest p)) [
  | inl hit ↦
      rw (hit, edges_to-append p es e, hit)
        (ap (λ q. listed q m ++ e.source ∷ []) (eqb→eq e.dest p hit)
          ∙ ap (λ l. l ++ e.source ∷ []) (h p)
          ∙ sym (map-append (λ f. f.source) (edges_to p es) (e ∷ [])))
  | inr miss ↦ rw (miss, edges_to-append p es e, miss, append-nil) (h p)
]

-- A new node starts without edges, as far as a table is concerned that is right elsewhere.
pub fresh_entry {ℓ} :
    {B : Type ℓ} (d : B) (right : ℕ → B) (p q : ℕ) (m : List (ℕ × B))
    → right p ≡ d
    → at_or d (lookup q m) ≡ right q
    → at_or d (lookup q (assign p d m)) ≡ right q
fresh_entry d right p q m empty h = at_or-assign d p q d m ∙ elim (Bool-cases (eqb p q)) [
  | inl hit ↦ rw hit (sym empty ∙ ap right (eqb→eq p q hit))
  | inr miss ↦ rw miss h
]
