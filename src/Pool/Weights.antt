-- ===== src/Pool/Weights.antt =====
-- Sums over the tasks that stand at the places of the pool of src/work_stealing_thread_pool.hpp: for a
-- weight of 1 their number, and for a weight of 1 at one task how often it stands there.
use ai_pipe.Prelude.{
  ℕ, zero, suc, ◌+◌, ◌≤◌, ◌≡◌, refl, ap, arith, Option, none, some, List, [], ◌∷◌, ◌++◌, length,
  get_elem?, set, eqb, if◌then◌else◌,
}
use ai_pipe.Pool.Deque.{pop_front, steal_back, pull_back}
use ai_pipe.Pool.{Pool, put_back, pick_out, empty_queues}

abbrev pub one : ℕ → ℕ
one task = 1

abbrev pub is_task : ℕ → ℕ → ℕ
is_task t task = if eqb task t then 1 else 0

unfoldable pub weigh : (ℕ → ℕ) → List ℕ → ℕ
weigh w [] = 0
weigh w (x ∷ xs) = w x + weigh w xs

unfoldable pub weigh_queues : (ℕ → ℕ) → List (List ℕ) → ℕ
weigh_queues w [] = 0
weigh_queues w (q ∷ qs) = weigh w q + weigh_queues w qs

pub weigh-one : (xs : List ℕ) → weigh one xs ≡ length xs
unfolding weigh
weigh-one [] = refl
weigh-one (x ∷ xs) = omega (arith, weigh-one xs)

pub weigh-le : (t : ℕ) (xs : List ℕ) → weigh (is_task t) xs ≤ weigh one xs
unfolding weigh
weigh-le t [] = omega arith
weigh-le t (x ∷ xs) = ground (arith, weigh-le t xs)

pub weigh_queues-le :
    (t : ℕ) (qs : List (List ℕ)) → weigh_queues (is_task t) qs ≤ weigh_queues one qs
unfolding weigh_queues
weigh_queues-le t [] = omega arith
weigh_queues-le t (q ∷ qs) = omega (arith, weigh-le t q, weigh_queues-le t qs)

pub weigh-append : (w : ℕ → ℕ) (xs ys : List ℕ) → weigh w (xs ++ ys) ≡ weigh w xs + weigh w ys
unfolding weigh
weigh-append w [] ys = omega arith
weigh-append w (x ∷ xs) ys = omega (arith, weigh-append w xs ys)

put_back-some :
    (y : ℕ) (o : Option (ℕ × List ℕ)) (x : ℕ) (rest : List ℕ)
    → put_back y o ≡ some (x, rest)
    → (zs : List ℕ) × (o ≡ some (x, zs)) × (y ∷ zs ≡ rest)
unfolding put_back
put_back-some y none x rest h = cc
put_back-some y (some (z, zs)) x rest h = (zs, cc, cc)

pub weigh-pick_out :
    (w : ℕ → ℕ) (k : ℕ) (xs : List ℕ) (x : ℕ) (rest : List ℕ)
    → pick_out k xs ≡ some (x, rest)
    → weigh w xs ≡ w x + weigh w rest
unfolding weigh pick_out
weigh-pick_out w k [] x rest h = cc
weigh-pick_out w zero (y ∷ ys) x rest h =
    let same : y ≡ x = cc in
    let same_rest : ys ≡ rest = cc in omega (arith, ap w same, ap (weigh w) same_rest)
weigh-pick_out w (suc k) (y ∷ ys) x rest h =
    let (zs, out, same_rest) = put_back-some y (pick_out k ys) x rest h in
    omega (arith, ap (weigh w) same_rest, weigh-pick_out w k ys x zs out)

weigh-pull_back :
    (w : ℕ → ℕ) (x : ℕ) (xs : List ℕ)
    → weigh w (x ∷ xs) ≡ w (pull_back x xs).0 + weigh w (pull_back x xs).1
unfolding weigh pull_back
weigh-pull_back w x [] = refl
weigh-pull_back w x (y ∷ ys) = omega (arith, weigh-pull_back w y ys)

pub weigh-steal_back :
    (w : ℕ → ℕ) (queue : List ℕ) (x : ℕ) (rest : List ℕ)
    → steal_back queue ≡ some (x, rest)
    → weigh w queue ≡ w x + weigh w rest
unfolding steal_back
weigh-steal_back w [] x rest h = cc
weigh-steal_back w (y ∷ ys) x rest h =
    let same : (pull_back y ys).0 ≡ x = cc in
    let same_rest : (pull_back y ys).1 ≡ rest = cc in
    omega (arith, ap w same, ap (weigh w) same_rest, weigh-pull_back w y ys)

pub weigh-pop_front :
    (w : ℕ → ℕ) (queue : List ℕ) (x : ℕ) (rest : List ℕ)
    → pop_front queue ≡ some (x, rest)
    → weigh w queue ≡ w x + weigh w rest
unfolding pop_front weigh
weigh-pop_front w [] x rest h = cc
weigh-pop_front w (y ∷ ys) x rest h =
    let same : y ≡ x = cc in
    let same_rest : ys ≡ rest = cc in omega (arith, ap w same, ap (weigh w) same_rest)

pub weigh_queues-set :
    (w : ℕ → ℕ) (queues : List (List ℕ)) (i : ℕ) (old new : List ℕ)
    → get_elem? queues i ≡ some old
    → weigh_queues w (set queues i new) + weigh w old ≡ weigh_queues w queues + weigh w new
unfolding weigh_queues
weigh_queues-set w [] i old new h = cc
weigh_queues-set w (q ∷ qs) zero old new h =
    let same : weigh w q ≡ weigh w old = ap (weigh w) cc in omega (arith, same)
weigh_queues-set w (q ∷ qs) (suc i) old new h = omega (arith, weigh_queues-set w qs i old new h)

pub weigh_queues-empty_queues : (w : ℕ → ℕ) (n : ℕ) → weigh_queues w (empty_queues n) ≡ 0
unfolding weigh_queues empty_queues weigh
weigh_queues-empty_queues w zero = refl
weigh_queues-empty_queues w (suc n) = omega (arith, weigh_queues-empty_queues w n)

-- The tasks that wait in a queue, that a worker carries, and that are anywhere.
abbrev pub queued : (ℕ → ℕ) → Pool → ℕ
queued w p = weigh_queues w p.queues

abbrev pub carried : (ℕ → ℕ) → Pool → ℕ
carried w p = weigh w p.taken + weigh w p.executing + weigh w p.finished + weigh w p.retiring

abbrev pub everywhere : (ℕ → ℕ) → Pool → ℕ
everywhere w p =
    weigh w p.admitted + queued w p + carried w p + weigh w p.done + weigh w p.discarded
