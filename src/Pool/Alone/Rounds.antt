-- ===== src/Pool/Alone/Rounds.antt =====
-- What the searches of src/work_stealing_thread_pool.hpp find when they run alone: they visit every queue once.
use ai_pipe.Prelude.{
  ℕ, zero, suc, ◌+◌, ◌-◌, ◌%◌, ◌≤◌, ◌<◌, ◌≡◌, ◌≢◌, ◌⊎◌, refl, sym, ap, subst, ◌∙◌, arith, Bool,
  true, false, none, some, List, [], ◌∷◌, ◌++◌, length, get_or, ltb, leb, inl, inr, Bool-cases,
  Option-cases,
}
use native.Mathlib.Nat.{mod-add-mod, mod-eq_of_lt, mod-lt, add-mod_right}
use ai_pipe.Pool.Deque.{steal_back, steal_back_lem}
use ai_pipe.Pool.Alone.{size_at, find_room, stolen_or, steal_from, try_steal, wait_for_room, room}

-- The distance from `start` to `j`, going round `n` places.
pub rounds_to : (n start j : ℕ) → j < n → (i : ℕ) × (i < n) × ((start + i) % n ≡ j)
rounds_to n start j lt = elim (Bool-cases (leb (start % n) j)) [
  | inl le ↦
      let e : start % n + (j - start % n) ≡ j = ground arith in
      (
        j - start % n,
        grind arith,
        sym (mod-add-mod start n (j - start % n)) ∙ rw e (mod-eq_of_lt lt),
      )
  | inr gt ↦
      let e : start % n + (j + n - start % n) ≡ j + n = grind arith in
      (
        j + n - start % n,
        grind arith,
        sym (mod-add-mod start n (j + n - start % n)) ∙ rw e (add-mod_right j n ∙ mod-eq_of_lt lt),
      )
]

pub find_room-some :
    (limit target rounds i : ℕ) (queues : List (List ℕ)) (found : ℕ)
    → i + rounds ≡ length queues
    → 0 < rounds
    → find_room limit target rounds i queues ≡ some found
    → (size_at queues found < limit) × (found < length queues)
unfolding find_room
find_room-some limit target zero i queues found all some_left h = absurd (omega arith)
find_room-some limit target (suc rounds) i queues found all some_left h = ground (
  arith,
  find_room-some limit target rounds (suc i) queues found,
  mod-lt (target + i) {m = length queues},
)

pub find_room-none :
    (limit target rounds i : ℕ) (queues : List (List ℕ)) (j : ℕ)
    → i + rounds ≡ length queues
    → i ≤ j
    → j < length queues
    → find_room limit target rounds i queues ≡ none
    → limit ≤ size_at queues ((target + j) % length queues)
unfolding find_room
find_room-none limit target zero i queues j all ge lt h = absurd (omega arith)
find_room-none limit target (suc rounds) i queues j all ge lt h =
    ground (arith, find_room-none limit target rounds (suc i) queues j)

steal_from-none :
    (worker start rounds i : ℕ) (queues : List (List ℕ)) (j : ℕ)
    → i + rounds ≡ length queues
    → i ≤ j
    → j < length queues
    → (start + j) % length queues ≢ worker
    → steal_from worker start rounds i queues ≡ none
    → get_or queues ((start + j) % length queues) [] ≡ []
unfolding steal_from stolen_or steal_back
steal_from-none worker start zero i queues j all ge lt other h = absurd (omega arith)
steal_from-none worker start (suc rounds) i queues j all ge lt other h =
    ground (arith, steal_from-none worker start rounds (suc i) queues j)

steal_from-some :
    (worker start rounds i : ℕ) (queues : List (List ℕ)) (victim task : ℕ) (rest : List ℕ)
    → 0 < length queues
    → steal_from worker start rounds i queues ≡ some (victim, task, rest)
    → (victim ≢ worker)
      × (victim < length queues)
      × (steal_back (get_or queues victim []) ≡ some (task, rest))
unfolding steal_from stolen_or
steal_from-some worker start zero i queues victim task rest any h = cc
steal_from-some worker start (suc rounds) i queues victim task rest any h = ground (
  arith,
  steal_from-some worker start rounds (suc i) queues victim task rest,
  mod-lt (start + i) {m = length queues},
)

-- A worker that tries to steal, with other workers there and the queues left alone meanwhile, takes the
-- last task of a queue that is not its own and leaves the others of it in their order; it finds none only if every other queue is empty, wherever it
-- starts.
pub try_steal_lem :
    (worker start : ℕ) (queues : List (List ℕ))
    → 1 < length queues
    → ((victim task : ℕ) × (rest : List ℕ) × (try_steal worker start queues
          ≡ some (victim, task, rest))
        × (victim ≢ worker)
        × (victim < length queues)
        × (get_or queues victim [] ≡ rest ++ task ∷ []))
      ⊎ ((try_steal worker start queues ≡ none)
          × ((j : ℕ) → j < length queues → j ≢ worker → get_or queues j [] ≡ []))
unfolding try_steal
try_steal_lem worker start queues many =
    elim (Option-cases (steal_from worker start (length queues) 0 queues)) [
      | inl nothing ↦ inr (
        ground arith,
        λ j lt other.
            let (i, below, at) = rounds_to (length queues) start j lt in
            subst (λ k. get_or queues k [] ≡ []) at
              (steal_from-none worker start (length queues) 0 queues i (omega arith) (omega arith)
                below (λ e. other (sym at ∙ e)) nothing),
      )
      | inr ((victim, task, rest), found) ↦
          let (other, below, last) =
            steal_from-some worker start (length queues) 0 queues victim task rest (omega arith)
              found in
          inl (
            victim,
            task,
            rest,
            ground arith,
            other,
            below,
            steal_back_lem (get_or queues victim []) task rest last,
          )
    ]

-- Rounds in which the pool runs and the time is not up.
abbrev pub steady : ℕ → List (Bool × Bool)
steady zero = []
steady (suc n) = (true, false) ∷ steady n

in_place :
    (limit d target : ℕ) (queues : List (List ℕ))
    → target < length queues
    → d ≡ 0
    → size_at queues ((target + d) % length queues) < limit
    → size_at queues target < limit
in_place limit d target queues lt here free =
    let e : (target + d) % length queues ≡ target =
      ap (λ k. k % length queues) (omega (arith, here)) ∙ mod-eq_of_lt lt in
    subst (λ k. size_at queues k < limit) e free

next_round :
    (limit d target : ℕ) (queues : List (List ℕ))
    → size_at queues ((target + suc d) % length queues) < limit
    → size_at queues (((target + 1) % length queues + d) % length queues) < limit
next_round limit d target queues free =
    let e : (target + suc d) % length queues ≡ ((target + 1) % length queues + d) % length queues =
      ap (λ k. k % length queues) (omega arith)
      ∙ sym (mod-add-mod (target + 1) (length queues) d) in
    subst (λ k. size_at queues k < limit) e free

-- The loop of `enqueueTask`, while the pool runs and the queues are left alone, finds a queue with room within as
-- many rounds as a queue with room is places away from the first target, if the time is not up before.
pub wait_for_room_lem :
    (limit rounds d target : ℕ) (queues : List (List ℕ))
    → target < length queues
    → d ≤ rounds
    → size_at queues ((target + d) % length queues) < limit
    → (found : ℕ) × (wait_for_room limit (steady rounds) target queues ≡ room found)
      × (found < length queues)
      × (size_at queues found < limit)
unfolding wait_for_room
wait_for_room_lem limit zero d target queues lt le free =
    let here = in_place limit d target queues lt (omega arith) free in
    (target, ground arith, lt, here)
wait_for_room_lem limit (suc rounds) zero target queues lt le free =
    let here = in_place limit 0 target queues lt refl free in (target, ground arith, lt, here)
wait_for_room_lem limit (suc rounds) (suc d) target queues lt le free =
    let next : (target + 1) % length queues < length queues = mod-lt (target + 1) (omega arith) in
    let (found, e, below, has) =
      wait_for_room_lem limit rounds d ((target + 1) % length queues) queues next (omega arith)
        (next_round limit d target queues free) in
    elim (Bool-cases (leb limit (size_at queues target))) [
      | inr free_here ↦ (target, ground arith, lt, ground arith)
      | inl full ↦ elim (Bool-cases (ltb (size_at queues ((target + 1) % length queues)) limit)) [
        | inl room_next ↦ ((target + 1) % length queues, ground arith, next, ground arith)
        | inr full_next ↦ (found, ground arith, below, has)
      ]
    ]
