-- ===== src/Engine/Tasks/Progress.antt =====
-- The threads of the engine of src/execution_engine_impl.cpp are never stuck.
use ai_pipe.Prelude.{
  ℕ, zero, suc, ◌+◌, ◌-◌, ◌*◌, ◌≤◌, ◌<◌, ◌≡◌, refl, arith, false, some, List, [], ◌∷◌, get_elem?,
  set, length, ◌⊎◌, inl, inr,
}
use ai_pipe.Engine.Tasks.{
  completed, Node, succeeded, Event, count_task, post, begin, give_back, leave, propagate,
  end_hook_returns, state_after, begin_task, propagate_end, if_any, act, Engine, happen, happen_all,
  Reach,
}
use ai_pipe.Engine.Tasks.Places.{sum_over, sum_over-set, sum_over-ge, All-at}
use ai_pipe.Engine.Tasks.Owners.{Owned, holders_ready, holders_executing}
use ai_pipe.Engine.Tasks.Counts.{tasks, happen_all-Sound, history-Sound}

zero_or_more : (k : ℕ) → (k ≡ 0) ⊎ (0 < k)
zero_or_more zero = inl refl
zero_or_more (suc k) = inr (omega arith)

-- The most events that the threads at a node can take before they have all left.
abbrev pub work : Node → ℕ
work n =
    5 * n.claimed
    + 4 * n.counted
    + 3 * n.posted
    + 2 * n.running
    + n.leaving
    + 2 * n.closing
    + n.flushing

if_any-here : (k : ℕ) (after : Node × ℕ) → 0 < k → if_any k after ≡ some after
if_any-here k after here = ground (arith, here)

-- When a thread is at work, some thread can take an event that brings the node closer to rest.
abbrev Progress : Node → ℕ → Type 0
Progress n active =
    (x : Event) × (n' : Node) × (active' : ℕ) × (act x n active ≡ some (n', active'))
    × (work n' < work n)

begin_task-work : (n : Node) → 0 < n.posted → work (begin_task false n) < work n
unfolding begin_task
begin_task-work n here = ground (arith, here)

propagate_end-work : (n : Node) → 0 < n.closing → work (propagate_end n) < work n
unfolding propagate_end
propagate_end-work n here = ground (arith, here)

Progress-some : (n : Node) (active : ℕ) → 0 < work n → Progress n active
unfolding act state_after
Progress-some n active busy = elim (zero_or_more n.claimed) [
  | inr here ↦ (
    count_task,
    record n { claimed = n.claimed - 1; counted = suc n.counted },
    suc active,
    if_any-here n.claimed _ here,
    omega (arith, here),
  )
  | inl a ↦ elim (zero_or_more n.counted) [
    | inr here ↦ (
      post,
      record n { counted = n.counted - 1; posted = suc n.posted },
      active,
      if_any-here n.counted _ here,
      omega (arith, here),
    )
    | inl b ↦ elim (zero_or_more n.posted) [
      | inr here ↦ (
        begin false,
        begin_task false n,
        active,
        if_any-here n.posted _ here,
        begin_task-work n here,
      )
      | inl c ↦ elim (zero_or_more n.running) [
        | inr here ↦ (
          give_back (succeeded false),
          record n { exec_state = completed; running = n.running - 1; leaving = suc n.leaving },
          active,
          if_any-here n.running _ here,
          omega (arith, here),
        )
        | inl d ↦ elim (zero_or_more n.closing) [
          | inr here ↦ (
            propagate,
            propagate_end n,
            active,
            if_any-here n.closing _ here,
            propagate_end-work n here,
          )
          | inl f ↦ elim (zero_or_more n.flushing) [
            | inr here ↦ (
              end_hook_returns,
              record n {
                exec_state = completed;
                flushing = n.flushing - 1;
                flushes = suc n.flushes;
              },
              active,
              if_any-here n.flushing _ here,
              omega (arith, here),
            )
            | inl g ↦
                let here : 0 < n.leaving = omega (arith, busy, a, b, c, d, f, g) in
                (
                  leave,
                  record n { leaving = n.leaving - 1 },
                  active - 1,
                  if_any-here n.leaving _ here,
                  omega (arith, here),
                )
          ]
        ]
      ]
    ]
  ]
]

sum-positive :
    (f : Node → ℕ) (ns : List Node)
    → 0 < sum_over f ns
    → (i : ℕ) × (n : Node) × (get_elem? ns i ≡ some n) × (0 < f n)
unfolding sum_over
sum-positive f [] h = absurd (omega (arith, h))
sum-positive f (m ∷ ns) h = elim (zero_or_more (f m)) [
  | inr here ↦ (0, m, refl, here)
  | inl nothing ↦
      let (i, n, there, pos) = sum-positive f ns (omega (arith, h, nothing)) in
      (suc i, n, there, pos)
]

happen-act :
    (e : Engine) (i : ℕ) (x : Event) (n n' : Node) (active' : ℕ)
    → get_elem? e.nodes i ≡ some n
    → act x n e.active_tasks ≡ some (n', active')
    → happen e (i, x) ≡ some (record { nodes = set e.nodes i n'; active_tasks = active' })
unfolding happen
happen-act e i x n n' active' there done = rw (there, done, happen) refl

rest-reached :
    (fuel : ℕ) (e : Engine)
    → sum_over work e.nodes ≤ fuel
    → (xs : List (ℕ × Event)) × (e' : Engine) × (happen_all e xs ≡ some e')
      × (length xs ≤ fuel)
      × (sum_over work e'.nodes ≡ 0)
unfolding happen_all
rest-reached zero e bound = ([], e, refl, omega arith, omega (arith, bound))
rest-reached (suc fuel) e bound = elim (zero_or_more (sum_over work e.nodes)) [
  | inl done ↦ ([], e, refl, omega arith, done)
  | inr busy ↦
      let (i, n, there, pos) = sum-positive work e.nodes busy in
      let (x, n', active', acts, less) = Progress-some n e.active_tasks pos in
      let next : Engine = record { nodes = set e.nodes i n'; active_tasks = active' } in
      let (xs, e', ran, short, rest) =
        rest-reached fuel next
          (omega (arith, bound, less, sum_over-set work e.nodes i n n' there)) in
      (
        (i, x) ∷ xs,
        e',
        rw (happen-act e i x n n' active' there acts, happen_all) ran,
        omega (arith, short),
        rest,
      )
]

tasks-work : (ns : List Node) → sum_over tasks ns ≤ sum_over work ns
unfolding sum_over
tasks-work [] = omega arith
tasks-work (n ∷ ns) = omega (arith, tasks-work ns)

-- After every history of an engine that starts idle, in which each reset of the states finds no thread at work, a
-- further history without a reset brings it to rest, with no more events
-- than the sum of `work` over the nodes, a number of events for each thread at its place: then the
-- count of active tasks is 0 and no node is READY or EXECUTING.
pub rest_reachable :
    (k : ℕ) (e : Engine)
    → Reach k e
    → (ys : List (ℕ × Event)) × (e' : Engine) × (happen_all e ys ≡ some e')
      × (length ys ≤ sum_over work e.nodes)
      × (e'.active_tasks ≡ 0)
      × ((i : ℕ) (n : Node)
          → get_elem? e'.nodes i ≡ some n
          → (holders_ready n.exec_state ≡ 0) × (holders_executing n.exec_state ≡ 0))
rest_reachable k e h =
    let (ys, e', ran, short, rest) = rest-reached (sum_over work e.nodes) e (omega arith) in
    let v = happen_all-Sound e e' ys ran (history-Sound k e h) in
    (
      ys,
      e',
      ran,
      short,
      omega (arith, v.counts, tasks-work e'.nodes, rest),
      λ i n there.
          let o = All-at Owned e'.nodes i n v.owned there in
          let idle = sum_over-ge work e'.nodes i n there in
          (omega (arith, o.as_ready, idle, rest), omega (arith, o.as_executing, idle, rest)),
    )
