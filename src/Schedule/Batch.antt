-- ===== src/Schedule/Batch.antt =====
-- What the batch scheduler decides.
use ai_pipe.Prelude.{
  ℕ, ◌≤◌, ◌<◌, ◌≡◌, ◌↔◌, ◌⊎◌, refl, arith, true, false, List, [], ◌∷◌, eqb, ltb, ◌&&◌, Bool-cases,
  inl, inr,
}
use ai_pipe.Schedule.{
  Situation, schedule_now, wait_for_inputs, should_schedule, Sink, first_idle, check_completion,
  is_complete,
}

abbrev pub AllRan : List Sink → Type 0
AllRan [] = Unit {0}
AllRan (s ∷ sinks) = (0 < s.executions) × AllRan sinks

positive_ne : (n : ℕ) → 0 < n → eqb n 0 ≡ true → ⊥
positive_ne n h e = ground arith

ne_positive : (n : ℕ) → eqb n 0 ≡ false → 0 < n
ne_positive n e = ground arith

busy_ne : (n : ℕ) → n ≡ 0 → ltb 0 n ≡ true → ⊥
busy_ne n h e = ground arith

calm_zero : (n : ℕ) → ltb 0 n ≡ false → n ≡ 0
calm_zero n e = ground arith

first_idle_lem : (sinks : List Sink) → (is_complete (first_idle sinks) ≡ true) ↔ AllRan sinks
unfolding first_idle
first_idle_lem [] = (λ _. tt, λ _. refl)
first_idle_lem (s ∷ sinks) =
    let ih = first_idle_lem sinks in
    elim (Bool-cases (eqb s.executions 0)) [
      | inl idle ↦ rw idle (λ e. absurd (cc), λ v. absurd (positive_ne s.executions v.0 idle))
      | inr ran ↦ rw ran (λ e. (ne_positive s.executions ran, ih.0 e), λ v. ih.1 v.1)
    ]

-- A batch is complete exactly when no task is active and every sink has executed at least once.
pub check_completion_lem :
    (active_node_count : ℕ) (sinks : List Sink)
    → (is_complete (check_completion active_node_count sinks) ≡ true)
      ↔ ((active_node_count ≡ 0) × AllRan sinks)
unfolding check_completion
check_completion_lem n sinks =
    let sinks_ran = first_idle_lem sinks in
    elim (Bool-cases (ltb 0 n)) [
      | inl busy ↦ rw busy (λ e. absurd (cc), λ v. absurd (busy_ne n v.0 busy))
      | inr calm ↦ rw calm (λ e. (calm_zero n calm, sinks_ran.0 e), λ v. sinks_ran.1 v.1)
    ]

-- A node is scheduled at once exactly when it is a source with initial input, or no declared input is
-- missing; otherwise it waits.
pub should_schedule_lem :
    (c : Situation)
    → ((should_schedule c ≡ schedule_now)
        × (((c.is_source_node ≡ true) × (c.has_initial_input ≡ true))
            ⊎ (c.expected_input_count ≤ c.ready_input_count)))
      ⊎ ((should_schedule c ≡ wait_for_inputs)
          × ((c.is_source_node && c.has_initial_input) ≡ false)
          × (c.ready_input_count < c.expected_input_count))
unfolding should_schedule
should_schedule_lem c = ground arith
