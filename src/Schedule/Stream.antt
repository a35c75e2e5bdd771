-- ===== src/Schedule/Stream.antt =====
-- `StreamSchedulerStrategy` of src/scheduler_strategies.hpp. `ratio_reached` is the comparison, in floating point, of
-- the readiness ratio with the configured one, for the numbers of ready and of expected inputs. Time since the
-- last execution is in nanoseconds, the interval and a delay in milliseconds; the reasons are left out.
mod Tests
use ai_pipe.Prelude.{
  ℕ, ◌+◌, ◌-◌, ◌*◌, ◌/◌, ◌≤◌, ◌<◌, ◌≡◌, ◌⊎◌, inl, inr, max, refl, arith, Bool, true, false, ◌&&◌,
  ltb, if◌then◌else◌, Bool-cases,
}
use ai_pipe.Schedule.{Situation, all_inputs_ready}

pub record StreamConfig : Type 0 where
  pub min_interval : ℕ
  pub allow_partial_inputs : Bool
  pub auto_reschedule : Bool

-- When the node ran last.
pub record Past : Type 0 where
  pub execution_count : ℕ
  pub elapsed : ℕ

pub data StreamResult : Type 0 where
  run_now wait_on_inputs : StreamResult
  defer : ℕ → StreamResult

abbrev pub has_ready_input : Situation → Bool
has_ready_input c = ltb 0 c.ready_input_count

abbrev pub nanoseconds : ℕ → ℕ
nanoseconds ms = ms * 1000000

module _ (ratio_reached : ℕ → ℕ → Bool) where
  pub has_ready_work : StreamConfig → Situation → Bool
  has_ready_work config c =
      if c.is_source_node && c.has_initial_input
      then true
      else if config.allow_partial_inputs
      then has_ready_input c && ratio_reached c.ready_input_count c.expected_input_count
      else all_inputs_ready c

  -- After the test of the rate.
  pub schedule_ready : StreamConfig → Situation → StreamResult
  schedule_ready config c =
      if c.is_source_node && c.has_initial_input
      then run_now
      else if config.allow_partial_inputs
      then (if ratio_reached c.ready_input_count c.expected_input_count && has_ready_input c
          then run_now
          else wait_on_inputs)
      else if all_inputs_ready c
      then run_now
      else wait_on_inputs

  abbrev pub rate_limited : StreamConfig → Past → Bool
  rate_limited config past =
      ltb 0 config.min_interval
      && (ltb 0 past.execution_count && ltb past.elapsed (nanoseconds config.min_interval))

  pub stream_should_schedule : StreamConfig → Situation → Past → StreamResult
  stream_should_schedule config c past =
      if ltb 0 config.min_interval && (ltb 0 past.execution_count && has_ready_work config c)
      then (if ltb past.elapsed (nanoseconds config.min_interval)
          then defer (max (config.min_interval - past.elapsed / 1000000) 1)
          else schedule_ready config c)
      else schedule_ready config c

  schedule_ready-ready :
      (config : StreamConfig) (c : Situation)
      → schedule_ready config c ≡ (if has_ready_work config c then run_now else wait_on_inputs)
  unfolding schedule_ready has_ready_work
  schedule_ready-ready config c = ground arith

  -- A node without ready work waits for inputs. A node with ready work is scheduled now, unless it ran
  -- before and the interval is not over: then it is deferred, by a delay of at least one millisecond and
  -- at most the interval, after which the interval is over.
  pub stream_decides :
      (config : StreamConfig) (c : Situation) (past : Past)
      → ((has_ready_work config c ≡ false)
          × (stream_should_schedule config c past ≡ wait_on_inputs))
        ⊎ (((has_ready_work config c ≡ true)
              × (rate_limited config past ≡ false)
              × (stream_should_schedule config c past ≡ run_now))
            ⊎ ((has_ready_work config c ≡ true)
                × (rate_limited config past ≡ true)
                × ((delay : ℕ) × (stream_should_schedule config c past ≡ defer delay)
                    × (1 ≤ delay)
                    × (delay ≤ config.min_interval)
                    × (nanoseconds config.min_interval ≤ past.elapsed + nanoseconds delay))))
  unfolding stream_should_schedule
  stream_decides config c past =
      let ready = schedule_ready-ready config c in
      elim (Bool-cases (has_ready_work config c)) [
        | inr idle ↦ inl (idle, ground (arith, ready, idle))
        | inl busy ↦ elim (Bool-cases (rate_limited config past)) [
          | inr free ↦ inr (inl (busy, free, ground (arith, ready, busy, free)))
          | inl limited ↦
              let early : past.elapsed < nanoseconds config.min_interval =
                ground (arith, limited) in
              inr (
                inr (
                  busy,
                  limited,
                  (
                    max (config.min_interval - past.elapsed / 1000000) 1,
                    ground (arith, busy, limited),
                    omega (arith, early),
                    omega (arith, early),
                    omega (arith, early),
                  ),
                ))
        ]
      ]

-- `onNodeComplete`
pub stream_on_node_complete : StreamConfig → Bool → Bool
stream_on_node_complete config success = success && config.auto_reschedule
