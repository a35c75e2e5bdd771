-- ===== src/Schedule/Stream/Tests.antt =====
-- The stream scheduler at a concrete input: a node that ran 30 of 100 milliseconds ago.
use ai_pipe.Prelude.{ℕ, ◌+◌, ◌≤◌, ◌≡◌, ◌⊎◌, Bool, true, false, refl, leb}
use ai_pipe.Schedule.{Situation}
use ai_pipe.Schedule.Stream.{
  StreamConfig, Past, has_ready_work, rate_limited, stream_should_schedule, wait_on_inputs, run_now,
  defer, nanoseconds, stream_decides,
}

abbrev half : ℕ → ℕ → Bool
half ready expected = leb expected (ready + ready)

abbrev slow : StreamConfig
slow = record { min_interval = 100; allow_partial_inputs = true; auto_reschedule = true }

abbrev one_of_two : Situation
one_of_two = record {
  expected_input_count = 2;
  ready_input_count = 1;
  is_source_node = false;
  has_initial_input = true;
}

abbrev just_ran : Past
just_ran = record { execution_count = 1; elapsed = 30000000 }

stream_decides_example :
    ((has_ready_work half slow one_of_two ≡ false)
      × (stream_should_schedule half slow one_of_two just_ran ≡ wait_on_inputs))
    ⊎ (((has_ready_work half slow one_of_two ≡ true)
          × (rate_limited half slow just_ran ≡ false)
          × (stream_should_schedule half slow one_of_two just_ran ≡ run_now))
        ⊎ ((has_ready_work half slow one_of_two ≡ true)
            × (rate_limited half slow just_ran ≡ true)
            × ((delay : ℕ) × (stream_should_schedule half slow one_of_two just_ran ≡ defer delay)
                × (1 ≤ delay)
                × (delay ≤ slow.min_interval)
                × (nanoseconds slow.min_interval ≤ just_ran.elapsed + nanoseconds delay))))
stream_decides_example = stream_decides half slow one_of_two just_ran

defers_test : stream_should_schedule half slow one_of_two just_ran ≡ defer 70
unfolding stream_should_schedule has_ready_work
defers_test = refl
