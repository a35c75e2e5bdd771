-- ===== src/Queue/Capacity/Tests.antt =====
-- The rounding of capacities at a concrete request.
use ai_pipe.Prelude.{ℕ, ◌-◌, ◌^◌, ◌<◌, ◌≤◌, ◌≡◌, arith}
use ai_pipe.Queue.Capacity.{round_up}
use ai_pipe.Queue.Capacity.Power.{round_up_lem}

round_up_lem_example :
    (k : ℕ) × (0 < k)
    × (k ≤ 63)
    × (round_up 100 ≡ 2 ^ k)
    × (100 ≤ 2 ^ k)
    × (2 < 100 → 2 ^ (k - 1) < 100)
round_up_lem_example = round_up_lem 100 (omega arith)
