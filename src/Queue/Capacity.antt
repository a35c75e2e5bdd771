-- ===== src/Queue/Capacity.antt =====
-- `roundUpPowerOf2` of src/lock_free_queue.hpp, on 64-bit words.
pub mod Smear
pub mod Power
mod Tests
use Prim.Native.Nat.{bit_or}
use ai_pipe.Prelude.{ℕ, ◌-◌, ◌/◌, ◌^◌, leb, if◌then◌else◌}
use ai_pipe.Prelude.Words.{add_word}

-- `v |= v >> m`
pub smear : ℕ → ℕ → ℕ
smear m v = bit_or v (v / 2 ^ m)

pub round_up : ℕ → ℕ
round_up v =
    if leb v 2
    then 2
    else add_word (smear 32 (smear 16 (smear 8 (smear 4 (smear 2 (smear 1 (v - 1))))))) 1
