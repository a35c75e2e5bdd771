-- ===== src/Queue/Ring/Tests.antt =====
-- The theorems on the ring buffer at concrete inputs, and a buffer of two items for the tests of its
-- client.
use ai_pipe.Prelude.{ℕ, ◌≤◌, ◌≡◌, refl, arith, some, [], ◌∷◌, ltb, if◌then◌else◌}
use ai_pipe.Queue.Ring.{Default, Ring, make_ring, publish, try_push, try_pop}
use ai_pipe.Queue.Ring.Holds.{Holds}
use ai_pipe.Queue.Ring.Push.{publish-Holds}
use ai_pipe.Queue.Ring.Fifo.{make_ring-Holds, try_push_lem, try_pop-cons}

instance abbrev pub zero_default : Default ℕ
zero_default = record { blank = 0 }

abbrev pub empty_ring : Ring ℕ
empty_ring = make_ring 3

abbrev pub ring_of_two : Ring ℕ
ring_of_two = let one = publish empty_ring 1 empty_ring.enqueue_pos in publish one 2 one.enqueue_pos

empty_ring_lem : Holds empty_ring 0 [] × (3 ≤ empty_ring.capacity)
empty_ring_lem = make_ring-Holds 3 (omega arith)

pub ring_of_two-Holds : Holds ring_of_two 0 (1 ∷ 2 ∷ [])
unfolding publish
ring_of_two-Holds =
    let (held, large) = empty_ring_lem in
    publish-Holds (publish-Holds held 1 (omega arith)) 2 (omega arith)

try_push_lem_example :
    (r' : Ring ℕ) × (try_push ring_of_two 3 ≡ some (ltb 2 ring_of_two.capacity, r'))
    × (r'.capacity ≡ ring_of_two.capacity)
    × Holds r' 0 (if ltb 2 ring_of_two.capacity then 1 ∷ 2 ∷ 3 ∷ [] else 1 ∷ 2 ∷ [])
try_push_lem_example = try_push_lem ring_of_two-Holds 3

try_pop-cons_example :
    (r' : Ring ℕ) × (try_pop ring_of_two ≡ some (some 1, r'))
    × (r'.capacity ≡ ring_of_two.capacity)
    × Holds r' 1 (2 ∷ [])
try_pop-cons_example = try_pop-cons ring_of_two-Holds 1 (2 ∷ []) refl
