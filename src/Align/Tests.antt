-- ===== src/Align/Tests.antt =====
-- The theorems on the alignment policies and on the gather loop at concrete inputs.
use ai_pipe.Prelude.{
  List, false, ℕ, ◌+◌, ◌*◌, ◌^◌, ◌≤◌, ◌≡◌, refl, arith, true, false, none, some, List, [], ◌∷◌,
}
use ai_pipe.Align.{
  Packet, Heads, by_frame_id, by_stream_frame_id, by_timestamp, aligned, pairs_with, all_keyed,
  min_time, max_time, ticks, within,
}
use ai_pipe.Align.Streams.{streams_pairs}
use ai_pipe.Align.Times.{times_pairs}
use ai_pipe.Align.Gather.{Port, Log, gather}
use ai_pipe.Align.Gather.Flags.{total}
use ai_pipe.Align.Gather.Ends.{IsSound, gather-IsSound}

abbrev frame : ℕ → Packet
frame n = record { id = n; stream_id = 1; timestamp = 2 ^ 63 + 40 * n }

abbrev heads : Heads
heads = some (frame 7) ∷ none ∷ some (frame 7) ∷ []

abbrev ports : List Port
ports =
    record { queue = some (frame 1) ∷ some (frame 2) ∷ []; ended = false }
    ∷ record { queue = some (frame 2) ∷ []; ended = true }
    ∷ []

abbrev no_log : Log
no_log = record { delivered = []; dropped = [] }

streams_pairs_example : pairs_with by_stream_frame_id (frame 7) (frame 7) ≡ true
unfolding aligned all_keyed
streams_pairs_example = streams_pairs heads 0 2 (frame 7) (frame 7) refl refl refl refl

times_pairs_example :
    (pairs_with (by_timestamp 100) (frame 7) (frame 8) ≡ true)
    × ((frame 7).timestamp ≤ (frame 8).timestamp + ticks 100)
unfolding aligned min_time max_time within
times_pairs_example =
    times_pairs 100 (some (frame 7) ∷ some (frame 8) ∷ []) 0 1 (frame 7) (frame 8) (omega arith)
      (omega arith) refl refl refl

gather-IsSound_example :
    IsSound by_frame_id ports no_log (gather (λ _ _. false) by_frame_id 4 ports no_log)
unfolding total
gather-IsSound_example =
    gather-IsSound (λ _ _. false) by_frame_id 4 ports no_log tt
      (((omega arith, (omega arith, tt)), ((omega arith, tt), tt))) (omega arith)

-- Heads that are 2^63 ticks apart are called aligned by any tolerance.
far_test :
    aligned (by_timestamp 0) (
      some (record (frame 7) { timestamp = 0 })
      ∷ some (record (frame 7) { timestamp = 2 ^ 63 })
      ∷ [])
    ≡ true
unfolding aligned min_time max_time within
far_test = refl
