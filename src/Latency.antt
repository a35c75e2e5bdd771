-- ===== src/Latency.antt =====
-- `LatencyHistogram` of include/ai_pipe/execution_types.hpp. The buckets are 64-bit counters, which wrap.
pub mod Counts
use ai_pipe.Prelude.{ℕ, zero, suc, ◌+◌, List, [], ◌∷◌, ltb, get_or, set, if◌then◌else◌}
use ai_pipe.Prelude.Words.{add_word}

abbrev pub k_bucket_bounds : List ℕ
k_bucket_bounds =
    10 ∷ 25 ∷ 50 ∷ 100 ∷ 250 ∷ 500 ∷ 1000 ∷ 2500 ∷ 5000 ∷ 10000 ∷ 25000 ∷ 50000 ∷ 100000 ∷ 250000
    ∷ 500000 ∷ []

abbrev pub k_num_buckets : ℕ
k_num_buckets = 16

-- The loop over the bounds from the one with index `i` on.
pub bucket_from : ℕ → List ℕ → ℕ → ℕ
bucket_from i [] latency = i
bucket_from i (bound ∷ bounds) latency =
    if ltb latency bound then i else bucket_from (suc i) bounds latency

pub get_bucket_index : ℕ → ℕ
get_bucket_index latency = bucket_from 0 k_bucket_bounds latency

-- The constructor, and `reset`.
abbrev pub zero_buckets : ℕ → List ℕ
zero_buckets zero = []
zero_buckets (suc n) = 0 ∷ zero_buckets n

abbrev pub new_histogram : List ℕ
new_histogram = zero_buckets k_num_buckets

pub record_latency : List ℕ → ℕ → List ℕ
record_latency buckets latency =
    let i = get_bucket_index latency in set buckets i (add_word (get_or buckets i 0) 1)

pub total_count : List ℕ → ℕ
total_count [] = 0
total_count (n ∷ buckets) = add_word n (total_count buckets)

-- The histogram after some latencies, recorded one after another.
pub record_all : List ℕ → List ℕ → List ℕ
record_all buckets [] = buckets
record_all buckets (x ∷ xs) = record_all (record_latency buckets x) xs
