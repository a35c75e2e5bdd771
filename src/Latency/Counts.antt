-- ===== src/Latency/Counts.antt =====
-- What the histogram of include/ai_pipe/execution_types.hpp holds after some latencies.
use ai_pipe.Prelude.{
  ℕ, zero, suc, ◌+◌, ◌%◌, ◌^◌, ◌≤◌, ◌<◌, ◌≡◌, refl, sym, ap, ◌∙◌, arith, Bool, true, false, ◌&&◌,
  List, [], ◌∷◌, eqb, ltb, leb, length, get_or, set, length-set, get_or-set_self, get_or-set_ne,
  if◌then◌else◌, Bool-cases, inl, inr,
}
use ai_pipe.Prelude.Words.{add_word}
use ai_pipe.Latency.{
  k_bucket_bounds, k_num_buckets, bucket_from, get_bucket_index, zero_buckets, new_histogram,
  record_latency, total_count, record_all,
}

-- The latency is below none of the first `i` bounds, and below the next one if there is one.
abbrev pub is_between : List ℕ → ℕ → ℕ → Bool
is_between [] zero latency = true
is_between [] (suc i) latency = false
is_between (bound ∷ bounds) zero latency = ltb latency bound
is_between (bound ∷ bounds) (suc i) latency = leb bound latency && is_between bounds i latency

-- How many latencies fall into the bucket.
pub count_in : ℕ → List ℕ → ℕ
count_in i [] = 0
count_in i (x ∷ xs) =
    let rest = count_in i xs in if is_between k_bucket_bounds i x then suc rest else rest

bucket_from-ge : (k x : ℕ) (bounds : List ℕ) → k ≤ bucket_from k bounds x
unfolding bucket_from
bucket_from-ge k x [] = omega arith
bucket_from-ge k x (b ∷ bounds) = ground (arith, bucket_from-ge (suc k) x bounds)

bucket_from-le : (k x : ℕ) (bounds : List ℕ) → bucket_from k bounds x ≤ k + length bounds
unfolding bucket_from
bucket_from-le k x [] = omega arith
bucket_from-le k x (b ∷ bounds) = ground (arith, bucket_from-le (suc k) x bounds)

bucket_from-between :
    (k i x : ℕ) (bounds : List ℕ) → eqb (bucket_from k bounds x) (k + i) ≡ is_between bounds i x
unfolding bucket_from
bucket_from-between k zero x [] = ground arith
bucket_from-between k (suc i) x [] = ground arith
bucket_from-between k zero x (b ∷ bounds) = ground (arith, bucket_from-ge (suc k) x bounds)
bucket_from-between k (suc i) x (b ∷ bounds) =
    ground (arith, bucket_from-between (suc k) i x bounds)

get_bucket_index-between : (i x : ℕ) → eqb (get_bucket_index x) i ≡ is_between k_bucket_bounds i x
unfolding get_bucket_index
get_bucket_index-between i x =
    ap (eqb (bucket_from 0 k_bucket_bounds x)) (omega arith)
    ∙ bucket_from-between 0 i x k_bucket_bounds

get_bucket_index-lt : (x : ℕ) → get_bucket_index x < k_num_buckets
unfolding get_bucket_index
get_bucket_index-lt x = omega (arith, bucket_from-le 0 x k_bucket_bounds)

get_or-record :
    (buckets : List ℕ) (x i : ℕ)
    → length buckets ≡ k_num_buckets
    → get_or (record_latency buckets x) i 0 ≡ (
        if is_between k_bucket_bounds i x
        then (get_or buckets i 0 + 1) % 2 ^ 64
        else get_or buckets i 0)
unfolding record_latency
get_or-record buckets x i len = elim (Bool-cases (eqb (get_bucket_index x) i)) [
  | inl hit ↦
      let same : get_bucket_index x ≡ i = ground (arith, hit) in
      rw (sym (get_bucket_index-between i x), hit)
        (rw same (get_or-set_self buckets i _ 0 (omega (arith, len, get_bucket_index-lt x, same))))
  | inr miss ↦
      rw (sym (get_bucket_index-between i x), miss)
        (get_or-set_ne buckets (get_bucket_index x) i _ 0 (λ e. ground (arith, miss, e)))
]

record_all-get_or :
    (buckets xs : List ℕ) (i : ℕ)
    → length buckets ≡ k_num_buckets
    → get_or buckets i 0 < 2 ^ 64
    → get_or (record_all buckets xs) i 0 ≡ (get_or buckets i 0 + count_in i xs) % 2 ^ 64
unfolding record_all count_in record_latency
record_all-get_or buckets [] i len small = omega (arith, small)
record_all-get_or buckets (x ∷ xs) i len small = ground (
  arith,
  record_all-get_or (record_latency buckets x) xs i
      (length-set buckets (get_bucket_index x) _ ∙ len),
  get_or-record buckets x i len,
  small,
)

zero_buckets-get_or : (n i : ℕ) → get_or (zero_buckets n) i 0 ≡ 0
zero_buckets-get_or zero i = refl
zero_buckets-get_or (suc n) zero = refl
zero_buckets-get_or (suc n) (suc i) = zero_buckets-get_or n i

total_count-lt : (buckets : List ℕ) → total_count buckets < 2 ^ 64
unfolding total_count
total_count-lt [] = omega arith
total_count-lt (n ∷ buckets) = omega arith

total_count-set :
    (buckets : List ℕ) (i : ℕ)
    → i < length buckets
    → total_count (set buckets i (add_word (get_or buckets i 0) 1))
      ≡ (total_count buckets + 1) % 2 ^ 64
unfolding total_count
total_count-set [] i lt = absurd (omega (arith, lt))
total_count-set (n ∷ buckets) zero lt = omega (arith, total_count-lt buckets)
total_count-set (n ∷ buckets) (suc i) lt =
    omega (arith, total_count-set buckets i (omega (arith, lt)), total_count-lt buckets)

record_all-total :
    (buckets xs : List ℕ)
    → length buckets ≡ k_num_buckets
    → total_count (record_all buckets xs) ≡ (total_count buckets + length xs) % 2 ^ 64
unfolding record_all record_latency
record_all-total buckets [] len = omega (arith, total_count-lt buckets)
record_all-total buckets (x ∷ xs) len = omega (
  arith,
  record_all-total (record_latency buckets x) xs (length-set buckets (get_bucket_index x) _ ∙ len),
  total_count-set buckets (get_bucket_index x) (omega (arith, len, get_bucket_index-lt x)),
)

-- After any latencies have been recorded in a new histogram, every bucket holds the number of those that are
-- below the bound of the bucket and below none of the earlier bounds, and the total is the number of all,
-- both as 64-bit numbers.
pub histogram_counts :
    (xs : List ℕ) (i : ℕ)
    → (get_or (record_all new_histogram xs) i 0 ≡ count_in i xs % 2 ^ 64)
      × (total_count (record_all new_histogram xs) ≡ length xs % 2 ^ 64)
unfolding total_count
histogram_counts xs i =
    let empty : get_or new_histogram i 0 ≡ 0 = zero_buckets-get_or k_num_buckets i in
    (
      omega (arith, empty, record_all-get_or new_histogram xs i refl (omega (arith, empty))),
      omega (arith, record_all-total new_histogram xs refl),
    )
