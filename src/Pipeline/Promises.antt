-- ===== src/Pipeline/Promises.antt =====
-- The promises of `runAsync` of src/pipeline_impl.cpp, and the threads that are at work for one of them.
use ai_pipe.Prelude.{
  ℕ, zero, suc, ◌+◌, ◌≡◌, ◌⊎◌, refl, ap, ◌∙◌, arith, true, false, some, List, [], ◌∷◌, eqb, set,
  get_elem?, if◌then◌else◌, inl, inr,
}
use ai_pipe.Errors.{no_error}
use ai_pipe.Errors.Results.{Result}
use ai_pipe.Pool.{pick_out}
use ai_pipe.Pipeline.{
  Pipeline, Promise, unclaimed, claimed, fulfilled, Thread, completes, fails, is_open, PortDataMap,
}
use ai_pipe.Pipeline.Threads.{put_back-some}

-- The future with that number has that result.
abbrev pub IsFulfilled : Pipeline → ℕ → Result PortDataMap → Type 0
IsFulfilled p k r = get_elem? p.futures k ≡ some (fulfilled r)

-- How many threads are in a callback of the call with that number, after they were the first to set its flag.
abbrev pub winner : ℕ → Thread → ℕ
winner k (completes j results) = if eqb j k then 1 else 0
winner k (fails j e) = if eqb j k then 1 else 0
winner k _ = 0

abbrev pub winners : ℕ → List Thread → ℕ
winners k [] = 0
winners k (t ∷ ts) = winner k t + winners k ts

abbrev claims : Promise → ℕ
claims unclaimed = 0
claims claimed = 1
claims (fulfilled r) = 0

abbrev pub claimed_at : ℕ → List Promise → ℕ
claimed_at k [] = 0
claimed_at zero (f ∷ fs) = claims f
claimed_at (suc k) (f ∷ fs) = claimed_at k fs

-- One thread is at work for each promise that is claimed and not fulfilled, and none for any other.
abbrev pub Single : ℕ → List Promise → List Thread → Type 0
Single k fs ts = winners k ts ≡ claimed_at k fs

pub winners-pick_out :
    (k i : ℕ) (ts : List Thread) (t : Thread) (others : List Thread)
    → pick_out i ts ≡ some (t, others)
    → winners k ts ≡ winner k t + winners k others
unfolding pick_out
winners-pick_out k i [] t others h = cc
winners-pick_out k zero (x ∷ xs) t others h =
    let same : x ≡ t = cc in
    let same_rest : xs ≡ others = cc in omega (arith, ap (winner k) same, ap (winners k) same_rest)
winners-pick_out k (suc i) (x ∷ xs) t others h =
    let (zs, out, same) = put_back-some x (pick_out i xs) t others h in
    omega (arith, ap (winners k) same, winners-pick_out k i xs t zs out)

-- What a store into a promise does to the one with number `k`.
pub is_open-set :
    (k j : ℕ) (fs : List Promise)
    → is_open j fs ≡ true
    → claimed_at k (set fs j claimed) ≡ claimed_at k fs + (if eqb j k then 1 else 0)
unfolding is_open
is_open-set k j [] h = cc
is_open-set zero zero (unclaimed ∷ fs) h = refl
is_open-set k zero (claimed ∷ fs) h = cc
is_open-set k zero (fulfilled r ∷ fs) h = cc
is_open-set (suc k) zero (unclaimed ∷ fs) h = ground arith
is_open-set zero (suc j) (f ∷ fs) h = ground arith
is_open-set (suc k) (suc j) (f ∷ fs) h = ground (arith, is_open-set k j fs h)

pub claimed_at-set :
    (k j : ℕ) (r : Result PortDataMap) (fs : List Promise)
    → claimed_at k (set fs j (fulfilled r)) ≡ (if eqb j k then 0 else claimed_at k fs)
claimed_at-set k j r [] = ground arith
claimed_at-set zero zero r (f ∷ fs) = ground arith
claimed_at-set (suc k) zero r (f ∷ fs) = ground arith
claimed_at-set zero (suc j) r (f ∷ fs) = ground arith
claimed_at-set (suc k) (suc j) r (f ∷ fs) = ground (arith, claimed_at-set k j r fs)

pub claimed_at-le : (k : ℕ) (fs : List Promise) → (claimed_at k fs ≡ 0) ⊎ (claimed_at k fs ≡ 1)
claimed_at-le k [] = inl refl
claimed_at-le zero (unclaimed ∷ fs) = inl refl
claimed_at-le zero (claimed ∷ fs) = inr refl
claimed_at-le zero (fulfilled r ∷ fs) = inl refl
claimed_at-le (suc k) (f ∷ fs) = claimed_at-le k fs

-- A fulfilled promise is not claimed, and a store into a claimed or an open one leaves it.
pub fulfilled-closed :
    (k : ℕ) (r : Result PortDataMap) (fs : List Promise)
    → get_elem? fs k ≡ some (fulfilled r)
    → (claimed_at k fs ≡ 0) × (is_open k fs ≡ false)
unfolding is_open
fulfilled-closed k r [] h = cc
fulfilled-closed zero r (unclaimed ∷ fs) h = absurd cc
fulfilled-closed zero r (claimed ∷ fs) h = absurd cc
fulfilled-closed zero r (fulfilled s ∷ fs) h = (refl, refl)
fulfilled-closed (suc k) r (f ∷ fs) h = fulfilled-closed k r fs h

pub set-other :
    (k j : ℕ) (f : Promise) (fs : List Promise)
    → eqb j k ≡ false
    → get_elem? (set fs j f) k ≡ get_elem? fs k
set-other k j f [] ne = refl
set-other zero zero f (g ∷ fs) ne = absurd (ground (arith, ne))
set-other zero (suc j) f (g ∷ fs) ne = refl
set-other (suc k) zero f (g ∷ fs) ne = refl
set-other (suc k) (suc j) f (g ∷ fs) ne = set-other k j f fs (ground (arith, ne))

pub fulfil-single :
    (k j w : ℕ) (r : Result PortDataMap) (fs : List Promise)
    → (if eqb j k then 1 else 0) + w ≡ claimed_at k fs
    → w ≡ claimed_at k (set fs j (fulfilled r))
fulfil-single k j w r fs s = ground (arith, s, claimed_at-set k j r fs, claimed_at-le k fs)

pub fulfil-keeps :
    (k j : ℕ) (r s : Result PortDataMap) (fs : List Promise)
    → winner k (fails j no_error) ≡ 0
    → get_elem? fs k ≡ some (fulfilled r)
    → get_elem? (set fs j (fulfilled s)) k ≡ some (fulfilled r)
fulfil-keeps k j r s fs other e = set-other k j (fulfilled s) fs (ground (arith, other)) ∙ e
