-- ===== src/Queue/Capacity/Power.antt =====
-- `roundUpPowerOf2` gives the least power of two that is not below its argument, from 2 up to 2^63.
use native.Mathlib.Nat.{pow-suc, div-eq_of_lt-le, div-one}
use native.Mathlib.Decide.{dec_lt}
use ai_pipe.Prelude.{
  ℕ, zero, suc, ◌+◌, ◌-◌, ◌*◌, ◌/◌, ◌^◌, ◌≤◌, ◌<◌, ◌≡◌, sym, ap, subst, ◌∙◌, arith, min, leb, false,
}
use ai_pipe.Prelude.Bits.{two-pow-pos}
use ai_pipe.Queue.Capacity.{smear, round_up}
use ai_pipe.Queue.Capacity.Smear.{TopOnes, smear-TopOnes, pow_mono}

-- The number of bits of a positive number.
bit_length : (v : ℕ) → 0 < v → (n : ℕ) × (0 < n) × (2 ^ (n - 1) ≤ v) × (v < 2 ^ n)
bit_length zero h = elim h [ ]
bit_length (suc zero) h = (1, omega arith, omega arith, omega arith)
bit_length (suc (suc v)) h =
    let (n, pos, lo, hi) = bit_length (suc v) (omega arith) in
    elim (dec_lt (suc (suc v)) (2 ^ n)) [
      | yes fits ↦ (n, pos, omega arith, fits)
      | no wider ↦
          let same : suc n - 1 ≡ n = omega arith in
          (suc n, omega arith, rw same (omega arith), omega (arith, pow-suc 2 n))
    ]

top_bit : (n v : ℕ) → 0 < n → 2 ^ (n - 1) ≤ v → v < 2 ^ n → TopOnes n (min 1 n) v
top_bit n v pos lo hi =
    let one_bit : min 1 n ≡ 1 = omega arith in
    let whole : 2 ^ n ≡ 2 ^ (n - 1) * 2 =
      let e : n ≡ suc (n - 1) = omega arith in ap (λ (t : ℕ). 2 ^ t) e ∙ pow-suc 2 (n - 1) in
    rw one_bit (div-eq_of_lt-le (2 ^ (n - 1)) (omega arith) (omega (arith, whole)))

filled : (n v : ℕ) → n ≤ 64 → TopOnes n (min 64 n) v → v ≡ 2 ^ n - 1
filled n v le ones =
    let all : min 64 n ≡ n = omega arith in
    let none_left : n - n ≡ 0 = omega arith in
    sym (div-one v)
    ∙ ap (λ (k : ℕ). v / 2 ^ k) (sym none_left)
    ∙ subst (λ k. TopOnes n k v) all ones

smear_all :
    (n v : ℕ)
    → 0 < n
    → n ≤ 64
    → 2 ^ (n - 1) ≤ v
    → v < 2 ^ n
    → smear 32 (smear 16 (smear 8 (smear 4 (smear 2 (smear 1 v))))) ≡ 2 ^ n - 1
smear_all n v pos le lo hi = filled n _ le (
    smear-TopOnes n 32 _ (
      smear-TopOnes n 16 _ (
        smear-TopOnes n 8 _ (
          smear-TopOnes n 4 _
            (smear-TopOnes n 2 _ (smear-TopOnes n 1 v (top_bit n v pos lo hi)))))))

round_up-of_smear :
    (v e : ℕ)
    → 2 < v
    → e < 2 ^ 63
    → smear 32 (smear 16 (smear 8 (smear 4 (smear 2 (smear 1 (v - 1)))))) ≡ e
    → round_up v ≡ e + 1
unfolding round_up
round_up-of_smear v e big small q =
    let above : leb v 2 ≡ false = ground arith in rw (above, q) (omega arith)

-- For every request up to 2^63 `roundUpPowerOf2` returns a power of two, at least 2, that is not
-- below the request; above 2 the power below it is smaller than the request.
pub round_up_lem :
    (v : ℕ)
    → v ≤ 2 ^ 63
    → (k : ℕ) × (0 < k) × (k ≤ 63) × (round_up v ≡ 2 ^ k) × (v ≤ 2 ^ k) × (2 < v → 2 ^ (k - 1) < v)
unfolding round_up
round_up_lem v h = elim (dec_lt 2 v) [
  | no small ↦ (1, omega arith, omega arith, ground arith, omega arith, λ g. absurd (small g))
  | yes big ↦
      let (n, pos, lo, hi) = bit_length (v - 1) (omega arith) in
      let le : n ≤ 63 = elim (dec_lt 63 n) [
        | yes wide ↦ absurd (omega (arith, pow_mono 63 (n - 1) (omega arith)))
        | no fits ↦ omega arith
      ] in
      let top : 2 ^ n ≤ 2 ^ 63 = pow_mono n 63 le in
      (
        n,
        pos,
        le,
        round_up-of_smear v (2 ^ n - 1) big (omega (arith, two-pow-pos n))
              (smear_all n (v - 1) pos (omega arith) lo hi)
            ∙ omega (arith, two-pow-pos n),
        omega arith,
        λ _. omega arith,
      )
]
