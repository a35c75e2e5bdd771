-- ===== src/Prelude/Flags.antt =====
-- Single bits of a native number.
use Prim.Native.Nat.{ℕ, zero, suc, ◌*◌, ◌/◌, ◌%◌, ◌^◌, max, bit_and, bit_or}
use mathlib.Core.Path.{◌≡◌, refl, sym, ap, ap₂, ◌∙◌}
use mathlib.Core.Logic.{inl, inr}
use mathlib.Core.Bool.{Bool, not, ◌||◌}
use native.Mathlib.Omega.{arith}
use native.Mathlib.Nat.{pow-suc, mul_comm, div-div-eq-div-mul, div-one, zero-div, mul_assoc}
use ai_pipe.Prelude.Tests.{eqb, Bool-cases, if◌then◌else◌}
use ai_pipe.Prelude.Bits.{
  bit_and_lowest, bit_or_lowest, bit_or-div, two-pow-pos, bit_and-zero_bound,
}

-- `(mask & (1 << k)) != 0`
abbrev pub has_flag : ℕ → ℕ → Bool
has_flag mask k = not (eqb (bit_and mask (2 ^ k)) 0)

-- `mask | (1 << k)`
abbrev pub set_flag : ℕ → ℕ → ℕ
set_flag mask k = bit_or mask (2 ^ k)

abbrev bit : ℕ → ℕ → ℕ
bit m k = m / 2 ^ k % 2

bit-suc : (m k : ℕ) → bit m (suc k) ≡ bit (m / 2) k
bit-suc m k =
    let twice : 2 ^ suc k ≡ 2 * 2 ^ k = pow-suc 2 k ∙ mul_comm (2 ^ k) 2 in
    ap (λ (t : ℕ). t % 2) (ap (λ (t : ℕ). m / t) twice ∙ sym (div-div-eq-div-mul m 2 (2 ^ k)))

bit-one : (k : ℕ) → bit 1 k ≡ (if eqb 0 k then 1 else 0)
bit-one zero = refl
bit-one (suc k) = bit-suc 1 k ∙ ap (λ (t : ℕ). t % 2) (zero-div (2 ^ k)) ∙ ground arith

bit-pow : (i k : ℕ) → bit (2 ^ i) k ≡ (if eqb i k then 1 else 0)
bit-pow zero k = bit-one k
bit-pow (suc i) zero =
    let twice : 2 ^ suc i ≡ 2 * 2 ^ i = pow-suc 2 i ∙ mul_comm (2 ^ i) 2 in
    let even : 2 * 2 ^ i % 2 ≡ 0 = omega arith in
    ap (λ (t : ℕ). t % 2) (div-one (2 ^ suc i) ∙ twice) ∙ even ∙ ground arith
bit-pow (suc i) (suc k) =
    let twice : 2 ^ suc i ≡ 2 * 2 ^ i = pow-suc 2 i ∙ mul_comm (2 ^ i) 2 in
    let half : 2 ^ suc i / 2 ≡ 2 ^ i = omega (arith, twice) in
    bit-suc (2 ^ suc i) k ∙ ap (λ (t : ℕ). bit t k) half ∙ bit-pow i k ∙ ground arith

bit-bit_or : (m n k : ℕ) → bit (bit_or m n) k ≡ max (bit m k) (bit n k)
bit-bit_or m n k =
    ap (λ (t : ℕ). t % 2) (bit_or-div k m n) ∙ omega (arith, bit_or_lowest (m / 2 ^ k) (n / 2 ^ k))

bit_and-pow : (k m : ℕ) → bit_and m (2 ^ k) ≡ 2 ^ k * bit m k
bit_and-pow zero m =
    let low = bit_and_lowest m 1 in
    let none_above = bit_and-zero_bound (m / 2) (m / 2) (omega arith) in
    omega (arith, low, none_above, ap (λ (t : ℕ). t % 2) (div-one m))
bit_and-pow (suc k) m =
    let twice : 2 ^ suc k ≡ 2 * 2 ^ k = pow-suc 2 k ∙ mul_comm (2 ^ k) 2 in
    let half : 2 ^ suc k / 2 ≡ 2 ^ k = omega (arith, twice) in
    let low : bit_and m (2 ^ suc k) ≡ 2 * bit_and (m / 2) (2 ^ k) =
      omega (arith, bit_and_lowest m (2 ^ suc k), ap (bit_and (m / 2)) half, twice) in
    low
    ∙ ap (λ (t : ℕ). 2 * t) (bit_and-pow k (m / 2))
    ∙ sym (mul_assoc 2 (2 ^ k) (bit (m / 2) k))
    ∙ ap₂ (λ (a b : ℕ). a * b) (sym twice) (sym (bit-suc m k))

has_flag-bit : (m k : ℕ) → has_flag m k ≡ eqb (bit m k) 1
has_flag-bit m k = elim (Bool-cases (eqb (bit m k) 0)) [
  | inl off ↦
      let none_set : 2 ^ k * bit m k ≡ 2 ^ k * 0 = ap (λ (t : ℕ). 2 ^ k * t) (ground arith) in
      ground (arith, bit_and-pow k m, none_set, off)
  | inr on ↦
      let one : bit m k ≡ 1 = ground (arith, on) in
      let all_set : 2 ^ k * bit m k ≡ 2 ^ k * 1 = ap (λ (t : ℕ). 2 ^ k * t) one in
      ground (arith, bit_and-pow k m, all_set, two-pow-pos k, on)
]

-- Setting one bit leaves the others.
pub has_flag-set_flag : (m i k : ℕ) → has_flag (set_flag m i) k ≡ (eqb i k || has_flag m k)
has_flag-set_flag m i k =
    has_flag-bit (set_flag m i) k
    ∙ ground (arith, bit-bit_or m (2 ^ i) k, bit-pow i k, has_flag-bit m k)
