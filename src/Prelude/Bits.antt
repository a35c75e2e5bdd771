-- ===== src/Prelude/Bits.antt =====
-- Bit operations at variables: a mask of ones is a remainder, and a shift passes through `|`.
use Prim.Native.Nat.{ℕ, zero, suc, ◌+◌, ◌-◌, ◌*◌, ◌/◌, ◌%◌, ◌^◌, ◌≤◌, ◌<◌, min, max}
use Prim.Native.Nat.{bit_and, bit_or, digits, bit_and-bitwise, bit_or-bitwise}
use mathlib.Core.Path.{◌≡◌, refl, sym, ap, ap₂, ◌∙◌}
use native.Mathlib.Nat.{pow-suc, one-le-pow, mul_comm, div-add-mod, mod-lt, mod-eq_of_lt}
use native.Mathlib.Nat.{mul-add-mod_self_left, div-div-eq-div-mul, div-one}
use native.Mathlib.Omega.{arith}

-- `digits` takes its first number for fuel; any fuel that is not below the left operand will do.
enough_fuel :
    (z : ℕ → ℕ) (f : ℕ → ℕ → ℕ) (x y k l : ℕ) → x ≤ k → x ≤ l → digits z f k x y ≡ digits z f l x y
enough_fuel z f zero y zero zero p q = refl
enough_fuel z f zero y zero (suc l) p q = refl
enough_fuel z f zero y (suc k) zero p q = refl
enough_fuel z f zero y (suc k) (suc l) p q = refl
enough_fuel z f (suc x) y zero l p q = absurd (omega arith)
enough_fuel z f (suc x) y (suc k) zero p q = absurd (omega arith)
enough_fuel z f (suc x) y (suc k) (suc l) p q =
    rw (enough_fuel z f (suc x / 2) (y / 2) k l (omega arith) (omega arith))

-- The fuel that one step leaves, against the fuel that the halves ask for.
half_fuel :
    (z : ℕ → ℕ) (f : ℕ → ℕ → ℕ) (x y : ℕ)
    → digits z f x (suc x / 2) (y / 2) ≡ digits z f (suc x / 2) (suc x / 2) (y / 2)
half_fuel z f x y = enough_fuel z f (suc x / 2) (y / 2) x (suc x / 2) (omega arith) (omega arith)

pub bit_and_lowest : (a b : ℕ) → bit_and a b ≡ 2 * bit_and (a / 2) (b / 2) + min (a % 2) (b % 2)
bit_and_lowest zero b = omega (arith, bit_and-bitwise 0 b, bit_and-bitwise 0 (b / 2))
bit_and_lowest (suc a) b =
    let whole = bit_and-bitwise (suc a) b in
    let halves = bit_and-bitwise (suc a / 2) (b / 2) in
    omega (arith, whole, halves, half_fuel (λ _. 0) min a b)

pub bit_or_lowest : (a b : ℕ) → bit_or a b ≡ 2 * bit_or (a / 2) (b / 2) + max (a % 2) (b % 2)
bit_or_lowest zero b = omega (arith, bit_or-bitwise 0 b, bit_or-bitwise 0 (b / 2))
bit_or_lowest (suc a) b =
    let whole = bit_or-bitwise (suc a) b in
    let halves = bit_or-bitwise (suc a / 2) (b / 2) in
    omega (arith, whole, halves, half_fuel (λ y. y) max a b)

pub bit_and-zero_bound : (n a : ℕ) → a ≤ n → bit_and a 0 ≡ 0
bit_and-zero_bound n zero h = refl
bit_and-zero_bound zero (suc a) h = absurd (omega arith)
bit_and-zero_bound (suc n) (suc a) h =
    omega (arith, bit_and_lowest (suc a) 0, bit_and-zero_bound n (suc a / 2) (omega arith))

-- The remainder by twice `p` is the remainder of the half by `p`, and the lowest bit.
mod_double : (p a : ℕ) → 0 < p → a % (2 * p) ≡ 2 * (a / 2 % p) + a % 2
mod_double p a h =
    let q = a / 2 / p in
    let r = a / 2 % p in
    let split : a ≡ 2 * p * q + (2 * r + a % 2) = omega (arith, div-add-mod (a / 2) p) in
    let small : 2 * r + a % 2 < 2 * p = omega (arith, mod-lt (a / 2) h) in
    ap (λ (t : ℕ). t % (2 * p)) split
    ∙ mul-add-mod_self_left (2 * p) q (2 * r + a % 2)
    ∙ mod-eq_of_lt small

pub two-pow-pos : (k : ℕ) → 0 < 2 ^ k
two-pow-pos k = one-le-pow k 2 (omega arith)

-- `a & (2^k - 1)` keeps the lowest `k` bits.
pub bit_and-ones : (k a : ℕ) → bit_and a (2 ^ k - 1) ≡ a % 2 ^ k
bit_and-ones zero a = omega (arith, bit_and-zero_bound a a (omega arith))
bit_and-ones (suc k) a =
    let twice : 2 ^ suc k ≡ 2 * 2 ^ k = pow-suc 2 k ∙ mul_comm (2 ^ k) 2 in
    let half : (2 ^ suc k - 1) / 2 ≡ 2 ^ k - 1 = omega (arith, twice, two-pow-pos k) in
    bit_and_lowest a (2 ^ suc k - 1)
    ∙ rw (half, bit_and-ones k (a / 2))
        (omega (
          arith,
          twice,
          two-pow-pos k,
          ap (λ (t : ℕ). a % t) twice,
          mod_double (2 ^ k) a (two-pow-pos k),
        ))

bit_or-zero_bound : (n a : ℕ) → a ≤ n → bit_or a 0 ≡ a
bit_or-zero_bound n zero h = refl
bit_or-zero_bound zero (suc a) h = absurd (omega arith)
bit_or-zero_bound (suc n) (suc a) h =
    omega (arith, bit_or_lowest (suc a) 0, bit_or-zero_bound n (suc a / 2) (omega arith))

pub bit_or-zero : (a : ℕ) → bit_or a 0 ≡ a
bit_or-zero a = bit_or-zero_bound a a (omega arith)

-- `a | (2^k - 1)` sets the lowest `k` bits.
pub bit_or-ones : (k a : ℕ) → bit_or a (2 ^ k - 1) ≡ a / 2 ^ k * 2 ^ k + (2 ^ k - 1)
bit_or-ones zero a = rw div-one (omega (arith, bit_or-zero a))
bit_or-ones (suc k) a =
    let twice : 2 ^ suc k ≡ 2 * 2 ^ k = pow-suc 2 k ∙ mul_comm (2 ^ k) 2 in
    let half : (2 ^ suc k - 1) / 2 ≡ 2 ^ k - 1 = omega (arith, twice, two-pow-pos k) in
    let quotient : a / 2 ^ suc k ≡ a / 2 / 2 ^ k =
      ap (λ (t : ℕ). a / t) twice ∙ sym (div-div-eq-div-mul a 2 (2 ^ k)) in
    bit_or_lowest a (2 ^ suc k - 1)
    ∙ rw (half, bit_or-ones k (a / 2), quotient, twice) (omega (arith, twice, two-pow-pos k))

-- The lowest bits fall off both operands alike.
pub bit_or-div : (k a b : ℕ) → bit_or a b / 2 ^ k ≡ bit_or (a / 2 ^ k) (b / 2 ^ k)
bit_or-div zero a b = rw (div-one, div-one, div-one)
bit_or-div (suc k) a b =
    let twice : 2 ^ suc k ≡ 2 * 2 ^ k = pow-suc 2 k ∙ mul_comm (2 ^ k) 2 in
    let halves = λ (x : ℕ). ap (λ (t : ℕ). x / t) twice ∙ sym (div-div-eq-div-mul x 2 (2 ^ k)) in
    let lowest : bit_or a b / 2 ≡ bit_or (a / 2) (b / 2) = omega (arith, bit_or_lowest a b) in
    halves (bit_or a b)
    ∙ ap (λ (t : ℕ). t / 2 ^ k) lowest
    ∙ bit_or-div k (a / 2) (b / 2)
    ∙ ap₂ bit_or (sym (halves a)) (sym (halves b))
