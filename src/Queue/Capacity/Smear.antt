-- ===== src/Queue/Capacity/Smear.antt =====
-- Each `v |= v >> m` doubles the run of ones at the top of `v`.
use native.Mathlib.Nat.{
  pow-suc, mul_assoc, div-div-eq-div-mul, div-eq_of_lt-le, div-eq_of_lt, div-one,
}
use Prim.Native.Nat.{bit_or}
use native.Mathlib.Decide.{dec_lt}
use ai_pipe.Prelude.{
  ℕ, zero, suc, ◌+◌, ◌-◌, ◌*◌, ◌/◌, ◌^◌, ◌≤◌, ◌<◌, ◌≡◌, refl, sym, ap, subst, ◌∙◌, arith, min,
}
use ai_pipe.Prelude.Bits.{bit_or-div, bit_or-ones, bit_or-zero, two-pow-pos}
use ai_pipe.Queue.Capacity.{smear}

pub pow-add : (a b : ℕ) → 2 ^ (a + b) ≡ 2 ^ a * 2 ^ b
pow-add a zero = let e : a + zero ≡ a = omega arith in ap (λ (t : ℕ). 2 ^ t) e ∙ omega arith
pow-add a (suc b) =
    let e : a + suc b ≡ suc (a + b) = omega arith in
    ap (λ (t : ℕ). 2 ^ t) e
    ∙ pow-suc 2 (a + b)
    ∙ ap (λ (t : ℕ). t * 2) (pow-add a b)
    ∙ mul_assoc (2 ^ a) (2 ^ b) 2
    ∙ ap (λ (t : ℕ). 2 ^ a * t) (sym (pow-suc 2 b))

div-pow-add : (v a b c : ℕ) → a + b ≡ c → v / 2 ^ a / 2 ^ b ≡ v / 2 ^ c
div-pow-add v a b c e =
    div-div-eq-div-mul v (2 ^ a) (2 ^ b)
    ∙ ap (λ (t : ℕ). v / t) (sym (pow-add a b) ∙ ap (λ (t : ℕ). 2 ^ t) e)

-- Ones shifted right are ones.
ones-div : (a b c : ℕ) → a + b ≡ c → (2 ^ c - 1) / 2 ^ b ≡ 2 ^ a - 1
ones-div a b c e =
    let whole : 2 ^ c ≡ 2 ^ a * 2 ^ b = ap (λ (t : ℕ). 2 ^ t) (sym e) ∙ pow-add a b in
    div-eq_of_lt-le (2 ^ b) (grind (arith, whole, two-pow-pos a, two-pow-pos b))
      (grind (arith, whole, two-pow-pos a, two-pow-pos b))

-- The top `m` of the `n` bits of `v` are ones.
abbrev pub TopOnes : ℕ → ℕ → ℕ → Type 0
TopOnes n m v = v / 2 ^ (n - m) ≡ 2 ^ m - 1

-- The run grows by `s`, as far as the shift and the width allow.
grow : (n m s t v : ℕ) → m + s + t ≡ n → s ≤ m → TopOnes n m v → smear m v / 2 ^ t ≡ 2 ^ (m + s) - 1
unfolding smear
grow n m s t v e le ones =
    let low : v / 2 ^ m / 2 ^ t ≡ 2 ^ s - 1 =
      div-pow-add v m t (n - m + (m - s)) (omega arith)
      ∙ sym (div-pow-add v (n - m) (m - s) (n - m + (m - s)) refl)
      ∙ ap (λ (x : ℕ). x / 2 ^ (m - s)) ones
      ∙ ones-div s (m - s) m (omega arith) in
    let high : v / 2 ^ t / 2 ^ s ≡ 2 ^ m - 1 = div-pow-add v t s (n - m) (omega arith) ∙ ones in
    bit_or-div t v (v / 2 ^ m)
    ∙ ap (bit_or (v / 2 ^ t)) low
    ∙ bit_or-ones s (v / 2 ^ t)
    ∙ ap (λ (x : ℕ). x * 2 ^ s + (2 ^ s - 1)) high
    ∙ grind (arith, pow-add m s, two-pow-pos m, two-pow-pos s)

pub pow_mono : (a b : ℕ) → a ≤ b → 2 ^ a ≤ 2 ^ b
pow_mono a b h =
    let whole : 2 ^ b ≡ 2 ^ a * 2 ^ (b - a) =
      let e : b ≡ a + (b - a) = omega arith in ap (λ (t : ℕ). 2 ^ t) e ∙ pow-add a (b - a) in
    grind (arith, whole, two-pow-pos (b - a))

-- A word that is ones throughout stays as it is.
smear-ones : (n m v : ℕ) → n ≤ m → v ≡ 2 ^ n - 1 → smear m v ≡ v
unfolding smear
smear-ones n m v le e =
    let small : v < 2 ^ m = omega (arith, e, pow_mono n m le, two-pow-pos n) in
    ap (bit_or v) (div-eq_of_lt small) ∙ bit_or-zero v

-- The run is as long as the shift so far; then it is twice as long, or fills the word.
pub smear-TopOnes : (n m v : ℕ) → TopOnes n (min m n) v → TopOnes n (min (2 * m) n) (smear m v)
smear-TopOnes n m v ones = elim (dec_lt n m) [
  | yes beyond ↦
      let all : min m n ≡ n = omega arith in
      let still : n ≡ min (2 * m) n = omega arith in
      let filled : TopOnes n n v = subst (λ k. TopOnes n k v) all ones in
      let none_left : n - n ≡ 0 = omega arith in
      let full : v ≡ 2 ^ n - 1 =
        sym (div-one v) ∙ ap (λ (k : ℕ). v / 2 ^ k) (sym none_left) ∙ filled in
      subst (λ k. TopOnes n k (smear m v)) still
        (ap (λ (x : ℕ). x / 2 ^ (n - n)) (smear-ones n m v (omega arith) full) ∙ filled)
  | no within ↦
      let s = min m (n - m) in
      let run : min m n ≡ m = omega arith in
      let longer : m + s ≡ min (2 * m) n = omega arith in
      subst (λ k. TopOnes n k (smear m v)) longer
        (grow n m s (n - (m + s)) v (omega arith) (omega arith)
          (subst (λ k. TopOnes n k v) run ones))
]
