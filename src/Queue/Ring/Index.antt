-- ===== src/Queue/Ring/Index.antt =====
-- Where positions fall in the buffer: within one lap no two positions share a slot, and a position
-- that has wrapped falls in the slot of the position that it stands for.
use Prim.Native.Nat.{bit_and, ◌∣◌}
use native.Mathlib.Nat.{div-add-mod, mod-mod_of_dvd, mod-add-mod, pow-suc}
use native.Mathlib.Nat.{one-dvd, mul-dvd-mul_right, le_of_dvd}
use native.Mathlib.Decide.{dec_lt}
use ai_pipe.Prelude.{
  ℕ, zero, suc, ◌+◌, ◌-◌, ◌*◌, ◌/◌, ◌%◌, ◌^◌, ◌≤◌, ◌<◌, ◌≡◌, ◌≢◌, ◌∙◌, arith, true, false, eqb,
}
use ai_pipe.Prelude.Words.{word, add_word, sub_word, is_negative}
use ai_pipe.Prelude.Bits.{bit_and-ones, two-pow-pos}

lap_mono : (c x y : ℕ) → x < y → c * x + c ≤ c * y
lap_mono c x y h = grind arith

-- Two positions less than a lap apart are in different slots.
pub mod-ne_of_lt : (c p q : ℕ) → p < q → q < p + c → p % c ≢ q % c
mod-ne_of_lt c p q lo hi e = elim (dec_lt (p / c) (q / c)) [
  | yes h ↦ omega (arith, div-add-mod p c, div-add-mod q c, lap_mono c (p / c) (q / c) h)
  | no h ↦
      let le : c * (q / c) ≤ c * (p / c) = grind arith in
      omega (arith, div-add-mod p c, div-add-mod q c, le)
]

pow-dvd-pow : (k n : ℕ) → k ≤ n → 2 ^ k ∣ 2 ^ n
pow-dvd-pow zero n h = one-dvd (2 ^ n)
pow-dvd-pow (suc k) zero h = absurd (omega arith)
pow-dvd-pow (suc k) (suc n) h =
    rw (pow-suc, pow-suc) (mul-dvd-mul_right (2 ^ k) (pow-dvd-pow k n (omega arith)) 2)

word-dvd : (k : ℕ) → k ≤ 63 → 2 ^ k ∣ word
word-dvd k h = pow-dvd-pow k 64 (omega arith)

pub two-le-pow : (k : ℕ) → 0 < k → 2 ≤ 2 ^ k
two-le-pow zero h = elim h [ ]
two-le-pow (suc k) h = omega (arith, pow-suc 2 k, two-pow-pos k)

pub pow-le-half : (k : ℕ) → k ≤ 63 → 2 ^ k ≤ 2 ^ 63
pow-le-half k h = le_of_dvd (omega arith) (pow-dvd-pow k 63 h)

-- The index `pos & m_mask`, for a position that has wrapped.
pub slot-mod : (k p : ℕ) → k ≤ 63 → bit_and (p % word) (2 ^ k - 1) ≡ p % 2 ^ k
slot-mod k p h = bit_and-ones k (p % word) ∙ mod-mod_of_dvd (2 ^ k) p (word-dvd k h)

pub add_word-mod : (p n : ℕ) → add_word (p % word) n ≡ (p + n) % word
add_word-mod p n = mod-add-mod p word n

-- A tag that is due.
pub diff_due : (p : ℕ) → sub_word (p % word) (p % word) ≡ 0
diff_due p = omega arith

behind_by : (p n : ℕ) → 0 < n → n ≤ 2 ^ 63 → sub_word (p % word) ((p + n) % word) ≡ word - n
behind_by p n lo hi = omega arith

-- A tag of the lap before, or of an empty cell, reads as behind.
pub diff_behind :
    (p n : ℕ)
    → 0 < n
    → n ≤ 2 ^ 63
    → (eqb (sub_word (p % word) ((p + n) % word)) 0 ≡ false)
      × (is_negative (sub_word (p % word) ((p + n) % word)) ≡ true)
diff_behind p n lo hi = rw (behind_by p n lo hi) (ground arith)
