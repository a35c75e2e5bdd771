-- ===== src/Prelude/Words.antt =====
-- 64-bit words, `size_t` and `uint64_t`: addition wraps, and a difference read as `intptr_t` is negative from 2^63 up.
use Prim.Native.Nat.{ℕ, ◌+◌, ◌-◌, ◌%◌, ◌^◌}
use mathlib.Core.Bool.{Bool}
use ai_pipe.Prelude.Tests.{leb}

abbrev pub word : ℕ
word = 2 ^ 64

abbrev pub add_word : ℕ → ℕ → ℕ
add_word a b = (a + b) % word

abbrev pub sub_word : ℕ → ℕ → ℕ
sub_word a b = (a + word - b) % word

-- The sign bit of a word.
abbrev pub is_negative : ℕ → Bool
is_negative d = leb (2 ^ 63) d
