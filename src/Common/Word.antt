-- ===== src/Common/Word.antt =====
-- Unsigned machine words as native numbers, with the wrap-around written out.
use Prim.Native.Nat.{ℕ, ◌+◌, ◌-◌, ◌*◌, ◌%◌, ◌^◌}

-- `uint32_t` addition and subtraction.
abbrev pub add32 : ℕ → ℕ → ℕ
add32 a b = (a + b) % 2 ^ 32

abbrev pub sub32 : ℕ → ℕ → ℕ
sub32 a b = (a + 2 ^ 32 - b) % 2 ^ 32

-- `size_t` and `uint64_t` addition and subtraction on the 64-bit build.
abbrev pub add64 : ℕ → ℕ → ℕ
add64 a b = (a + b) % 2 ^ 64

abbrev pub sub64 : ℕ → ℕ → ℕ
sub64 a b = (a + 2 ^ 64 - b) % 2 ^ 64

abbrev pub mul64 : ℕ → ℕ → ℕ
mul64 a b = a * b % 2 ^ 64
