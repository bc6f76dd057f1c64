-- ===== src/Base/Words.antt =====
-- Unsigned 64-bit arithmetic with its wrap-around written out, and the page rounding macros.
use Prim.Native.Nat.{ℕ, ◌+◌, ◌-◌, ◌*◌, ◌/◌, ◌%◌, ◌^◌}

abbrev pub add64 : ℕ → ℕ → ℕ
add64 a b = (a + b) % 2 ^ 64

abbrev pub sub64 : ℕ → ℕ → ℕ
sub64 a b = (a + 2 ^ 64 - b) % 2 ^ 64

abbrev pub page_size : ℕ
page_size = 4096

-- `x & ~PAGE_MASK`
abbrev pub round_down : ℕ → ℕ
round_down x = x / 4096 * 4096

-- `(x + PAGE_MASK) & ~PAGE_MASK`; the sum wraps.
abbrev pub round_up : ℕ → ℕ
round_up x = add64 x 4095 / 4096 * 4096
