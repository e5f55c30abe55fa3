-- ===== src/CmdLib/Swaps.antt =====
-- `ShortSwap` and `LongSwap` of q3asm/cmdlib.c on bit patterns of 16 and 32 bits, and `FloatSwap` on
-- the pattern of a float.
use q3vm.Base.{ℕ, ◌+◌, ◌*◌, ◌/◌, ◌%◌, ◌^◌, ◌<◌, ◌≡◌, arith}
use q3vm.Memory.{little_endian_to_host}

-- `l & 255`, `(l >> 8) & 255` and so on.
abbrev pub byte_of : ℕ → ℕ → ℕ
byte_of k l = l / 2 ^ (8 * k) % 2 ^ 8

unfoldable pub short_swap : ℕ → ℕ
short_swap l = byte_of 0 l * 2 ^ 8 + byte_of 1 l

unfoldable pub long_swap : ℕ → ℕ
long_swap l = byte_of 0 l * 2 ^ 24 + byte_of 1 l * 2 ^ 16 + byte_of 2 l * 2 ^ 8 + byte_of 3 l

abbrev pub float_swap : ℕ → ℕ
float_swap f = long_swap f

-- The big-endian word of the bytes that hold a little-endian one.
long_swap-little_endian :
    (b0 b1 b2 b3 : ℕ)
    → b0 < 256
    → b1 < 256
    → b2 < 256
    → b3 < 256
    → long_swap (little_endian_to_host b0 b1 b2 b3) ≡ little_endian_to_host b3 b2 b1 b0
unfolding long_swap little_endian_to_host
long_swap-little_endian b0 b1 b2 b3 h0 h1 h2 h3 = omega arith

-- Swapping twice gives the number back.
swap_twice :
    (l : ℕ)
    → l < 2 ^ 32
    → (long_swap (long_swap l) ≡ l) × (short_swap (short_swap (l % 2 ^ 16)) ≡ l % 2 ^ 16)
unfolding long_swap short_swap
swap_twice l h = (omega arith, omega arith)
