-- ===== src/Base/Word.antt =====
-- The C integers of the source as bit patterns: an `int` and an `unsigned` are natural numbers
-- below 2 ^ 32, and each operation writes its wrap-around out. Signed operations read the pattern
-- as two's complement, which is what the supported compilers do.
use q3vm.Base.Tests.{ltb, leb, ◌==◌, if◌then◌else◌}
use Prim.Native.Nat.{ℕ, ◌+◌, ◌-◌, ◌*◌, ◌/◌, ◌%◌, ◌^◌}
use mathlib.Core.Bool.{Bool, true, false, ◌&&◌, ◌||◌}
use mathlib.Core.Option.{Option, none, some}

-- Casts.
abbrev pub u8 : ℕ → ℕ
u8 n = n % 2 ^ 8

abbrev pub u16 : ℕ → ℕ
u16 n = n % 2 ^ 16

abbrev pub u32 : ℕ → ℕ
u32 n = n % 2 ^ 32

-- An `int` as the 64-bit pattern of a `size_t` or an `intptr_t`.
abbrev pub sext64 : ℕ → ℕ
sext64 n = if ltb n (2 ^ 31) then n else n + (2 ^ 64 - 2 ^ 32)

abbrev pub u64 : ℕ → ℕ
u64 n = n % 2 ^ 64

-- -1 as an `int`.
abbrev pub minus_one : ℕ
minus_one = 0xffff_ffff

abbrev pub add32 : ℕ → ℕ → ℕ
add32 a b = u32 (a + b)

abbrev pub sub32 : ℕ → ℕ → ℕ
sub32 a b = u32 (a + 2 ^ 32 - b)

abbrev pub neg32 : ℕ → ℕ
neg32 a = u32 (2 ^ 32 - a)

abbrev pub com32 : ℕ → ℕ
com32 a = 2 ^ 32 - 1 - a

-- The sign bit, and the magnitude of a signed word.
abbrev pub is_neg : ℕ → Bool
is_neg a = leb (2 ^ 31) a

abbrev pub abs32 : ℕ → ℕ
abs32 a = if is_neg a then 2 ^ 32 - a else a

-- Signed orders: adding 2 ^ 31 carries them to the order of the naturals.
abbrev pub bias : ℕ → ℕ
bias a = u32 (a + 2 ^ 31)

abbrev pub slt : ℕ → ℕ → Bool
slt a b = ltb (bias a) (bias b)

abbrev pub sle : ℕ → ℕ → Bool
sle a b = leb (bias a) (bias b)

-- `a / b` and `a % b` on `int`: towards zero, and undefined for a zero divisor or an overflow.
abbrev pub sdiv_undefined : ℕ → ℕ → Bool
sdiv_undefined a b = b == 0 || (a == 2 ^ 31 && b == minus_one)

abbrev pub with_sign : Bool → ℕ → ℕ
with_sign true n = neg32 n
with_sign false n = n

abbrev pub signs_differ : Bool → Bool → Bool
signs_differ true b = if b then false else true
signs_differ false b = b

unfoldable pub sdiv : ℕ → ℕ → Option ℕ
sdiv a b =
    if sdiv_undefined a b
    then none
    else some (with_sign (signs_differ (is_neg a) (is_neg b)) (abs32 a / abs32 b))

unfoldable pub smod : ℕ → ℕ → Option ℕ
smod a b = if sdiv_undefined a b then none else some (with_sign (is_neg a) (abs32 a % abs32 b))

unfoldable pub udiv : ℕ → ℕ → Option ℕ
udiv a b = if b == 0 then none else some (a / b)

unfoldable pub umod : ℕ → ℕ → Option ℕ
umod a b = if b == 0 then none else some (a % b)

-- Shifts: a count of 32 or more, which includes every negative one, is undefined.
unfoldable pub shl : ℕ → ℕ → Option ℕ
shl a k = if ltb k 32 then some (u32 (a * 2 ^ k)) else none

unfoldable pub shr : ℕ → ℕ → Option ℕ
shr a k = if ltb k 32 then some (a / 2 ^ k) else none

unfoldable pub sar : ℕ → ℕ → Option ℕ
sar a k = if ltb k 32 then some (if is_neg a then com32 (com32 a / 2 ^ k) else a / 2 ^ k) else none

-- The sign extensions of a cast to `int8_t` and to `int16_t`.
abbrev pub sex8 : ℕ → ℕ
sex8 a = if ltb (u8 a) (2 ^ 7) then u8 a else u8 a + (2 ^ 32 - 2 ^ 8)

abbrev pub sex16 : ℕ → ℕ
sex16 a = if ltb (u16 a) (2 ^ 15) then u16 a else u16 a + (2 ^ 32 - 2 ^ 16)
