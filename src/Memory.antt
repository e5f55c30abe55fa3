-- ===== src/Memory.antt =====
-- Arrays of the C program as blocks: a size and the value of each cell. `none` is an access outside
-- the block, which C leaves undefined. The data section is a block of bytes; an `int` there takes
-- four of them, lowest first, as `LittleEndianToHost` of src/vm/vm.c and a little-endian host read.
pub mod Laws
use q3vm.Base.{
  ℕ, zero, suc, ◌+◌, ◌*◌, ◌/◌, ◌%◌, ◌^◌, ◌≤◌, Option, none, some, ltb, leb, ◌==◌, ◌&&◌, ◌||◌,
  if◌then◌else◌, Bool, ◌-◌, ◌<◌,
}

pub record Block : Type 0 where
  pub size : ℕ
  pub cell : ℕ → ℕ

abbrev pub update : (ℕ → ℕ) → ℕ → ℕ → ℕ → ℕ
update f a v q = if q == a then v else f q

abbrev pub in_range : Block → ℕ → ℕ → Bool
in_range m a n = leb (a + n) m.size

-- One element of an array.
unfoldable pub get : Block → ℕ → Option ℕ
get m i = if in_range m i 1 then some (m.cell i) else none

unfoldable pub set : Block → ℕ → ℕ → Option Block
set m i v = if in_range m i 1 then some (record m { cell = update m.cell i v }) else none

-- `LittleEndianToHost`: the `int` of four bytes.
unfoldable pub little_endian_to_host : ℕ → ℕ → ℕ → ℕ → ℕ
little_endian_to_host b0 b1 b2 b3 = b0 + b1 * 2 ^ 8 + b2 * 2 ^ 16 + b3 * 2 ^ 24

abbrev pub word_at : Block → ℕ → ℕ
word_at m a = little_endian_to_host (m.cell a) (m.cell (a + 1)) (m.cell (a + 2)) (m.cell (a + 3))

-- `*(int*)&image[a]` and `*(unsigned short*)&image[a]`, read and written.
unfoldable pub read4 : Block → ℕ → Option ℕ
read4 m a = if in_range m a 4 then some (word_at m a) else none

unfoldable pub read2 : Block → ℕ → Option ℕ
read2 m a = if in_range m a 2 then some (m.cell a + m.cell (a + 1) * 2 ^ 8) else none

abbrev pub bytes4 : (ℕ → ℕ) → ℕ → ℕ → ℕ → ℕ
bytes4 f a v =
    update
      (update (update (update f a (v % 256)) (a + 1) (v / 2 ^ 8 % 256)) (a + 2) (v / 2 ^ 16 % 256))
      (a + 3) (v / 2 ^ 24 % 256)

abbrev pub bytes2 : (ℕ → ℕ) → ℕ → ℕ → ℕ → ℕ
bytes2 f a v = update (update f a (v % 256)) (a + 1) (v / 2 ^ 8 % 256)

unfoldable pub write4 : Block → ℕ → ℕ → Option Block
write4 m a v = if in_range m a 4 then some (record m { cell = bytes4 m.cell a v }) else none

unfoldable pub write2 : Block → ℕ → ℕ → Option Block
write2 m a v = if in_range m a 2 then some (record m { cell = bytes2 m.cell a v }) else none

unfoldable pub write1 : Block → ℕ → ℕ → Option Block
write1 m a v = set m a (v % 256)

-- Does `q` lie in the `n` cells from `a` on?
abbrev pub inside : ℕ → ℕ → ℕ → Bool
inside a n q = leb a q && ltb q (a + n)

-- `memset(m + a, v, n)`.
unfoldable pub fill : Block → ℕ → ℕ → ℕ → Option Block
fill m a v n =
    if in_range m a n
    then some (record m { cell = λ q. if inside a n q then v % 256 else m.cell q })
    else none

-- `memcpy(to + dest, from + src, n)` between different blocks.
unfoldable pub copy_from : Block → ℕ → Block → ℕ → ℕ → Option Block
copy_from to dest from src n =
    if in_range to dest n && in_range from src n
    then some (record to {
      cell = λ q. if inside dest n q then from.cell (src + (q - dest)) else to.cell q;
    })
    else none

-- `memcpy` inside one block, undefined also where the two ranges overlap.
abbrev pub overlap : ℕ → ℕ → ℕ → Bool
overlap dest src n = ltb dest (src + n) && ltb src (dest + n)

unfoldable pub copy_within : Block → ℕ → ℕ → ℕ → Option Block
unfolding copy_from
copy_within m dest src n = if overlap dest src n then none else copy_from m dest m src n

-- A block of `n` bytes of value 0.
abbrev pub zeroed : ℕ → Block
zeroed n = record { size = n; cell = λ _. 0 }

abbrev pub IsBytes : Block → Type 0
IsBytes m = (q : ℕ) → m.cell q < 256
