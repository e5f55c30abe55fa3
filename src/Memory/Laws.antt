-- ===== src/Memory/Laws.antt =====
-- Laws of the accesses to a block: sizes, round trips, what an access leaves alone.
use q3vm.Base.{ℕ, ◌+◌, ◌^◌, ◌≤◌, ◌<◌, ◌≡◌, ◌⊎◌, some, arith, ◌>>=◌}
use q3vm.Memory.{Block, set, read4, write4, little_endian_to_host, word_at, bytes4}

-- A successful write tells that the range was inside, and keeps the size.
pub set-some :
    (m : Block) (i v : ℕ) {m' : Block} → set m i v ≡ some m' → (i < m.size) × (m'.size ≡ m.size)
unfolding set
set-some m i v h = ground arith

pub read4-some : (m : Block) (a : ℕ) → a + 4 ≤ m.size → read4 m a ≡ some (word_at m a)
unfolding read4
read4-some m a h = ground arith

-- The four bytes of a word, put together again.
pub word_at-bytes4 :
    (m : Block) (a v : ℕ) → v < 2 ^ 32 → word_at (record m { cell = bytes4 m.cell a v }) a ≡ v
unfolding little_endian_to_host
word_at-bytes4 m a v h = ground arith

-- A 32-bit word stored inside the block is read back unchanged.
read4-write4 :
    (m : Block) (a v : ℕ)
    → a + 4 ≤ m.size
    → v < 2 ^ 32
    → (write4 m a v >>= λ m'. read4 m' a) ≡ some v
unfolding write4 read4
read4-write4 m a v h hv = ground (arith, word_at-bytes4 m a v hv)

-- A store of a word leaves every disjoint word as it was.
read4-write4_apart :
    (m m' : Block) (a b v : ℕ)
    → (a + 4 ≤ b) ⊎ (b + 4 ≤ a)
    → write4 m a v ≡ some m'
    → read4 m' b ≡ read4 m b
unfolding write4 read4 little_endian_to_host
read4-write4_apart m m' a b v h e = ground arith
