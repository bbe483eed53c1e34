-- ===== src/IpcQueue/Setup.antt =====
-- A queue that has just been created, and the block arithmetic that `init_block_size` prepares.
use native.Mathlib.Nat.{pow-le-pow_right}
use log.Prelude.{
  ℕ, zero, suc, ◌+◌, ◌-◌, ◌*◌, ◌/◌, ◌^◌, ◌≤◌, ◌<◌, ◌≡◌, refl, Bool, true, false, [], arith, ltb,
  ◌==◌, ◌&&◌, ==_iff,
}
use log.IpcQueue.{
  Queue, OverflowPolicy, log2_of, init_block_size, create_region, u32, estimate_block_count,
}
use log.IpcQueue.Blocks.{span_room, span_least, Shape, Short, estimate_lem}
use log.IpcQueue.Contents.{Holds}

-- The exponents from 0 up to, not including, `n` are found.
finds_up_to : ℕ → Bool
finds_up_to zero = true
finds_up_to (suc n) = finds_up_to n && log2_of (2 ^ n) == n

finds_all : finds_up_to 32 ≡ true
unfolding finds_up_to log2_of
finds_all = refl

finds_one : (k n : ℕ) → k < n → finds_up_to n ≡ true → log2_of (2 ^ k) ≡ k
unfolding finds_up_to
finds_one k zero below found = absurd (omega arith)
finds_one k (suc n) below found = ground (arith, finds_one k n, ==_iff (log2_of (2 ^ k)) k)

-- The shifts of `init_block_size` find the exponent of every power of 2 that a `uint32_t` holds.
pub log2_of-pow : (k : ℕ) → k < 32 → log2_of (2 ^ k) ≡ k
log2_of-pow k small = finds_one k 32 small finds_all

exponent_big : (k : ℕ) → 5 ≤ k → 32 ≤ 2 ^ k
exponent_big k low = pow-le-pow_right {n = 2} (omega arith) {i = 5} {j = k} low

-- A new queue is well formed and empty, if it has a block, its blocks have a power of 2 of bytes,
-- from 2 ^ 5 to 2 ^ 31, and all of them at most 2 ^ 32.
pub create_region-Holds :
    (policy : OverflowPolicy) (capacity k : ℕ)
    → 0 < capacity
    → 5 ≤ k
    → k < 32
    → capacity * 2 ^ k ≤ 2 ^ 32
    → Holds (create_region policy capacity (2 ^ k)) []
unfolding create_region init_block_size
create_region-Holds policy capacity k some_blocks low high area = record {
  shape = record {
    pow = rw (log2_of-pow k high) refl;
    mask = refl;
    big = exponent_big k low;
    area = area;
  };
  get_lt = some_blocks;
  put_at = ground arith;
  counted = refl;
  room = omega arith;
  short = tt;
  stored = tt;
}

-- On a well-formed queue, `estimate_block_count` is the least number of blocks with room for the
-- header and the message, where the 32-bit sum does not overflow.
pub estimate_least :
    (q : Queue) (n : ℕ)
    → Shape q
    → Short q n
    → (n + 32 ≤ estimate_block_count q n * q.block_size)
      × (estimate_block_count q n * q.block_size < n + 32 + q.block_size)
estimate_least q n s h = rw (estimate_lem q n s h) (
  span_room q.block_size n (omega (arith, s.big)),
  span_least q.block_size n (omega (arith, s.big)),
)

-- On a well-formed queue with a block, of at most 2 ^ 31 bytes, a message whose `uint32_t` size
-- overflows the sum is taken for one block at most, so the check of `send` against the capacity
-- does not refuse it.
pub estimate_overflows :
    (q : Queue) (n : ℕ)
    → Shape q
    → 0 < q.capacity
    → q.block_size ≤ 2 ^ 31
    → n < 2 ^ 32
    → 2 ^ 32 < n + 32 + q.block_size
    → (estimate_block_count q n ≤ 1) × (ltb q.capacity (estimate_block_count q n) ≡ false)
unfolding estimate_block_count
estimate_overflows q n s c half small big =
    let wrapped : u32 (n + 32 + q.block_size_mask) ≡ n + 31 + q.block_size - 2 ^ 32 =
      omega (arith, s.mask, s.big) in
    let one_block : (n + 31 + q.block_size - 2 ^ 32) / q.block_size ≤ 1 = grind (arith, s.big) in
    rw (wrapped, ← s.pow) (one_block, ground arith)
