-- ===== src/IpcQueue/Blocks.antt =====
-- Block positions and byte offsets: what the 32-bit arithmetic of the queue computes while the
-- block area is no larger than 2 ^ 32 bytes.
use log.Prelude.{
  ℕ, ◌+◌, ◌-◌, ◌*◌, ◌/◌, ◌^◌, ◌≤◌, ◌<◌, ◌≡◌, refl, ap, List, arith, ltb, leb, Bool-cases, inl, inr,
}
use log.IpcQueue.{Queue, u32, sub32, contiguous, estimate_block_count, put_message}
use log.IpcQueue.Ring.{ring}
use log.IpcQueue.Place.{place}

-- ceil((n + 32) / b)
unfoldable pub span : ℕ → ℕ → ℕ
span b n = (n + 32 + (b - 1)) / b

pub span_room : (b n : ℕ) → 0 < b → n + 32 ≤ span b n * b
unfolding span
span_room b n h = grind arith

-- One block less would not do.
pub span_least : (b n : ℕ) → 0 < b → span b n * b < n + 32 + b
unfolding span
span_least b n h = grind arith

pub span_pos : (b n : ℕ) → 0 < b → 0 < span b n
span_pos b n h = grind (arith, span_room b n h)

pub mul_mono : (a b n : ℕ) → a ≤ b → a * n ≤ b * n
mul_mono a b n h = grind arith

pub mul_step : (a b n : ℕ) → a < b → a * n + n ≤ b * n
mul_step a b n h = grind arith

pub sub_mul : (a b n : ℕ) → b ≤ a → (a - b) * n + b * n ≡ a * n
sub_mul a b n h = let e : a - b + b ≡ a = omega arith in omega (arith, ap (λ t. t * n) e)

-- Positions and offsets compare alike.
leb-mul : (a b n : ℕ) → 0 < n → leb a b ≡ leb (a * n) (b * n)
leb-mul a b n h = elim (Bool-cases (leb a b)) [
  | inl e ↦ rw e (ground (arith, mul_mono a b n))
  | inr e ↦ rw e (ground (arith, mul_step b a n))
]

pub ring-mul : (p n b : ℕ) → 0 < b → ring (n * b) (p * b) ≡ ring n p * b
ring-mul p n b h = elim (Bool-cases (ltb p n)) [
  | inl e ↦ ground (arith, mul_step p n b)
  | inr e ↦ ground (arith, mul_mono n p b, sub_mul p n b)
]

pub record Shape (q : Queue) : Type 0 where
  pub pow : q.block_size ≡ 2 ^ q.block_size_log2
  pub mask : q.block_size_mask ≡ q.block_size - 1
  pub big : 32 ≤ q.block_size
  pub area : q.capacity * q.block_size ≤ 2 ^ 32

-- A message whose size does not overflow `estimate_block_count`.
abbrev pub Short : Queue → ℕ → Type 0
Short q n = n + 32 + q.block_size ≤ 2 ^ 32

pub estimate_lem :
    (q : Queue) (n : ℕ) → Shape q → Short q n → estimate_block_count q n ≡ span q.block_size n
unfolding estimate_block_count span
estimate_lem q n s h =
    let e : u32 (n + 32 + q.block_size_mask) ≡ n + 32 + (q.block_size - 1) = omega arith in
    rw (e, ← s.pow) refl

module _ (q : Queue) (s : Shape q) where
  pub capacity_small : q.capacity * 32 ≤ 2 ^ 32
  capacity_small = grind (arith, mul_mono 32 q.block_size q.capacity)

  pub contiguous_lem :
      (pos : ℕ)
      → pos < q.capacity
      → contiguous q pos ≡ q.capacity * q.block_size - pos * q.block_size - 32
  contiguous_lem pos h =
      let e : sub32 q.capacity pos ≡ q.capacity - pos = omega (arith, capacity_small) in
      rw e (
        omega (
          arith,
          s.big,
          s.area,
          sub_mul q.capacity pos q.block_size (omega arith),
          mul_step pos q.capacity q.block_size h,
        ))

  pub wraps_lem :
      (pos k : ℕ)
      → pos < q.capacity
      → k ≤ q.capacity
      → leb q.capacity (u32 (pos + k))
        ≡ leb (q.capacity * q.block_size) (pos * q.block_size + k * q.block_size)
  wraps_lem pos k h j =
      let e : u32 (pos + k) ≡ pos + k = omega (arith, capacity_small) in
      let f : (pos + k) * q.block_size ≡ pos * q.block_size + k * q.block_size = omega arith in
      rw (e, ← f) (leb-mul q.capacity (pos + k) q.block_size (omega (arith, s.big)))

  pub put_message-place :
      (pos k : ℕ) (message : List ℕ)
      → pos < q.capacity
      → k ≤ q.capacity
      → put_message q pos message k
        ≡ place (q.capacity * q.block_size) q.blocks (pos * q.block_size) (k * q.block_size) message
  unfolding put_message place
  put_message-place pos k message h j = rw (contiguous_lem pos h, wraps_lem pos k h j) refl
