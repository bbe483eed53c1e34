-- ===== src/IpcQueue/Memory.antt =====
-- Bytes of the mapped region: `memcpy` in both directions, and the size member of a block header.
use log.Prelude.{
  ℕ, zero, suc, ◌+◌, ◌*◌, ◌/◌, ◌%◌, ◌≤◌, ◌<◌, ◌≡◌, refl, ◌⊎◌, List, [], ◌∷◌, arith, ◌==◌,
  if◌then◌else◌, length,
}

-- `memcpy` into the region, at an offset.
unfoldable pub write : (ℕ → ℕ) → ℕ → List ℕ → ℕ → ℕ
write m o [] a = m a
write m o (b ∷ bs) a = if a == o then b else write m (o + 1) bs a

-- `memcpy` out of it.
unfoldable pub read : (ℕ → ℕ) → ℕ → ℕ → List ℕ
read m o zero = []
read m o (suc n) = m o ∷ read m (o + 1) n

abbrev size_bytes : ℕ → List ℕ
size_bytes n = (n % 256) ∷ (n / 256 % 256) ∷ (n / 65536 % 256) ∷ (n / 16777216 % 256) ∷ []

-- `block->m_size = n`
unfoldable pub store_size : (ℕ → ℕ) → ℕ → ℕ → ℕ → ℕ
store_size m o n = write m o (size_bytes n)

-- `block->m_size`
unfoldable pub load_size : (ℕ → ℕ) → ℕ → ℕ
load_size m o = m o + 256 * m (o + 1) + 65536 * m (o + 2) + 16777216 * m (o + 3)

-- A byte outside the range that is written stays.
pub write_outside :
    (m : ℕ → ℕ) (o : ℕ) (bs : List ℕ) (a : ℕ) → (a < o) ⊎ (o + length bs ≤ a) → write m o bs a ≡ m a
unfolding write
write_outside m o [] a h = refl
write_outside m o (b ∷ bs) a h = ground (arith, write_outside m (o + 1) bs a)
