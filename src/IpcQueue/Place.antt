-- ===== src/IpcQueue/Place.antt =====
-- A message in the ring: its size and its bytes behind the header, as `enqueue_message` copies it
-- in and `dequeue_message` copies it out, over byte offsets instead of block positions.
use log.Prelude.{
  ℕ, ◌+◌, ◌-◌, ◌^◌, ◌≤◌, ◌<◌, ◌≡◌, refl, ◌∙◌, ◌⊎◌, inl, inr, min, List, ◌++◌, arith, leb,
  if◌then◌else◌, Bool-cases, length, take, drop, length-take, length-drop, take-append-drop,
}
use log.IpcQueue.Memory.{write, read, store_size, load_size, write_outside}
use log.IpcQueue.Ring.{
  ring, Bytes, Agree, Bytes-Agree, Bytes-append, Bytes-left, Bytes-right, Bytes-rebase, Bytes-empty,
  Bytes-write, read_lem,
}

-- The part of a message that fits before the end of the area.
abbrev pub before_end : ℕ → ℕ → List ℕ → ℕ
before_end c head message = min (c - head - 32) (length message)

-- The copies, for a message whose blocks take `room` bytes from `head` on.
unfoldable pub place : ℕ → (ℕ → ℕ) → ℕ → ℕ → List ℕ → ℕ → ℕ
place c m head room message =
    let n = before_end c head message in
    let first = write (store_size m head (length message)) (head + 32) (take n message) in
    if leb c (head + room) then write first 0 (drop n message) else first

-- The area holds the message at logical address `x`.
pub record Slot (m : ℕ → ℕ) (c x : ℕ) (message : List ℕ) : Type 0 where
  pub size : load_size m (ring c x) ≡ length message
  pub bytes : Bytes m c (x + 32) message

-- Where the blocks lie: a header does not run over the end, and all blocks together fit.
pub record Fits (c head room n : ℕ) : Type 0 where
  pub header : head + 32 ≤ c
  pub enough : n + 32 ≤ room
  pub room_le : room ≤ c
  pub narrow : n < 2 ^ 32

store_outside : (m : ℕ → ℕ) (o n a : ℕ) → (a < o) ⊎ (o + 4 ≤ a) → store_size m o n a ≡ m a
unfolding store_size
store_outside m o n a h = write_outside m o _ a h

load-store : (m : ℕ → ℕ) (o n : ℕ) → n < 2 ^ 32 → load_size (store_size m o n) o ≡ n
unfolding load_size store_size write
load-store m o n h = ground arith

pub load-eq :
    (m m' : ℕ → ℕ) (o : ℕ)
    → ((a : ℕ) → o ≤ a → a < o + 4 → m' a ≡ m a)
    → load_size m' o ≡ load_size m o
unfolding load_size
load-eq m m' o h = omega (
  arith,
  h o (omega arith) (omega arith),
  h (o + 1) (omega arith) (omega arith),
  h (o + 2) (omega arith) (omega arith),
  h (o + 3) (omega arith) (omega arith),
)

module _ (m : ℕ → ℕ) (c head room : ℕ) (message : List ℕ)
    (f : Fits c head room (length message)) where
  abbrev n : ℕ
  n = before_end c head message

  abbrev first : ℕ → ℕ
  first = write (store_size m head (length message)) (head + 32) (take n message)

  -- A byte that belongs to none of the blocks.
  abbrev pub Apart : ℕ → Type 0
  Apart a = ((a < head) × (head + room ≤ a + c)) ⊎ ((head + room ≤ a) × (a < c))

  first_outside : (a : ℕ) → (a < head) ⊎ (head + room ≤ a) → first a ≡ m a
  first_outside a h =
      write_outside _ (head + 32) (take n message) a (grind (arith, length-take n message))
      ∙ store_outside m head (length message) a (grind arith)

  pub place_outside : (a : ℕ) → Apart a → place c m head room message a ≡ m a
  unfolding place
  place_outside a h = elim (Bool-cases (leb c (head + room))) [
    | inl e ↦ rw e (
        write_outside first 0 (drop n message) a (grind (arith, length-drop n message))
        ∙ first_outside a (grind arith))
    | inr e ↦ rw e (first_outside a (grind arith))
  ]

  -- The second copy touches nothing from the header on.
  tail_outside : (a : ℕ) → head ≤ a → place c m head room message a ≡ first a
  unfolding place
  tail_outside a h = elim (Bool-cases (leb c (head + room))) [
    | inl e ↦ rw e (write_outside first 0 (drop n message) a (grind (arith, length-drop n message)))
    | inr e ↦ rw e refl
  ]

  pub place-head : load_size (place c m head room message) head ≡ length message
  place-head =
      load-eq (store_size m head (length message)) _ head (λ a p q.
        tail_outside a p ∙ write_outside _ (head + 32) (take n message) a (inl (omega arith)))
      ∙ load-store m head (length message) f.narrow

  module _ (x : ℕ) (at_x : ring c x ≡ head) (low : x + room ≤ c + c) where
    first-Bytes : Bytes (place c m head room message) c (x + 32) (take n message)
    first-Bytes =
        Bytes-Agree first (place c m head room message) c (x + 32) (take n message)
          (λ a p q. tail_outside (ring c a) (ground (arith, length-take n message)))
          (Bytes-write _ c (x + 32) (head + 32) (take n message)
            (ground (arith, length-take n message)))

    tail-Bytes :
        Bytes (place c m head room message) c (x + 32 + length (take n message)) (drop n message)
    unfolding place
    tail-Bytes = elim (Bool-cases (leb c (head + room))) [
      | inl e ↦ rw e (
          Bytes-write first c _ 0 (drop n message)
            (ground (arith, length-take n message, length-drop n message)))
      | inr e ↦
          Bytes-empty (place c m head room message) c (x + 32 + length (take n message))
            (drop n message) (grind (arith, length-drop n message))
    ]

    -- The area then holds the message.
    pub place-Slot : Slot (place c m head room message) c x message
    place-Slot = record {
      size = rw at_x place-head;
      bytes =
          let e = take-append-drop n message in
          let h =
            Bytes-append (place c m head room message) c (x + 32) (take n message) (drop n message)
              first-Bytes tail-Bytes in
          rw e at h;
    }

-- The bytes come out again in the same two parts.
module _ (m : ℕ → ℕ) (c head room x : ℕ) (message : List ℕ) (f : Fits c head room (length message))
    (at_x : ring c x ≡ head) (low : x + room ≤ c + c) (s : Slot m c x message) where
  abbrev split : ℕ
  split = before_end c head message

  halves : Bytes m c (x + 32) (take split message ++ drop split message)
  halves = rw take-append-drop s.bytes

  pub read_first : read m (head + 32) split ≡ take split message
  read_first =
      let e : length (take split message) ≡ split = omega (arith, length-take split message) in
      let h =
        read_lem m c (x + 32) (head + 32) (take split message)
          (ground (arith, length-take split message))
          (Bytes-left m c (x + 32) (take split message) (drop split message) halves) in
      rw e at h

  pub read_rest :
      (c ≤ head + room) ⊎ (split ≡ length message)
      → read m 0 (length message - split) ≡ drop split message
  read_rest w =
      let e : length (drop split message) ≡ length message - split = length-drop split message in
      let h =
        read_lem m c (x + 32 + length (take split message)) 0 (drop split message)
          (ground (arith, length-take split message, length-drop split message))
          (Bytes-right m c (x + 32) (take split message) (drop split message) halves) in
      rw e at h

pub Slot-Agree :
    (m m' : ℕ → ℕ) (c x room : ℕ) (message : List ℕ)
    → Fits c (ring c x) room (length message)
    → x + room ≤ c + c
    → Agree m m' c x (x + room)
    → Slot m c x message
    → Slot m' c x message
Slot-Agree m m' c x room message f low h s = record {
  size = load-eq m m' (ring c x) (λ a p q. same a p q) ∙ s.size;
  bytes = Bytes-Agree m m' c (x + 32) message (λ a p q. h a (omega arith) (omega arith)) s.bytes;
}
  where
    same : (a : ℕ) → ring c x ≤ a → a < ring c x + 4 → m' a ≡ m a
    same a p q =
        let e : ring c (x + (a - ring c x)) ≡ a = ground arith in
        rw e at (h (x + (a - ring c x)) (omega arith) (omega arith))

pub Slot-rebase :
    (m : ℕ → ℕ) (c x : ℕ) (message : List ℕ)
    → x + 32 + length message ≤ c
    → Slot m c (c + x) message
    → Slot m c x message
Slot-rebase m c x message h s =
    let same : ring c (c + x) ≡ ring c x = ground arith in
    let next : c + x + 32 ≡ c + (x + 32) = omega arith in
    record {
      size = rw same at s.size;
      bytes = Bytes-rebase m c (x + 32) message h (rw next at s.bytes);
    }
