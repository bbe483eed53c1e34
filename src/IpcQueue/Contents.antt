-- ===== src/IpcQueue/Contents.antt =====
-- The abstract view of the queue: the messages that it holds, oldest first.
use log.Prelude.{
  ℕ, ◌+◌, ◌-◌, ◌*◌, ◌^◌, ◌≤◌, ◌<◌, ◌≡◌, refl, ◌∙◌, sym, ap, List, [], ◌∷◌, ◌++◌, arith, leb, ◌==◌,
  Bool-cases, inl, inr, length, All, All-append,
}
use log.IpcQueue.{
  Queue, Notice, notify, advance, u32, nonempty_one, store_message, take_message, enqueue_message,
  put_message,
}
use log.IpcQueue.Ring.{ring, Agree}
use log.IpcQueue.Place.{Fits, Slot, place, place_outside, place-Slot, Slot-Agree, Slot-rebase}
use log.IpcQueue.Blocks.{
  span, span_room, span_pos, mul_mono, mul_step, sub_mul, ring-mul, Shape, Short, capacity_small,
  put_message-place,
}

-- The blocks that the messages take.
abbrev pub total : ℕ → List (List ℕ) → ℕ
total b [] = 0
total b (m ∷ ms) = span b (length m) + total b ms

-- An area of `n` blocks of `b` bytes holds the messages in sequence from logical block `p` on.
abbrev pub Stored : (ℕ → ℕ) → ℕ → ℕ → ℕ → List (List ℕ) → Type 0
Stored mem n b p [] = Unit {0}
Stored mem n b p (m ∷ ms) = Slot mem (n * b) (p * b) m × Stored mem n b (p + span b (length m)) ms

pub record Holds (q : Queue) (ms : List (List ℕ)) : Type 0 where
  pub shape : Shape q
  pub open shape use *
  pub get_lt : q.get_pos < q.capacity
  pub put_at : q.put_pos ≡ ring q.capacity (q.get_pos + q.size)
  pub counted : q.size ≡ total q.block_size ms
  pub room : q.size ≤ q.capacity
  pub short : All (λ m. Short q (length m)) ms
  pub stored : Stored q.blocks q.capacity q.block_size q.get_pos ms

pub total-append : (b : ℕ) (xs ys : List (List ℕ)) → total b (xs ++ ys) ≡ total b xs + total b ys
total-append b [] ys = omega arith
total-append b (x ∷ xs) ys = omega (arith, total-append b xs ys)

-- The blocks of one message, in bytes.
pub slot-Fits :
    (n b p k len : ℕ)
    → 32 ≤ b
    → p < n + n
    → k ≤ n
    → len + 32 ≤ k * b
    → len < 2 ^ 32
    → Fits (n * b) (ring (n * b) (p * b)) (k * b) len
slot-Fits n b p k len big h j room narrow = record {
  header =
      rw (ring-mul p n b (omega arith)) (omega (arith, mul_step (ring n p) n b (ground arith)));
  enough = room;
  room_le = mul_mono k n b j;
  narrow = narrow;
}

-- Messages stay where the area stays the same.
pub Stored-Agree :
    (mem mem' : ℕ → ℕ) (n b p : ℕ) (ms : List (List ℕ))
    → 32 ≤ b
    → n * b ≤ 2 ^ 32
    → p + total b ms ≤ n + n
    → total b ms ≤ n
    → Agree mem mem' (n * b) (p * b) ((p + total b ms) * b)
    → Stored mem n b p ms
    → Stored mem' n b p ms
Stored-Agree mem mem' n b p [] big area low fit h s = tt
Stored-Agree mem mem' n b p (m ∷ ms) big area low fit h (slot, rest) =
    let k = span b (length m) in
    let enough : length m + 32 ≤ k * b = span_room b (length m) (omega arith) in
    let positive : 0 < k = span_pos b (length m) (omega arith) in
    let below : k * b ≤ n * b = mul_mono k n b (omega arith) in
    (
      Slot-Agree mem mem' (n * b) (p * b) (k * b) m
          (slot-Fits n b p k (length m) big (omega arith) (omega arith) enough (omega arith))
          (omega (arith, mul_mono (p + k) (n + n) b (omega arith)))
          (λ a l u. h a l (omega (arith, mul_mono k (k + total b ms) b (omega arith)))) slot,
      Stored-Agree mem mem' n b (p + k) ms big area (omega arith) (omega arith)
          (λ a l u. h a (omega arith) (omega arith)) rest,
    )

pub Stored-append :
    (mem : ℕ → ℕ) (n b p : ℕ) (ms : List (List ℕ)) (m : List ℕ)
    → Stored mem n b p ms
    → Slot mem (n * b) ((p + total b ms) * b) m
    → Stored mem n b p (ms ++ m ∷ [])
Stored-append mem n b p [] m s slot = let e : p + 0 ≡ p = omega arith in (rw e at slot, tt)
Stored-append mem n b p (x ∷ xs) m (s, rest) slot =
    let e : p + (span b (length x) + total b xs) ≡ p + span b (length x) + total b xs =
      omega arith in
    (s, Stored-append mem n b (p + span b (length x)) xs m rest (rw e at slot))

-- The first block of the area again, when the oldest message has reached the end.
pub Stored-rebase :
    (mem : ℕ → ℕ) (n b p : ℕ) (ms : List (List ℕ))
    → 32 ≤ b
    → n ≤ p
    → p + total b ms ≤ n + n
    → Stored mem n b p ms
    → Stored mem n b (p - n) ms
Stored-rebase mem n b p [] big h low s = tt
Stored-rebase mem n b p (m ∷ ms) big h low (s, rest) =
    let k = span b (length m) in
    let d : p * b ≡ n * b + (p - n) * b = omega (arith, sub_mul p n b h) in
    let e : p + k - n ≡ p - n + k = omega arith in
    (
      Slot-rebase mem (n * b) ((p - n) * b) m
          (omega (
            arith,
            span_room b (length m) (omega arith),
            sub_mul p n b h,
            mul_mono (p + k) (n + n) b (omega arith),
          ))
          (rw d at s),
      rw e at (Stored-rebase mem n b (p + k) ms big (omega arith) (omega arith) rest),
    )

pub Holds-notify :
    (q : Queue) (n : Notice) (ms : List (List ℕ)) → Holds q ms → Holds (notify n q) ms
Holds-notify q n ms h = record {
  shape = record { pow = h.pow; mask = h.mask; big = h.big; area = h.area };
  get_lt = h.get_lt;
  put_at = h.put_at;
  counted = h.counted;
  room = h.room;
  short = h.short;
  stored = h.stored;
}

-- `enqueue_message` with room for the message appends it.
module _ (q : Queue) (ms : List (List ℕ)) (m : List ℕ) (h : Holds q ms) where
  abbrev k : ℕ
  k = span q.block_size (length m)

  module _ (fit : k ≤ q.capacity - q.size) (s : Short q (length m)) where
    abbrev x : ℕ
    x = (q.get_pos + q.size) * q.block_size

    put_lt : q.put_pos < q.capacity
    put_lt = ground (arith, h.put_at)

    at_x : ring (q.capacity * q.block_size) x ≡ q.put_pos * q.block_size
    at_x =
        ring-mul (q.get_pos + q.size) q.capacity q.block_size (omega (arith, h.big))
        ∙ ap (λ t. t * q.block_size) (sym h.put_at)

    fits : Fits (q.capacity * q.block_size) (q.put_pos * q.block_size) (k * q.block_size) (length m)
    fits = rw at_x at (
        slot-Fits q.capacity q.block_size (q.get_pos + q.size) k (length m) h.big (omega arith)
          (omega arith) (span_room q.block_size (length m) (omega (arith, h.big))) (omega arith))

    ends : x + k * q.block_size ≤ q.capacity * q.block_size + q.get_pos * q.block_size
    ends = omega (
      arith,
      mul_mono (q.get_pos + q.size + k) (q.capacity + q.get_pos) q.block_size (omega arith),
    )

    before : q.get_pos * q.block_size + q.block_size ≤ q.capacity * q.block_size
    before = mul_step q.get_pos q.capacity q.block_size h.get_lt

    abbrev mem : ℕ → ℕ
    mem = place (q.capacity * q.block_size) q.blocks (q.put_pos * q.block_size) (k * q.block_size) m

    kept : Stored mem q.capacity q.block_size q.get_pos ms
    kept =
        Stored-Agree q.blocks mem q.capacity q.block_size q.get_pos ms h.big h.area
          (omega (arith, h.counted)) (omega (arith, h.counted))
          (λ a l u.
            place_outside q.blocks (q.capacity * q.block_size) (q.put_pos * q.block_size)
              (k * q.block_size) m fits (ring (q.capacity * q.block_size) a)
              (let e : (q.get_pos + total q.block_size ms) * q.block_size ≡ x =
                  rw (h.counted) refl in
                ground (arith, ends, before, at_x)))
          h.stored

    added : Slot mem (q.capacity * q.block_size) x m
    added =
        place-Slot q.blocks (q.capacity * q.block_size) (q.put_pos * q.block_size)
          (k * q.block_size) m fits x at_x (omega (arith, ends, before))

    placed : Stored (put_message q q.put_pos m k) q.capacity q.block_size q.get_pos (ms ++ m ∷ [])
    placed =
        rw (put_message-place q h.shape q.put_pos k m put_lt (omega arith))
          (Stored-append mem q.capacity q.block_size q.get_pos ms m kept (rw h.counted at added))

    stored-Holds : Holds (store_message q m k) (ms ++ m ∷ [])
    stored-Holds = record {
      shape = record { pow = h.pow; mask = h.mask; big = h.big; area = h.area };
      get_lt = h.get_lt;
      put_at = ground (arith, h.put_at, capacity_small q h.shape);
      counted =
          omega (arith, h.counted, total-append q.block_size ms (m ∷ []), capacity_small q h.shape);
      room = omega (arith, capacity_small q h.shape);
      short = All-append (λ m. Short q (length m)) ms (m ∷ []) h.short (s, tt);
      stored = placed;
    }

    pub enqueue-Holds : Holds (enqueue_message q m k) (ms ++ m ∷ [])
    unfolding enqueue_message
    enqueue-Holds = elim (Bool-cases (q.size == 0)) [
      | inl e ↦ rw e (Holds-notify (store_message q m k) nonempty_one (ms ++ m ∷ []) stored-Holds)
      | inr e ↦ rw e stored-Holds
    ]

-- The queue without its oldest message.
module _ (q : Queue) (ms : List (List ℕ)) (m : List ℕ) (h : Holds q (m ∷ ms)) where
  abbrev j : ℕ
  j = span q.block_size (length m)

  pub oldest_fits : j ≤ q.size
  oldest_fits = omega (arith, h.counted)

  rest : Stored q.blocks q.capacity q.block_size (advance q q.get_pos j) ms
  rest =
      let e : u32 (q.get_pos + j) ≡ q.get_pos + j =
        omega (arith, oldest_fits, capacity_small q h.shape) in
      elim (Bool-cases (leb q.capacity (q.get_pos + j))) [
        | inl w ↦
            rw (e, w)
              (Stored-rebase q.blocks q.capacity q.block_size (q.get_pos + j) ms h.big
                (ground arith) (omega (arith, h.counted)) h.stored.1)
        | inr w ↦ rw (e, w) h.stored.1
      ]

  pub take_message-Holds : Holds (take_message q j) ms
  take_message-Holds = record {
    shape = record { pow = h.pow; mask = h.mask; big = h.big; area = h.area };
    get_lt = ground (arith, oldest_fits, capacity_small q h.shape);
    put_at = ground (arith, h.put_at, oldest_fits, capacity_small q h.shape);
    counted = omega (arith, h.counted, capacity_small q h.shape);
    room = omega (arith, h.counted, capacity_small q h.shape);
    short = h.short.1;
    stored = rest;
  }
