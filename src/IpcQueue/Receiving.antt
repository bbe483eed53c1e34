-- ===== src/IpcQueue/Receiving.antt =====
-- `receive` and `try_receive` against the list of messages that the queue holds.
use log.Prelude.{
  ℕ, ◌+◌, ◌-◌, ◌*◌, ◌≤◌, ◌<◌, ◌⊎◌, ◌≡◌, refl, ◌∙◌, true, false, List, [], ◌∷◌, ◌++◌, Option, none,
  some, arith, ltb, leb, ◌&&◌, if◌then◌else◌, Option-cases, inl, inr, length, take, drop,
  take-append-drop, length-drop, min,
}
use log.IpcQueue.{
  Queue, Handler, succeeded, aborted, waiting, handler_failed, nonfull_all, notify, u32, contiguous,
  take_message, taken, finish, deliver, dequeue_message, receive,
}
use log.IpcQueue.Memory.{read, load_size}
use log.IpcQueue.Ring.{ring}
use log.IpcQueue.Place.{Slot, Fits, before_end, read_first, read_rest}
use log.IpcQueue.Blocks.{
  span, span_room, span_pos, estimate_lem, contiguous_lem, wraps_lem, mul_step,
}
use log.IpcQueue.Contents.{Holds, slot-Fits, oldest_fits, take_message-Holds, Holds-notify}
use log.IpcQueue.Sending.{lock_queue_alive}

-- A message handed over in one part, or in two where it runs over the end of the area.
abbrev pub feed : {S : Type 0} → Handler S → List ℕ → List ℕ → S → Option S
feed handler xs [] s = handler s xs
feed handler xs (y ∷ ys) s = elim (handler s xs) [ none ↦ none | some t ↦ handler t (y ∷ ys) ]

finish-true :
    {S : Type 0} (g : S → Option S) (o : Option S)
    → finish true g o ≡ elim o [ none ↦ none | some t ↦ g t ]
unfolding finish
finish-true g none = refl
finish-true g (some t) = refl

finish-false : {S : Type 0} (g : S → Option S) (o : Option S) → finish false g o ≡ o
unfolding finish
finish-false g none = refl
finish-false g (some t) = refl

finish-feed :
    {S : Type 0} (handler : Handler S) (xs ys zs : List ℕ) (s : S)
    → (ltb 0 (length ys) ≡ true → zs ≡ ys)
    → finish (ltb 0 (length ys)) (λ t. handler t zs) (handler s xs) ≡ feed handler xs ys s
finish-feed handler xs [] zs s e = finish-false _ _
finish-feed handler xs (y ∷ ys) zs s e =
    let test : ltb 0 (length (y ∷ ys)) ≡ true = ground arith in
    rw (test, e test) (finish-true (λ t. handler t (y ∷ ys)) (handler s xs))

module _ (q : Queue) (ms : List (List ℕ)) (m : List ℕ) (h : Holds q (m ∷ ms)) where
  abbrev c : ℕ
  c = q.capacity * q.block_size

  abbrev head : ℕ
  head = q.get_pos * q.block_size

  abbrev k : ℕ
  k = span q.block_size (length m)

  abbrev split : ℕ
  split = before_end c head m

  at_head : ring c head ≡ head
  at_head = ground (arith, mul_step q.get_pos q.capacity q.block_size h.get_lt, h.big)

  slot : Slot q.blocks c head m
  slot = h.stored.0

  fits : Fits c head (k * q.block_size) (length m)
  fits = rw at_head at (
      slot-Fits q.capacity q.block_size q.get_pos k (length m) h.big (omega (arith, h.get_lt))
        (omega (arith, oldest_fits q ms m h, h.room))
        (span_room q.block_size (length m) (omega (arith, h.big))) (omega (arith, h.short.0)))

  -- The size in the header of the oldest block.
  pub oldest_size : load_size q.blocks head ≡ length m
  oldest_size = rw at_head at slot.size

  low : head + k * q.block_size ≤ c + c
  low = omega (arith, fits.room_le, mul_step q.get_pos q.capacity q.block_size h.get_lt)

  split_lem : min (contiguous q q.get_pos) (length m) ≡ split
  split_lem = rw (contiguous_lem q h.shape q.get_pos h.get_lt) refl

  first_part : read q.blocks (head + 32) split ≡ take split m
  first_part = read_first q.blocks c head (k * q.block_size) head m fits at_head low slot

  second_part :
      (c ≤ head + k * q.block_size) ⊎ (split ≡ length m)
      → read q.blocks 0 (length m - split) ≡ drop split m
  second_part = read_rest q.blocks c head (k * q.block_size) head m fits at_head low slot

  tail_test :
      (leb q.capacity (u32 (q.get_pos + k)) && ltb 0 (length m - split))
      ≡ ltb 0 (length (drop split m))
  tail_test =
      rw
        (
          wraps_lem q h.shape q.get_pos k h.get_lt (omega (arith, oldest_fits q ms m h, h.room)),
          length-drop split m,
        )
        (ground (arith, fits.enough, fits.header))

  second_read :
      ltb 0 (length (drop split m)) ≡ true → read q.blocks 0 (length m - split) ≡ drop split m
  second_read e = second_part (inl (ground (arith, length-drop split m, fits.enough, fits.header)))

  module _ {S : Type 0} (handler : Handler S) where
    pub deliver_lem :
        (s : S)
        → deliver handler q q.get_pos (length m) k s ≡ feed handler (take split m) (drop split m) s
    unfolding deliver
    deliver_lem s =
        rw (split_lem, first_part, tail_test)
          (finish-feed handler (take split m) (drop split m) _ s second_read)

    -- `dequeue_message` hands over the oldest message, in the two parts that the ring splits it
    -- into, and moves past it; where the handler throws, the queue stays as it is.
    pub dequeue_lem :
        (s : S)
        → dequeue_message handler q s ≡ taken q k s (feed handler (take split m) (drop split m) s)
    unfolding dequeue_message
    dequeue_lem s =
        rw (oldest_size, estimate_lem q (length m) h.shape h.short.0, deliver_lem s) refl

    pub next_lem : Holds (notify nonfull_all (take_message q k)) ms
    next_lem = Holds-notify (take_message q k) nonfull_all ms (take_message-Holds q ms m h)

-- A queue that holds a message is not empty.
pub size_pos : (q : Queue) (m : List ℕ) (ms : List (List ℕ)) → Holds q (m ∷ ms) → 0 < q.size
size_pos q m ms h = omega (arith, h.counted, span_pos q.block_size (length m), h.big)

receive-dequeue :
    {S : Type 0} (handler : Handler S) (q : Queue) (m : List ℕ) (ms : List (List ℕ)) (s : S)
    → Holds q (m ∷ ms)
    → q.stop ≡ false
    → q.owner_dead ≡ false
    → receive handler q s ≡ dequeue_message handler q s
unfolding receive
receive-dequeue handler q m ms s h running alive =
    let some_left : ltb 0 q.size ≡ true = ground (arith, size_pos q m ms h) in
    rw (lock_queue_alive q alive, some_left) (simp running)

-- `receive` on a queue that holds a message, is not stopped and whose mutex's owner is alive: some
-- split of the oldest message is handed over, part by part. If the handler accepts it, the memory holds the other messages; if
-- the handler throws, the queue is as it was and the message is not lost.
pub receive_oldest :
    {S : Type 0} (handler : Handler S) (q : Queue) (m : List ℕ) (ms : List (List ℕ)) (s : S)
    → Holds q (m ∷ ms)
    → q.stop ≡ false
    → q.owner_dead ≡ false
    → (xs ys : List ℕ) × (xs ++ ys ≡ m)
      × (((feed handler xs ys s ≡ none) × (receive handler q s ≡ (q, handler_failed, s)))
          ⊎ ((r : Queue) × (t : S) × (feed handler xs ys s ≡ some t)
              × (receive handler q s ≡ (r, succeeded, t))
              × Holds r ms))
unfolding taken
receive_oldest {S} handler q m ms s h running alive = (
  take n m,
  drop n m,
  take-append-drop n m,
  elim (Option-cases fed) [
    | inl e ↦ inl (e, through ∙ result none e)
    | inr (t, e) ↦ inr (_, t, e, through ∙ result (some t) e, next_lem q ms m h handler)
  ],
)
  where
    n : ℕ
    n = before_end (q.capacity * q.block_size) (q.get_pos * q.block_size) m

    fed : Option S
    fed = feed handler (take n m) (drop n m) s

    through : receive handler q s ≡ taken q (span q.block_size (length m)) s fed
    through = receive-dequeue handler q m ms s h running alive ∙ dequeue_lem q ms m h handler s

    result :
        (o : Option S)
        → fed ≡ o
        → taken q (span q.block_size (length m)) s fed ≡ taken q (span q.block_size (length m)) s o
    result o e = rw e refl

-- `receive` on an empty queue, the mutex's owner alive, changes nothing: it waits, or is aborted
-- where the queue is stopped.
pub receive_empty :
    {S : Type 0} (handler : Handler S) (q : Queue) (s : S)
    → Holds q []
    → q.owner_dead ≡ false
    → receive handler q s ≡ (q, (if q.stop then aborted else waiting), s)
unfolding receive
receive_empty handler q s h alive =
    let none_left : ltb 0 q.size ≡ false = ground (arith, h.counted) in
    rw (lock_queue_alive q alive, none_left) (ground arith)
