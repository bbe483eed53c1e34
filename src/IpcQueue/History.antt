-- ===== src/IpcQueue/History.antt =====
-- Any sequence of `send` and `receive` calls by processes that stay alive.
use log.Prelude.{
  ℕ, ◌+◌, ◌≤◌, ◌≡◌, refl, sym, ◌∙◌, ap, true, false, List, [], ◌∷◌, ◌++◌, some, arith, Bool-cases,
  inl, inr, length, ◌^◌,
}
use mathlib.Core.List.{append-nil, append_assoc}
use log.IpcQueue.{
  Queue, OverflowPolicy, block_on_overflow, fail_on_overflow, throw_on_overflow, Outcome, Handler,
  succeeded, no_space, aborted, dequeue_message, send, receive, send_locked, enqueue_message,
  lock_queue, clear_queue, taken,
}
use log.IpcQueue.Contents.{Holds}
use log.IpcQueue.Sending.{send_refines, spec_send}
use log.IpcQueue.Receiving.{feed, receive_oldest, receive_empty}

pub data Call : Type 0 where
  sends : List ℕ → Call
  receives : Call

-- `container_receive_handler`: the part is appended to the container.
unfoldable pub append_handler : Handler (List ℕ)
append_handler container part = some (container ++ part)

-- The state, the messages accepted and the messages delivered.
abbrev pub Trace : Type 0
Trace = Queue × List (List ℕ) × List (List ℕ)

abbrev after_send : Queue × Outcome → List ℕ → Trace
after_send (q, succeeded) m = (q, m ∷ [], [])
after_send (q, _) m = (q, [], [])

abbrev after_receive : Queue × Outcome × List ℕ → Trace
after_receive (q, succeeded, m) = (q, [], m ∷ [])
after_receive (q, _, m) = (q, [], [])

unfoldable pub step : Queue → Call → Trace
step q (sends m) = after_send (send q m) m
step q receives = after_receive (receive append_handler q [])

unfoldable pub run : Queue → List Call → Trace
run q [] = (q, [], [])
run q (c ∷ cs) =
    let (r, accepted, delivered) = step q c in
    let (t, accepted', delivered') = run r cs in (t, accepted ++ accepted', delivered ++ delivered')

abbrev pub Sane : ℕ → List Call → Type 0
Sane b [] = Unit {0}
Sane b (sends m ∷ cs) = (length m + 32 + b ≤ 2 ^ 32) × Sane b cs
Sane b (receives ∷ cs) = Sane b cs

-- The queue is not owned by a dead process and holds the messages.
pub record Live (b : ℕ) (q : Queue) (ms : List (List ℕ)) : Type 0 where
  pub holds : Holds q ms
  pub alive : q.owner_dead ≡ false
  pub block : q.block_size ≡ b

abbrev Stepped : ℕ → List (List ℕ) → Trace → Type 0
Stepped b ms (q, accepted, delivered) =
    (rest : List (List ℕ)) × Live b q rest × (ms ++ accepted ≡ delivered ++ rest)

send_same :
    (q : Queue) (m : List ℕ)
    → q.owner_dead ≡ false
    → ((send q m).0.owner_dead ≡ false) × ((send q m).0.block_size ≡ q.block_size)
unfolding send send_locked enqueue_message lock_queue clear_queue
send_same q m e = ground arith

-- A live queue accepts the message, or keeps what it has.
abbrev Adds : List (List ℕ) → List ℕ → List (List ℕ) → Outcome → Type 0
Adds ms m ms' succeeded = ms' ≡ ms ++ m ∷ []
Adds ms m ms' _ = ms' ≡ ms

spec_send-Adds :
    (q : Queue) (ms : List (List ℕ)) (m : List ℕ)
    → q.owner_dead ≡ false
    → Adds ms m (spec_send q ms m).0 (spec_send q ms m).1
spec_send-Adds q ms m alive = go q.overflow_policy alive
  where
    go :
        (p : OverflowPolicy)
        → q.owner_dead ≡ false
        → Adds ms m
            (spec_send (record q { overflow_policy = p }) ms m).0
            (spec_send (record q { overflow_policy = p }) ms m).1
    go block_on_overflow e = ground arith
    go fail_on_overflow e = ground arith
    go throw_on_overflow e = ground arith

sent-Stepped :
    (b : ℕ) (q : Queue) (o : Outcome) (ms ms' : List (List ℕ)) (m : List ℕ)
    → Live b q ms'
    → Adds ms m ms' o
    → Stepped b ms (after_send (q, o) m)
sent-Stepped b q succeeded ms ms' m v e = (ms', v, sym e)
sent-Stepped b q no_space ms ms' m v e = (ms', v, append-nil ms ∙ sym e)
sent-Stepped b q _ ms ms' m v e = (ms', v, append-nil ms ∙ sym e)

send-Stepped :
    (b : ℕ) (q : Queue) (ms : List (List ℕ)) (m : List ℕ)
    → Live b q ms
    → length m + 32 + b ≤ 2 ^ 32
    → Stepped b ms (after_send (send q m) m)
send-Stepped b q ms m v h =
    let (holds, e) = send_refines q ms m v.holds (rw v.block h) in
    let (alive, block) = send_same q m v.alive in
    sent-Stepped b (send q m).0 (send q m).1 ms (spec_send q ms m).0 m
      (record { holds = holds; alive = alive; block = block ∙ v.block })
      (rw e (spec_send-Adds q ms m v.alive))

receive_same :
    (q : Queue) (s : List ℕ)
    → q.owner_dead ≡ false
    → ((receive append_handler q s).0.owner_dead ≡ false)
      × ((receive append_handler q s).0.block_size ≡ q.block_size)
unfolding receive dequeue_message taken lock_queue clear_queue
receive_same q s e = ground arith

feed-append : (xs ys : List ℕ) → feed append_handler xs ys [] ≡ some (xs ++ ys)
unfolding append_handler
feed-append xs [] = rw append-nil refl
feed-append xs (y ∷ ys) = refl

stopped_receive :
    (q : Queue) (s : List ℕ) → q.stop ≡ true → receive append_handler q s ≡ (q, aborted, s)
unfolding receive
stopped_receive q s e = simp e

receive-Stepped :
    (b : ℕ) (q : Queue) (ms : List (List ℕ))
    → Live b q ms
    → Stepped b ms (after_receive (receive append_handler q []))
receive-Stepped b q ms v = elim (Bool-cases q.stop) [
  | inl e ↦ rw (stopped_receive q [] e) (ms, v, append-nil ms)
  | inr e ↦ running ms v e
]
  where
    running :
        (ms : List (List ℕ))
        → Live b q ms
        → q.stop ≡ false
        → Stepped b ms (after_receive (receive append_handler q []))
    running [] v e =
        let w = receive_empty append_handler q [] v.holds v.alive in rw w (simp e ([], v, refl))
    running (m ∷ ms) v e =
        let (xs, ys, whole, result) = receive_oldest append_handler q m ms [] v.holds e v.alive in
        let (alive, block) = receive_same q [] v.alive in
        elim result [
          | inl (broken, _) ↦ absurd (ground (arith, feed-append xs ys))
          | inr (r, t, fed, done, holds) ↦
              let same : t ≡ m = ground (arith, feed-append xs ys) in
              let alive' : r.owner_dead ≡ false = rw done at alive in
              let block' : r.block_size ≡ q.block_size = rw done at block in
              rw done (
                ms,
                record { holds = holds; alive = alive'; block = block' ∙ v.block },
                rw same (ap (λ z. m ∷ z) (append-nil ms)),
              )
        ]

step-Stepped :
    (b : ℕ) (q : Queue) (ms : List (List ℕ)) (c : Call)
    → Live b q ms
    → Sane b (c ∷ [])
    → Stepped b ms (step q c)
unfolding step
step-Stepped b q ms (sends m) v (h, _) = send-Stepped b q ms m v h
step-Stepped b q ms receives v h = receive-Stepped b q ms v

-- First in, first out, through the ring, on a well-formed queue whose mutex's owner is alive: whatever calls are made in whatever order, the messages
-- delivered and then those left are the messages that were there and then those accepted. The
-- messages are assumed short enough for the 32-bit sums.
pub run_fifo :
    (b : ℕ) (q : Queue) (ms : List (List ℕ)) (cs : List Call)
    → Live b q ms
    → Sane b cs
    → (rest : List (List ℕ)) × Live b (run q cs).0 rest
      × (ms ++ (run q cs).1 ≡ (run q cs).2 ++ rest)
unfolding run
run_fifo b q ms [] v h = (ms, v, append-nil ms)
run_fifo b q ms (c ∷ cs) v h =
    let (mid, v', e) = step-Stepped b q ms c v (first c cs h) in
    let (rest, w, f) = run_fifo b (step q c).0 mid cs v' (later c cs h) in
    (rest, w, chain mid rest e f)
  where
    first : (c : Call) (cs : List Call) → Sane b (c ∷ cs) → Sane b (c ∷ [])
    first (sends m) cs (h, _) = (h, tt)
    first receives cs h = tt

    later : (c : Call) (cs : List Call) → Sane b (c ∷ cs) → Sane b cs
    later (sends m) cs (_, h) = h
    later receives cs h = h

    chain :
        (mid rest : List (List ℕ))
        → ms ++ (step q c).1 ≡ (step q c).2 ++ mid
        → mid ++ (run (step q c).0 cs).1 ≡ (run (step q c).0 cs).2 ++ rest
        → ms ++ ((step q c).1 ++ (run (step q c).0 cs).1)
          ≡ ((step q c).2 ++ (run (step q c).0 cs).2) ++ rest
    chain mid rest e f =
        sym (append_assoc ms (step q c).1 (run (step q c).0 cs).1)
        ∙ ap (λ l. l ++ (run (step q c).0 cs).1) e
        ∙ append_assoc (step q c).2 mid (run (step q c).0 cs).1
        ∙ ap (◌++◌ (step q c).2) f
        ∙ sym (append_assoc (step q c).2 (run (step q c).0 cs).2 rest)
