-- ===== src/IpcQueue/Stopping.antt =====
-- `stop_local`, `reset_local` and `clear`, and the calls that do not block.
use log.Prelude.{
  ℕ, ◌≡◌, refl, Bool, true, false, List, [], ◌∷◌, Option, none, some, arith, ltb, ◌==◌, Bool-cases,
  sym, ap, ◌∙◌, not, ◌&&◌, if◌then◌else◌, inl, inr, length,
}
use log.IpcQueue.{
  Queue, Outcome, succeeded, aborted, waiting, message_too_big, notify, nonempty_all, nonfull_all,
  Handler, lock_queue, estimate_block_count, send, send_locked, try_send, try_send_locked, receive,
  receive_locked, try_receive_locked, receive_during, try_receive_during, receive, try_receive,
  stop_local, reset_local, clear, clear_queue, taken, dequeue_message, overflow_outcome,
  OverflowPolicy, block_on_overflow, fail_on_overflow, throw_on_overflow,
}
use log.IpcQueue.Contents.{Holds, Holds-notify}
use log.IpcQueue.Sending.{
  survivors, lock_queue-Holds, lock_queue_same, lock_queue_alive, clear_queue-Holds,
}
use log.IpcQueue.Receiving.{size_pos}
use log.IpcQueue.History.{Call, sends, receives, step, run}

-- What `try_send` gives for an outcome of `send`.
abbrev pub try_result : Outcome → Option Bool
try_result succeeded = some true
try_result message_too_big = none
try_result _ = some false

no_space_result : (policy : OverflowPolicy) → some false ≡ try_result (overflow_outcome policy)
no_space_result block_on_overflow = refl
no_space_result fail_on_overflow = refl
no_space_result throw_on_overflow = refl

try_send_locked_lem :
    (q : Queue) (m : List ℕ) (k : ℕ)
    → try_send_locked q m k ≡ ((send_locked q m k).0, try_result (send_locked q m k).1)
unfolding try_send_locked send_locked
try_send_locked_lem q m k = ground (arith, no_space_result q.overflow_policy)

-- `try_send` does to the queue what `send` does up to its first wait, for every queue and every
-- message: it returns `true` where `send` succeeds, throws where the message is too big, and
-- returns `false` otherwise.
pub try_send-send :
    (q : Queue) (m : List ℕ) → try_send q m ≡ ((send q m).0, try_result (send q m).1)
unfolding try_send send
try_send-send q m =
    ground (arith, try_send_locked_lem (lock_queue q) m (estimate_block_count q (length m)))

-- What `try_receive` gives for an outcome of `receive`.
abbrev pub try_outcome : Outcome → Outcome
try_outcome waiting = aborted
try_outcome o = o

abbrev pub try_answer : {S : Type 0} → Queue × Outcome × S → Queue × Outcome × S
try_answer (q, o, s) = (q, try_outcome o, s)

taken-try_answer :
    {S : Type 0} (q : Queue) (k : ℕ) (s : S) (r : Option S)
    → taken q k s r ≡ try_answer (taken q k s r)
unfolding taken
taken-try_answer q k s none = refl
taken-try_answer q k s (some t) = refl

dequeue-try_answer :
    {S : Type 0} (handler : Handler S) (q : Queue) (s : S)
    → dequeue_message handler q s ≡ try_answer (dequeue_message handler q s)
unfolding dequeue_message
dequeue-try_answer handler q s = taken-try_answer _ _ _ _

try_answer_if :
    {S : Type 0} (stop : Bool) (x y z : Queue × Outcome × S)
    → try_answer x ≡ x
    → try_answer y ≡ z
    → try_answer (if stop then x else y) ≡ (if stop then x else z)
try_answer_if true x y z h k = h
try_answer_if false x y z h k = k

if_again :
    {A : Type 0} (stop late : Bool) (x y z : A)
    → (if stop then x else (if late then y else z))
      ≡ (if not stop && late then y else (if stop then x else z))
if_again true late x y z = refl
if_again false true x y z = refl
if_again false false x y z = refl

not_both : (b : Bool) → (not b && b) ≡ false
not_both true = refl
not_both false = refl

module _ {S : Type 0} (handler : Handler S) where
  locked_answer :
      (r : Queue) (s : S)
      → try_answer (receive_locked handler r s)
        ≡ (if r.stop then (r, aborted, s) else try_receive_locked handler r s)
  locked_answer r s = try_answer_if r.stop _ _ _ refl (elim (Bool-cases (ltb 0 r.size)) [
    | inl some_left ↦
        let f : r.size == 0 ≡ false = ground arith in
        rw (some_left, f) (sym (dequeue-try_answer handler r s))
    | inr none_left ↦ let f : r.size == 0 ≡ true = ground arith in rw (none_left, f) refl
  ])

  pub try_receive-receive :
      (between : Queue → Queue) (q : Queue) (s : S)
      → try_answer (receive_during handler between q s) ≡ (
          if not q.stop && (between q).stop
          then (lock_queue (between q), aborted, s)
          else try_receive_during handler between q s)
  try_receive-receive between q s =
      let r = lock_queue (between q) in
      let (_, _, _, _, same) = lock_queue_same (between q) in
      try_answer_if q.stop (q, aborted, s) _ _ refl (locked_answer r s)
      ∙ ap
          (λ late.
            if q.stop
            then (q, aborted, s)
            else (if late then (r, aborted, s) else try_receive_locked handler r s))
          same
      ∙ if_again q.stop (between q).stop (q, aborted, s) (r, aborted, s)
          (try_receive_locked handler r s)

  -- With nothing in between, the two functions differ in what they return alone.
  try_receive_lem : (q : Queue) (s : S) → try_answer (receive handler q s) ≡ try_receive handler q s
  unfolding receive try_receive
  try_receive_lem q s =
      try_receive-receive (λ r. r) q s
      ∙ ap (λ b. if b then (lock_queue q, aborted, s) else try_receive_during handler (λ r. r) q s)
          (not_both q.stop)

  -- A message that is there when the flag is set in between is handed over by `try_receive`.
  try_receive_late :
      (between : Queue → Queue) (q : Queue) (m : List ℕ) (ms : List (List ℕ)) (s : S)
      → Holds (between q) (m ∷ ms)
      → (between q).owner_dead ≡ false
      → q.stop ≡ false
      → try_receive_during handler between q s ≡ dequeue_message handler (between q) s
  try_receive_late between q m ms s h alive running =
      let f : (between q).size == 0 ≡ false = ground (arith, size_pos (between q) m ms h) in
      simp (running, lock_queue_alive (between q) alive, f) refl

step_stopped : (q : Queue) (c : Call) → q.stop ≡ true → step q c ≡ (q, [], [])
unfolding step send receive
step_stopped q (sends m) h =
    elim (Bool-cases (ltb q.capacity (estimate_block_count q (length m)))) [
      | inl e ↦ rw e refl
      | inr e ↦ rw e (simp h refl)
    ]
step_stopped q receives h = simp h refl

-- A queue stays as it is, whatever calls its stopped object makes: none is accepted and none
-- delivered.
pub run_stopped : (q : Queue) (cs : List Call) → q.stop ≡ true → run q cs ≡ (q, [], [])
unfolding run
run_stopped q [] h = refl
run_stopped q (c ∷ cs) h = rw (step_stopped q c h) (rw (run_stopped q cs h) refl)

Holds-stop :
    (q : Queue) (ms : List (List ℕ)) (b : Bool) → Holds q ms → Holds (record q { stop = b }) ms
Holds-stop q ms b h = record {
  shape = record { pow = h.pow; mask = h.mask; big = h.big; area = h.area };
  get_lt = h.get_lt;
  put_at = h.put_at;
  counted = h.counted;
  room = h.room;
  short = h.short;
  stored = h.stored;
}

abbrev stopped : Queue → Queue
stopped q = notify nonfull_all (notify nonempty_all (record (lock_queue q) { stop = true }))

stop_local_lem : (q : Queue) → q.stop ≡ false → stop_local q ≡ stopped q
unfolding stop_local
stop_local_lem q h = simp h refl

-- `stop_local` on a well-formed queue that is running: afterwards no `send` or `receive` of this
-- object changes the queue or delivers a message, also where the queue has one or has room, until
-- `reset_local` of the object; then the queue holds the messages that were there, or none where
-- the mutex's owner had died. Other objects attached to the queue make no calls meanwhile.
pub stop_local_keeps :
    (q : Queue) (ms : List (List ℕ)) (cs : List Call)
    → Holds q ms
    → q.stop ≡ false
    → (run (stop_local q) cs ≡ (stop_local q, [], []))
      × Holds (reset_local (run (stop_local q) cs).0) (survivors q ms)
unfolding reset_local
stop_local_keeps q ms cs h running =
    rw (stop_local_lem q running, run_stopped (stopped q) cs refl)
      (
        refl,
        Holds-stop (stopped q) (survivors q ms) false (
            Holds-notify _ nonfull_all (survivors q ms) (
              Holds-notify _ nonempty_all (survivors q ms)
                (Holds-stop (lock_queue q) (survivors q ms) true (lock_queue-Holds q ms h)))),
      )

-- `clear` empties a well-formed queue, and leaves its geometry, its policy and whether it is stopped.
pub clear_lem :
    (q : Queue) (ms : List (List ℕ))
    → Holds q ms
    → Holds (clear q) []
      × ((clear q).owner_dead ≡ false)
      × ((clear q).capacity ≡ q.capacity)
      × ((clear q).block_size ≡ q.block_size)
      × ((clear q).overflow_policy ≡ q.overflow_policy)
      × ((clear q).stop ≡ q.stop)
unfolding clear clear_queue
clear_lem q ms h =
    let (a, b, c, d, e) = lock_queue_same q in
    (clear_queue-Holds (lock_queue q) (survivors q ms) (lock_queue-Holds q ms h), d, a, b, c, e)
