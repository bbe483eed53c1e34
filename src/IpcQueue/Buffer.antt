-- ===== src/IpcQueue/Buffer.antt =====
-- Receiving into a buffer of a fixed size: `fixed_buffer_receive_handler` of
-- src/posix/ipc_reliable_message_queue.cpp.
use mathlib.Core.List.{append-nil}
use log.Prelude.{
  ◌⊎◌, ℕ, ◌+◌, ◌-◌, ◌≤◌, ◌<◌, ◌≡◌, refl, ap, ◌∙◌, true, false, List, [], ◌∷◌, ◌++◌, none, some,
  arith, inl, inr, ltb, if◌then◌else◌, length, length-append, Bool-cases,
}
use log.IpcQueue.{Queue, succeeded, handler_failed, Handler, receive}
use log.IpcQueue.Contents.{Holds}
use log.IpcQueue.Receiving.{feed, receive_oldest}

-- `fixed_buffer_state`: what has been written to the buffer, and the room that is left.
pub record BufferState : Type 0 where
  pub written : List ℕ
  pub size : ℕ

unfoldable pub fixed_buffer_receive_handler : Handler BufferState
fixed_buffer_receive_handler p part =
    if ltb p.size (length part)
    then none
    else some (record { written = p.written ++ part; size = p.size - length part })

abbrev pub empty : ℕ → BufferState
empty room = record { written = []; size = room }

handler-fits :
    (p : BufferState) (part : List ℕ)
    → length part ≤ p.size
    → fixed_buffer_receive_handler p part
      ≡ some (record { written = p.written ++ part; size = p.size - length part })
unfolding fixed_buffer_receive_handler
handler-fits p part h = let e : ltb p.size (length part) ≡ false = ground arith in rw e refl

handler-short :
    (p : BufferState) (part : List ℕ)
    → p.size < length part
    → fixed_buffer_receive_handler p part ≡ none
unfolding fixed_buffer_receive_handler
handler-short p part h = let e : ltb p.size (length part) ≡ true = ground arith in rw e refl

-- A message in one or two parts that the buffer has room for.
feed-fits :
    (xs ys : List ℕ) (room : ℕ)
    → length (xs ++ ys) ≤ room
    → feed fixed_buffer_receive_handler xs ys (empty room)
      ≡ some (record { written = xs ++ ys; size = room - length (xs ++ ys) })
feed-fits xs [] room h =
    let e : xs ++ [] ≡ xs = append-nil xs in rw e (handler-fits (empty room) xs (rw e at h))
feed-fits xs (y ∷ ys) room h =
    let n : length (xs ++ y ∷ ys) ≡ length xs + length (y ∷ ys) = length-append xs (y ∷ ys) in
    rw (handler-fits (empty room) xs (omega (arith, n, h)), feed)
      (handler-fits (record { written = xs; size = room - length xs }) (y ∷ ys)
          (omega (arith, n, h))
        ∙ ap (λ k. some (record { written = xs ++ y ∷ ys; size = k })) (omega (arith, n, h)))

-- One that it has no room for.
feed-short :
    (xs ys : List ℕ) (room : ℕ)
    → room < length (xs ++ ys)
    → feed fixed_buffer_receive_handler xs ys (empty room) ≡ none
feed-short xs [] room h = handler-short (empty room) xs (rw (append-nil xs) at h)
feed-short xs (y ∷ ys) room h =
    let n : length (xs ++ y ∷ ys) ≡ length xs + length (y ∷ ys) = length-append xs (y ∷ ys) in
    elim (Bool-cases (ltb room (length xs))) [
      | inl e ↦ rw (handler-short (empty room) xs (ground (arith, e)), feed) refl
      | inr e ↦
          rw (handler-fits (empty room) xs (ground (arith, e)), feed)
            (handler-short (record { written = xs; size = room - length xs }) (y ∷ ys)
              (ground (arith, n, h, e)))
    ]

-- `receive` into a buffer, on a running queue that holds a message: if the buffer has room for
-- the oldest message, exactly that message is written to it and the memory holds the others; if
-- not, the queue is as it was and the message is not lost, although its first part may have fitted.
pub receive_into_buffer :
    (q : Queue) (m : List ℕ) (ms : List (List ℕ)) (room : ℕ)
    → Holds q (m ∷ ms)
    → q.stop ≡ false
    → q.owner_dead ≡ false
    → ((length m ≤ room)
        × ((r : Queue) × (receive fixed_buffer_receive_handler q (empty room)
              ≡ (r, succeeded, record { written = m; size = room - length m }))
            × Holds r ms))
      ⊎ ((room < length m)
          × (receive fixed_buffer_receive_handler q (empty room) ≡ (q, handler_failed, empty room)))
receive_into_buffer q m ms room h running alive =
    go (receive_oldest fixed_buffer_receive_handler q m ms (empty room) h running alive)
  where
    go :
        (xs ys : List ℕ) × (xs ++ ys ≡ m)
          × (((feed fixed_buffer_receive_handler xs ys (empty room) ≡ none)
                × (receive fixed_buffer_receive_handler q (empty room)
                    ≡ (q, handler_failed, empty room)))
              ⊎ ((r : Queue) × (t : BufferState) × (feed fixed_buffer_receive_handler xs ys
                      (empty room)
                    ≡ some t)
                  × (receive fixed_buffer_receive_handler q (empty room) ≡ (r, succeeded, t))
                  × Holds r ms))
        → ((length m ≤ room)
            × ((r : Queue) × (receive fixed_buffer_receive_handler q (empty room)
                  ≡ (r, succeeded, record { written = m; size = room - length m }))
                × Holds r ms))
          ⊎ ((room < length m)
              × (receive fixed_buffer_receive_handler q (empty room)
                  ≡ (q, handler_failed, empty room)))
    go (xs, ys, e, o) = elim (Bool-cases (ltb room (length m))) [
      | inl short ↦
          let none_fed = feed-short xs ys room (rw e (ground (arith, short))) in
          elim o [
            | inl (_, f) ↦ inr (ground (arith, short), f)
            | inr (r, t, fed, _, _) ↦ absurd (cc)
          ]
      | inr fits ↦
          let all_fed = feed-fits xs ys room (rw e (ground (arith, fits))) in
          elim o [
            | inl (none_fed, _) ↦ absurd (cc)
            | inr (r, t, fed, f, k) ↦
                let same : t ≡ record { written = xs ++ ys; size = room - length (xs ++ ys) } =
                  cc in
                inl (
                  ground (arith, fits),
                  (
                    r,
                    f
                        ∙ ap (λ u. (r, succeeded, u))
                            (same ∙ ap (λ l. record { written = l; size = room - length l }) e),
                    k,
                  ),
                )
          ]
    ]
