-- ===== src/IpcQueue/Tests.antt =====
-- Runs of the queue in src/posix/ipc_reliable_message_queue.cpp, and examples of its theorems.
use log.Prelude.{
  ℕ, ◌+◌, ◌^◌, ◌≤◌, ◌<◌, ◌*◌, ◌-◌, ◌≡◌, refl, true, false, List, [], ◌∷◌, ◌++◌, none, some, arith,
  length, ltb, ◌⊎◌,
}
use log.IpcQueue.{
  fail_on_overflow, block_on_overflow, Queue, succeeded, handler_failed, create_region,
  init_block_size, lock_queue, estimate_block_count, send, send_locked, try_send, enqueue_message,
  receive, receive_during, try_receive_during, aborted, stop_local, reset_local, clear, log2_of,
  put_message, dequeue_message, deliver, finish, taken,
}
use log.IpcQueue.Memory.{write, read, store_size, load_size}
use log.IpcQueue.Blocks.{span, Short}
use log.IpcQueue.Contents.{Holds}
use log.IpcQueue.Sending.{survivors, spec_send, send_refines, lock_queue-Holds}
use log.IpcQueue.Receiving.{feed, receive_oldest}
use log.IpcQueue.History.{sends, receives, Call, append_handler, step, run, Live, run_fifo}
use log.IpcQueue.Stopping.{try_result, try_send-send, stop_local_keeps, clear_lem}
use log.IpcQueue.Buffer.{empty, fixed_buffer_receive_handler, receive_into_buffer}
use log.IpcQueue.Setup.{create_region-Holds, estimate_least, estimate_overflows}

-- Five blocks of 32 bytes.
abbrev ring_of_5 : Queue
ring_of_5 = create_region fail_on_overflow 5 (2 ^ 5)

abbrev hello : List ℕ
hello = 104 ∷ 101 ∷ 108 ∷ 108 ∷ 111 ∷ []

abbrev long : List ℕ
long = hello ++ hello ++ hello ++ hello ++ hello ++ hello ++ hello ++ hello

ring_of_5-Holds : Holds ring_of_5 []
ring_of_5-Holds =
    create_region-Holds fail_on_overflow 5 5 (omega arith) (omega arith) (omega arith) (omega arith)

hello-Short : Short ring_of_5 (length hello)
unfolding create_region init_block_size
hello-Short = omega arith

abbrev after_hello : Queue
after_hello = (send ring_of_5 hello).0

after_hello-Holds : Holds after_hello (hello ∷ [])
unfolding span create_region init_block_size
after_hello-Holds = (send_refines ring_of_5 [] hello ring_of_5-Holds hello-Short).0

-- A message of two blocks, then one of two blocks that runs over the end.
abbrev wrapping : List Call
wrapping = sends hello ∷ sends hello ∷ receives ∷ sends long ∷ receives ∷ receives ∷ []

wrapping_delivers : (run ring_of_5 wrapping).2 ≡ hello ∷ hello ∷ long ∷ []
unfolding run step send send_locked enqueue_message lock_queue receive create_region init_block_size
    append_handler estimate_block_count log2_of put_message write read store_size load_size
    dequeue_message deliver finish taken
wrapping_delivers = refl

run_fifo_example :
    (rest : List (List ℕ)) × Live 32 (run ring_of_5 wrapping).0 rest
    × ([] ++ (run ring_of_5 wrapping).1 ≡ (run ring_of_5 wrapping).2 ++ rest)
unfolding create_region init_block_size
run_fifo_example =
    run_fifo 32 ring_of_5 [] wrapping
      (record { holds = ring_of_5-Holds; alive = refl; block = refl })
      (omega arith, (omega arith, (omega arith, tt)))

send_refines_example :
    Holds (send ring_of_5 hello).0 (spec_send ring_of_5 [] hello).0
    × ((send ring_of_5 hello).1 ≡ (spec_send ring_of_5 [] hello).1)
send_refines_example = send_refines ring_of_5 [] hello ring_of_5-Holds hello-Short

receive_oldest_example :
    (xs ys : List ℕ) × (xs ++ ys ≡ hello)
    × (((feed append_handler xs ys [] ≡ none)
          × (receive append_handler after_hello [] ≡ (after_hello, handler_failed, [])))
        ⊎ ((r : Queue) × (t : List ℕ) × (feed append_handler xs ys [] ≡ some t)
            × (receive append_handler after_hello [] ≡ (r, succeeded, t))
            × Holds r []))
unfolding send send_locked enqueue_message lock_queue create_region init_block_size
    estimate_block_count log2_of
receive_oldest_example =
    receive_oldest append_handler after_hello hello [] [] after_hello-Holds refl refl

create_region-Holds_example : Holds (create_region block_on_overflow 100 (2 ^ 10)) []
create_region-Holds_example =
    create_region-Holds block_on_overflow 100 10 (omega arith) (omega arith) (omega arith)
      (omega arith)

estimate_least_example :
    (5 + 32 ≤ estimate_block_count ring_of_5 5 * ring_of_5.block_size)
    × (estimate_block_count ring_of_5 5 * ring_of_5.block_size < 5 + 32 + ring_of_5.block_size)
estimate_least_example = estimate_least ring_of_5 5 ring_of_5-Holds.shape hello-Short

estimate_overflows_example :
    (estimate_block_count ring_of_5 (2 ^ 32 - 40) ≤ 1)
    × (ltb ring_of_5.capacity (estimate_block_count ring_of_5 (2 ^ 32 - 40)) ≡ false)
unfolding create_region init_block_size
estimate_overflows_example =
    estimate_overflows ring_of_5 (2 ^ 32 - 40) ring_of_5-Holds.shape (omega arith) (omega arith)
      (omega arith) (omega arith)

-- The owner of the mutex died with a message in the queue.
abbrev orphaned : Queue
orphaned = record after_hello { hdr = record (after_hello.hdr) { owner_dead = true } }

orphaned-Holds : Holds orphaned (hello ∷ [])
orphaned-Holds =
    let h = after_hello-Holds in
    record {
      shape = record { pow = h.pow; mask = h.mask; big = h.big; area = h.area };
      get_lt = h.get_lt;
      put_at = h.put_at;
      counted = h.counted;
      room = h.room;
      short = h.short;
      stored = h.stored;
    }

lock_queue-Holds_example : Holds (lock_queue orphaned) (survivors orphaned (hello ∷ []))
lock_queue-Holds_example = lock_queue-Holds orphaned (hello ∷ []) orphaned-Holds

try_send-send_example :
    try_send ring_of_5 hello ≡ ((send ring_of_5 hello).0, try_result (send ring_of_5 hello).1)
try_send-send_example = try_send-send ring_of_5 hello

-- `stop_local` comes between: `receive` is aborted, and `try_receive` takes the message.
stopped_between :
    ((receive_during append_handler stop_local after_hello []).1 ≡ aborted)
    × ((try_receive_during append_handler stop_local after_hello []).1 ≡ succeeded)
    × ((try_receive_during append_handler stop_local after_hello []).2 ≡ hello)
unfolding dequeue_message deliver finish taken stop_local lock_queue append_handler send send_locked
    enqueue_message create_region init_block_size estimate_block_count log2_of put_message load_size
    store_size read write
stopped_between = (refl, refl, refl)

stop_local_keeps_example :
    (run (stop_local ring_of_5) wrapping ≡ (stop_local ring_of_5, [], []))
    × Holds (reset_local (run (stop_local ring_of_5) wrapping).0) (survivors ring_of_5 [])
unfolding create_region init_block_size
stop_local_keeps_example = stop_local_keeps ring_of_5 [] wrapping ring_of_5-Holds refl

clear_lem_example :
    Holds (clear after_hello) []
    × ((clear after_hello).owner_dead ≡ false)
    × ((clear after_hello).capacity ≡ after_hello.capacity)
    × ((clear after_hello).block_size ≡ after_hello.block_size)
    × ((clear after_hello).overflow_policy ≡ after_hello.overflow_policy)
    × ((clear after_hello).stop ≡ after_hello.stop)
clear_lem_example = clear_lem after_hello (hello ∷ []) after_hello-Holds

receive_into_buffer_example :
    ((length hello ≤ 8)
      × ((r : Queue) × (receive fixed_buffer_receive_handler after_hello (empty 8)
            ≡ (r, succeeded, record { written = hello; size = 8 - length hello }))
          × Holds r []))
    ⊎ ((8 < length hello)
        × (receive fixed_buffer_receive_handler after_hello (empty 8)
            ≡ (after_hello, handler_failed, empty 8)))
unfolding send send_locked enqueue_message lock_queue create_region init_block_size
    estimate_block_count log2_of
receive_into_buffer_example = receive_into_buffer after_hello hello [] 8 after_hello-Holds refl refl
