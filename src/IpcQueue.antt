-- ===== src/IpcQueue.antt =====
-- src/posix/ipc_reliable_message_queue.cpp: the message queue in shared memory.
--
-- The block area of the region is a function from byte offsets to bytes, and a block header holds
-- its size as four bytes, least significant first. Operations run under the queue's mutex and are
-- atomic steps: one that waits on a condition variable returns `waiting`, and its retry is
-- another call. `uint32_t` arithmetic keeps its wrap-around.
pub mod Memory
pub mod Ring
pub mod Place
pub mod Blocks
pub mod Contents
pub mod Sending
pub mod Receiving
pub mod History
pub mod Setup
pub mod Stopping
pub mod Buffer
mod Tests
use Prim.Native.Nat.{bit_and}
use log.Prelude.{
  ℕ, ◌+◌, ◌-◌, ◌*◌, ◌/◌, ◌%◌, ◌^◌, min, Bool, true, false, List, [], ◌∷◌, Option, none, some, ◌&&◌,
  ltb, leb, ◌==◌, if◌then◌else◌, length, take, drop,
}
use Memory.{write, read, store_size, load_size}

-- `reliable_message_queue::overflow_policy`
pub data OverflowPolicy : Type 0 where
  block_on_overflow fail_on_overflow throw_on_overflow : OverflowPolicy

-- What the operations signal to threads that wait on the two condition variables.
pub data Notice : Type 0 where
  nonempty_one nonempty_all nonfull_all : Notice

-- `header`, with the block area behind it. `owner_dead` is the state of the robust mutex after
-- its owner has terminated; `notices` is what has been signalled, last first.
pub record Header : Type 0 where
  pub capacity : ℕ
  pub block_size : ℕ
  pub size : ℕ
  pub put_pos : ℕ
  pub get_pos : ℕ
  pub owner_dead : Bool
  pub notices : List Notice
  pub blocks : ℕ → ℕ

-- `implementation`: the mapped header with the members that each process keeps for itself.
pub record Queue : Type 0 where
  pub hdr : Header
  pub open hdr use *
  pub overflow_policy : OverflowPolicy
  pub block_size_mask : ℕ
  pub block_size_log2 : ℕ
  pub stop : Bool

-- `block_header::get_header_overhead()`: `sizeof(block_header)`, 4, aligned up to 32.
abbrev pub header_overhead : ℕ
header_overhead = 32

abbrev pub u32 : ℕ → ℕ
u32 n = n % 2 ^ 32

-- Subtraction of `uint32_t` values.
abbrev pub sub32 : ℕ → ℕ → ℕ
sub32 a b = u32 (a + 2 ^ 32 - b)

-- One `if` of `init_block_size`: when the low `bits` bits are clear, shift them out and count them.
abbrev strip : ℕ → ℕ → ℕ × ℕ → ℕ × ℕ
strip mask bits (n, log2) = if bit_and n mask == 0 then (n / 2 ^ bits, log2 + bits) else (n, log2)

-- The value that `init_block_size` gives to `m_block_size_log2`.
unfoldable pub log2_of : ℕ → ℕ
log2_of n = (strip 1 1 (strip 3 2 (strip 15 4 (strip 255 8 (strip 65535 16 (n, 0)))))).1

pub init_block_size : Queue → ℕ → Queue
init_block_size q n = record q { block_size_mask = n - 1; block_size_log2 = log2_of n }

-- `create_region`: a header over memory that the system has filled with zeros.
abbrev pub fresh_header : ℕ → ℕ → Header
fresh_header capacity n = record {
  capacity = capacity;
  block_size = n;
  size = 0;
  put_pos = 0;
  get_pos = 0;
  owner_dead = false;
  notices = [];
  blocks = λ _. 0;
}

pub create_region : OverflowPolicy → ℕ → ℕ → Queue
create_region policy capacity n = init_block_size q n
  where
    q : Queue
    q = record {
      hdr = fresh_header capacity n;
      overflow_policy = policy;
      block_size_mask = 0;
      block_size_log2 = 0;
      stop = false;
    }

abbrev pub notify : Notice → Queue → Queue
notify n q = record q { hdr = record (q.hdr) { notices = n ∷ q.notices } }

pub clear_queue : Queue → Queue
clear_queue q =
    notify nonfull_all (record q { hdr = record (q.hdr) { size = 0; put_pos = 0; get_pos = 0 } })

-- A dead owner's queue is emptied, and the mutex made consistent again.
pub lock_queue : Queue → Queue
lock_queue q =
    if q.owner_dead
    then (let r = clear_queue q in record r { hdr = record (r.hdr) { owner_dead = false } })
    else q

-- The blocks that a message of `n` bytes takes.
unfoldable pub estimate_block_count : Queue → ℕ → ℕ
estimate_block_count q n = u32 (n + header_overhead + q.block_size_mask) / 2 ^ q.block_size_log2

-- `static_cast<size_type>((capacity - pos) * block_size - get_header_overhead())`
abbrev pub contiguous : Queue → ℕ → ℕ
contiguous q pos = sub32 (u32 (sub32 q.capacity pos * q.block_size)) header_overhead

-- The block area after the copies of `enqueue_message` at block `pos`.
unfoldable pub put_message : Queue → ℕ → List ℕ → ℕ → ℕ → ℕ
put_message q pos message block_count =
    let head = pos * q.block_size in
    let write_size = min (contiguous q pos) (length message) in
    let first =
      write (store_size q.blocks head (length message)) (head + header_overhead)
        (take write_size message) in
    if leb q.capacity (u32 (pos + block_count))
    then write first 0 (drop write_size message)
    else first

-- The next position, wrapped to the beginning of the queue.
abbrev pub advance : Queue → ℕ → ℕ → ℕ
advance q pos block_count =
    let next = u32 (pos + block_count) in if leb q.capacity next then next - q.capacity else next

-- The message in the block area, with the position and the size moved on.
abbrev pub store_message : Queue → List ℕ → ℕ → Queue
store_message q message block_count = record q {
  hdr = record (q.hdr) {
    blocks = put_message q q.put_pos message block_count;
    put_pos = advance q q.put_pos block_count;
    size = u32 (q.size + block_count);
  };
}

pub enqueue_message : Queue → List ℕ → ℕ → Queue
enqueue_message q message block_count =
    let stored = store_message q message block_count in
    if q.size == 0 then notify nonempty_one stored else stored

-- `operation_result`, an exception, or a wait on a condition variable.
pub data Outcome : Type 0 where
  succeeded no_space aborted waiting : Outcome
  message_too_big capacity_limit_reached handler_failed : Outcome

-- What `send` does for lack of space: return, throw or wait.
abbrev pub overflow_outcome : OverflowPolicy → Outcome
overflow_outcome block_on_overflow = waiting
overflow_outcome fail_on_overflow = no_space
overflow_outcome throw_on_overflow = capacity_limit_reached

-- The body of `send` behind the lock, where `m_stop` is read again.
pub send_locked : Queue → List ℕ → ℕ → Queue × Outcome
send_locked q message block_count =
    if q.stop
    then (q, aborted)
    else (if leb block_count (sub32 q.capacity q.size)
        then (enqueue_message q message block_count, succeeded)
        else (q, overflow_outcome q.overflow_policy))

-- `send`, up to its return or to its first wait.
unfoldable pub send : Queue → List ℕ → Queue × Outcome
send q message =
    let block_count = estimate_block_count q (length message) in
    let r = lock_queue q in
    if ltb q.capacity block_count
    then (q, message_too_big)
    else (if q.stop then (q, aborted) else send_locked r message block_count)

-- The body of `try_send` behind the lock, where `m_stop` is read again.
pub try_send_locked : Queue → List ℕ → ℕ → Queue × Option Bool
try_send_locked q message block_count =
    if q.stop
    then (q, some false)
    else (if ltb (sub32 q.capacity q.size) block_count
        then (q, some false)
        else (enqueue_message q message block_count, some true))

-- `try_send`, with what it returns or throws.
pub try_send : Queue → List ℕ → Queue × Option Bool
try_send q message =
    let block_count = estimate_block_count q (length message) in
    let r = lock_queue q in
    if ltb q.capacity block_count
    then (q, none)
    else (if q.stop then (q, some false) else try_send_locked r message block_count)

-- The queue past a message of so many blocks.
abbrev pub take_message : Queue → ℕ → Queue
take_message q block_count = record q {
  hdr = record (q.hdr) {
    get_pos = advance q q.get_pos block_count;
    size = sub32 q.size block_count;
  };
}

-- A receive handler with its state; `none` is an exception, and what a handler that throws has
-- done to its state is not followed.
abbrev pub Handler : Type 0 → Type 0
Handler S = S → List ℕ → Option S

-- The second call of a handler, if there is a tail, after what the first one gave.
unfoldable pub finish : {S : Type 0} → Bool → (S → Option S) → Option S → Option S
finish tail rest none = none
finish tail rest (some s) = if tail then rest s else some s

-- The end of `dequeue_message`: where the handler threw, the queue stays as it is.
unfoldable pub taken : {S : Type 0} → Queue → ℕ → S → Option S → Queue × Outcome × S
taken q block_count state none = (q, handler_failed, state)
taken q block_count state (some s) = (notify nonfull_all (take_message q block_count), succeeded, s)

module _ {S : Type 0} (handler : Handler S) where
  -- The two calls of the handler in `dequeue_message` for a message of `n` bytes at block `pos`.
  unfoldable pub deliver : Queue → ℕ → ℕ → ℕ → S → Option S
  deliver q pos n block_count state =
      let read_size = min (contiguous q pos) n in
      finish (leb q.capacity (u32 (pos + block_count)) && ltb 0 (n - read_size))
        (λ s. handler s (read q.blocks 0 (n - read_size)))
        (handler state (read q.blocks (pos * q.block_size + header_overhead) read_size))

  -- `dequeue_message`
  unfoldable pub dequeue_message : Queue → S → Queue × Outcome × S
  dequeue_message q state =
      let n = load_size q.blocks (q.get_pos * q.block_size) in
      let block_count = estimate_block_count q n in
      taken q block_count state (deliver q q.get_pos n block_count state)

  -- The body of `receive` behind the lock, where `m_stop` is read again.
  abbrev pub receive_locked : Queue → S → Queue × Outcome × S
  receive_locked q state =
      if q.stop
      then (q, aborted, state)
      else (if ltb 0 q.size then dequeue_message q state else (q, waiting, state))

  -- The body of `try_receive` behind the lock, where `m_stop` is not read again; `aborted` stands
  -- for the result `false`.
  abbrev pub try_receive_locked : Queue → S → Queue × Outcome × S
  try_receive_locked q state = if q.size == 0 then (q, aborted, state) else dequeue_message q state

  -- `receive`, up to its return or to its first wait, where other threads and processes do
  -- `between` after `m_stop` is read and before the mutex is locked.
  abbrev pub receive_during : (Queue → Queue) → Queue → S → Queue × Outcome × S
  receive_during between q state =
      if q.stop then (q, aborted, state) else receive_locked (lock_queue (between q)) state

  -- `try_receive`, in the same way.
  abbrev pub try_receive_during : (Queue → Queue) → Queue → S → Queue × Outcome × S
  try_receive_during between q state =
      if q.stop then (q, aborted, state) else try_receive_locked (lock_queue (between q)) state

  -- The two functions with nothing in between.
  pub receive : Queue → S → Queue × Outcome × S
  receive q state = receive_during (λ r. r) q state

  pub try_receive : Queue → S → Queue × Outcome × S
  try_receive q state = try_receive_during (λ r. r) q state

pub stop_local : Queue → Queue
stop_local q =
    if q.stop
    then q
    else notify nonfull_all (notify nonempty_all (record (lock_queue q) { stop = true }))

pub reset_local : Queue → Queue
reset_local q = record q { stop = false }

pub clear : Queue → Queue
clear q = clear_queue (lock_queue q)
