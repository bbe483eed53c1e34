-- ===== src/Lib.antt =====
-- Boost.Log: the logging core, its attributes, the sinks and the queues and files behind them.
--
-- A source opens a record in the core, which asks the registered sinks whether they accept it, and
-- pushes it, upon which the core hands it to the accepting sinks. A sink frontend may put records
-- into a queue that a thread of its own empties; a sink backend may write them to files that it
-- rotates and hands to a collector, or pass them to another process through a message queue in
-- shared memory. The attributes of the source, the thread and the core are hash tables, from which
-- a record takes its values.
--
-- Core        src/core.cpp. Core/Env: what the core calls (sinks, filters, exception handlers,
--             attribute values, the random number generator), a record of functions on a world,
--             each of which may throw. Core/Sinks: `core::implementation` and the operations on it;
--             Core/Sinks/Registry: the set of sinks. Core/Opening: `open_record`,
--             `apply_sink_filter` and `record_view::private_data`, with Acceptance, Exact and
--             Errors on what it returns. Core/Pushing: `record::lock` and `push_record_move`, with
--             Counting, Progress, Outcome and Quiet on its loop.
-- IpcQueue    src/posix/ipc_reliable_message_queue.cpp. IpcQueue itself holds the operations of
--             `reliable_message_queue::implementation`; Memory the bytes of the region; Ring, Place
--             and Blocks the addresses; Contents what it means that the memory holds a list of
--             messages; Sending, Receiving, Buffer, Stopping and History the operations; Setup the
--             creation of a region and the counting of blocks.
-- SinkQueue   include/boost/log/sinks/bounded_fifo_queue.hpp, drop_on_overflow.hpp and
--             block_on_overflow.hpp: the operations of the queue of an asynchronous sink, with the
--             threads that wait. SinkQueue/History: sequences of steps of such threads, with
--             Invariant, Conservation, Overflow and Interruption on what they keep.
-- Frontend    include/boost/log/sinks/basic_sink_frontend.hpp and sync_frontend.hpp: filtering,
--             feeding and flushing; Frontend/Sinks: such frontends as the sinks of the core.
-- FormatParser  src/format_parser.cpp: `parse_format`, over the types of
--             include/boost/log/detail/format.hpp. FormatParser/Meaning: what format strings and
--             descriptions stand for; RoundTrip and Termination: the loop.
-- Attributes  src/attribute_set_impl.hpp and src/attribute_set.cpp in Attributes/Nodes: the list of
--             nodes that a hash table points into, with Grouped, Finding, Placing, Splicing,
--             Inserted, Erasing, Shrinking, Erased and Copying on what the operations do to the list
--             and to the ends of the buckets, and Mapping on the table as a map.
--             src/attribute_value_set.cpp in Attributes/Values, over the same table: Adding,
--             Freezing, Frozen, Room (the storage) and Calls (any sequence of calls).
-- AsyncSink   include/boost/log/sinks/async_frontend.hpp over the queue of SinkQueue: its calls, and
--             in AsyncSink/Steps the feeding thread as a machine, and what all threads may do.
--             Exclusion, Order and Composed on any history of such steps, Flushing on an
--             undisturbed flush, Stranding on a flush request that is left behind.
-- FileCollector  src/text_file_backend.cpp: `file_collector` with its erasing loop, over a file
--             system that is a parameter; Limits on what is left; Scanning: `scan_for_files`;
--             Accounting and History on the total size through any sequence of calls.
-- TextFile    src/text_file_backend.cpp: `consume`, `rotate_file` and `close_file` of
--             `text_file_backend`, over a file stream and a collector that are parameters; Rounds,
--             Looping and Opening on the loop that opens a file.
-- Prelude     Boolean tests and list functions over the native numbers.
--
-- State is passed explicitly. An operation that runs under a mutex is one atomic step; one that
-- waits on a condition variable returns that it waits, and its retry is another call. The operations
-- of IpcQueue read `m_stop` before they lock the mutex and, but for `try_receive`, again behind it;
-- `receive_during` and `try_receive_during` let others come between. Exceptions are
-- values (`thrown`, or an outcome of the operation). Machine arithmetic is written with its
-- wrap-around: `u32` and `sub32` in IpcQueue, `to_uint` in FormatParser, `add64` and `sub64` of
-- `uintmax_t` in FileCollector and TextFile; only the counts of sinks in a record have no bound.
--
-- The loop of `push_record_move` runs on fuel, `cost n` rounds for n sinks: a pass over n sinks
-- takes n rounds and one at its end, and after a pass that finds all of them busy one sink is gone.
-- The loop of `parse_format` runs on fuel, two rounds more than the string has characters: each round
-- but the last takes at least one. The loop of `text_file_backend::consume` that opens a file runs on
-- 2^32 + 2 rounds of fuel: all but the first two go on with the 32-bit counter, and the loop ends
-- when it has gone round. The search for an unused name in `store_file` tries 2^32 numbers, as the
-- code does. A feeding thread and the other threads of an asynchronous sink are steps in a list of
-- any length. Other loops are structural.
--
-- Not modelled: the system's shared memory, mutexes and condition variables; the handshake with
-- which processes share a region; reference counts and allocation failures; what attributes
-- compute, and exceptions that they throw when a set of values asks for theirs; the pool of nodes of
-- attribute sets; the patterns of file names, which are functions that make names; handlers of files
-- that throw; the other parsers and the formatters.
pub mod Prelude
pub mod IpcQueue
pub mod Core
pub mod SinkQueue
pub mod Frontend
pub mod FormatParser
pub mod Attributes
pub mod AsyncSink
pub mod FileCollector
pub mod TextFile
