-- ===== src/Lib.antt =====
-- A C++20 header library for network servers: a byte buffer, memory pools, JSON, string formatting and a
-- logger, coroutine generators, a thread pool and strands that serialise tasks on it. Bytes are natural
-- numbers, texts are lists of bytes, a position in a text is mostly the text from it on.
--
-- Which file models what:
-- - Prelude (Tests, Lists, Slots, Text): names passed on from the libraries, Boolean tests, lists over
--   native numbers and their totals, numbered variables, texts as bytes.
-- - Buffer: include/io/Buffer.hpp. A record of the storage and the two indices, which are size_t values
--   modulo 2^64; each member function is a function of its name. readv and write are parameters. Copy,
--   Inv and Refine relate a buffer to a byte queue, Calls the system calls, Script whole histories.
-- - Json: include/protocol/Json.hpp. The tree and toString and dump; Json.Parser the JsonParser class
--   (Scan its tokens), with the errors as values; Json.Grammar states the grammar with spaces, digits
--   and escapes of its own; Json.Complete, Printable, RoundTrip, Indented, Total and Lenient relate
--   them, and Nesting bounds the padding of dump, an int. Json.Tree models the accessors and the
--   JsonValue proxy as a path of keys and indices from the root (Keys, Slots, Paths), and one proxy
--   with the pointer behind it (Proxy). A vector of pointers holds at most 2^60 - 1 elements, and an
--   int is below 2^31. double is the record Doubles of a type, its printing and std::stod. The parser
--   runs on fuel: 2 * length + 2, as a value costs at most two calls for each byte.
-- - Http: include/protocol/Http.hpp. The message, serialize_to_string and parse_from_string; Find and
--   Lines relate the calls on strings and streams to texts put together from lines, Headers the block
--   of headers; RoundTrip and NoHeaders use them.
-- - Pool: include/alloc/MemoryPool.hpp. Pool has the pool's calls on a thread's cache, Pool.Process and
--   Pool.Threads the threads that interleave them on all pools (Totals their sums), Pool.Ends the
--   destructors, Pool.Manager the size classes of GlobalPoolManager, which calls Pool; Counts, Blocks
--   and Total hold the lemmas on copies of blocks, chunks and results. alignof(std::max_align_t) is 16.
-- - Format: include/log/format.hpp. vformat with stoul and get_arg; an argument is a function of its
--   specifier and the stream's flags. Format.Spelling puts format strings together and
--   says what they print, Pieces, Explicit and Total relate vformat to it, Args and Floats have the arguments, the stream's printing of a double a parameter. The
--   loop's fuel is the length of the format string, as each round takes a byte.
-- - Log: include/log/Log.hpp, the client of Format: GlobalLogger and Logger::log; Log.Levels has the
--   order of the levels and the line, Log.History runs histories of calls, Log.Factory is how a logger
--   reads its format.
-- - Generator: include/coro/Generator.hpp, the coroutine's body a parameter; Generator.Loops has the
--   two loops that a client writes, on fuel above the number of values.
-- - Strand: include/net/Strand.hpp, critical sections and the steps of the threads around them, the
--   executor being free to begin or to drop any job; Strand.Serial has the invariant, Strand.Dropped a
--   pool that stops.
-- - ThreadPool: include/tools/ThreadPool.hpp, likewise, with the notifications as steps of their own;
--   ThreadPool.Counts has the invariant and Totals its sums, Wakes the wake-ups for tasks, Progress how
--   the next task is taken, Staff the threads, Graceful and Stuck a stop.
-- - Scheduler: include/coro/Scheduler.hpp, likewise, the number of threads a parameter;
--   Scheduler.Counts has the invariant and Totals its sums, Scheduler.Asleep a run that ends with all
--   threads in their wait.
-- - Handles: the moves and destructors of variables that own a coroutine's frame, which Awaitable and
--   Generator share (Handles.Owned); the histories are Generator.Owners and Awaitable.Owners.
-- - Awaitable: include/coro/Awaitable.hpp. The code of a coroutine is a tree of its co_await, co_return
--   and throw; frames are a list by handle, and a turn is what a thread of the pool does up to the next
--   suspension. Awaitable.Turns has the turns, Awaitable.Direct compares with plain calls.
-- - Task: include/coro/Task.hpp, the coroutine's code again a tree; Task.Once counts the calls of get,
--   Task.Discarded has a task that ends before its coroutine.
-- - IoContext: include/net/IOContext.hpp and Epoll.hpp, over epoll_ctl as a parameter; the event loop's
--   input is what epoll_wait returns. IoContext.Tally counts handles, IoContext.Wakes follows one.
-- - Socket: include/net/Socket.hpp, the client of Buffer and IoContext: the loops of async_read,
--   async_write and async_accept over a list of rounds, each an answer and what others do until the
--   next; Socket.Calls relates them to the buffer's contents, Socket.Woken to the event loop.
--   Socket.Owners has the descriptors of sockets, Socket.Listener that of an acceptor.
-- - Allocator: include/alloc/alloc.hpp, the client of the pools, as the calls it makes;
--   Allocator.Arrays has the arrays.
--
-- Not modelled: tools/Tool.hpp, which only calls the system; log/Log.bak.hpp, which nothing includes;
-- main.cpp. Nor are addresses of live objects, destructors and moves except those of sockets,
-- generators, awaitables, tasks and pools, the C++ memory model below the mutexes, data races where one
-- is missing, and signed overflow of counters.
pub mod Prelude
pub mod Buffer
pub mod Json
pub mod Pool
pub mod Format
pub mod Generator
pub mod Http
pub mod Log
pub mod Strand
pub mod ThreadPool
pub mod Scheduler
pub mod Awaitable
pub mod IoContext
pub mod Socket
pub mod Allocator
pub mod Handles
pub mod Task
