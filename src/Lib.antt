-- ===== src/Lib.antt =====
-- A model of cachercise, a Mochi service that keeps caches of 64-bit integers in memory, and the
-- theorems about it.
--
-- The program. A provider (src/provider.c) keeps a table of caches and a list of backends, and
-- answers eight RPCs. Administrators (src/admin.c) create, open, close, destroy and list caches by
-- five of them, with a security token; clients (src/client.c) hold reference-counted handles of
-- caches, and greet them, have them add, and read and write them by the other three. A cache is a
-- context of a backend, a table of functions (include/cachercise/cachercise-backend.h). The only
-- backend is "dummy" (src/dummy/dummy-backend.c), which keeps a growing array for each cache
-- (src/hoard.hpp, src/hoard.cc). The messages are in src/types.h. Bedrock starts providers by
-- src/bedrock-module.c.
--
-- The files.
--   Base: library names, Boolean tests on the native numbers, lists, signed integers, and `Run`, the
--     outcome of C code: a value, or a fault, which is undefined behaviour or an uncaught exception.
--   Common: error codes, kinds of I/O, cache ids and integer conversions.
--   Hoard: the array; `put` and `get` are Hoard::put and Hoard::get. Loops, Bounds and Contents have
--     what their loops do, when they end, and what they leave.
--   Backend: the table of functions, and `Contract`, what the provider relies on.
--   Dummy: the dummy backend, an operation for each dummy_ function. Memory is its heap. Ownership and
--     Lifecycle are on contexts and hoards in use, Io, Transfers and Items on reading and writing, Fresh on
--     new contexts, and Fulfils on the contract. Threads has dummy_io, with the loops of Hoard::put and
--     Hoard::get, as the steps of several threads on one context; Exclusive is on its mutex, Serial on
--     the order of the writes, Sizes on the growing array, Storage on when it moves, Work and Finish on
--     the end of the threads, and Race on readers.
--   Table, Margo: interfaces to uthash and Margo, which are not part of the program.
--   Messages: the inputs and outputs of the RPCs, and in Wire the encoding of the list of caches.
--   Provider: find_cache, add_cache, remove_cache, remove_all_caches, find_backend_impl,
--     add_backend_impl and check_token. Handlers has the eight RPC handlers, the cachercise_..._ult
--     functions, and Lifecycle cachercise_provider_register and cachercise_provider_destroy.
--     Holdings and Sound have the invariant, Safety the handlers against it, Removal caches that are
--     taken out, Outcomes and Creation how the handlers end, Undone
--     a cache that comes and goes, Listing the loops over the table, Backends and Registered the
--     search for a backend and the addition of one, Restores and
--     Register what registration does to the Margo instance, and Requests and Sessions sequences of
--     requests. Streams has the handlers on several execution streams: Admin and Clients have each handler
--     as a resumption, Alone and Requests are on one that nothing interrupts, Schedules on putting schedules
--     together, Freed on a request while its cache is removed, and Lost on two creations; Overrun is on
--     the list that comes of it.
--   Client: handles in Client, Handles, Freeing and Lifetime, the calls in Calls, with memcpy in Bytes.
--   Admin: the administrator's calls.
--   Bedrock: the Bedrock module.
--   EndToEnd: a client's io, and in Sums its sum, through the provider to the dummy backend; in
--     Listed, an administrator's list of caches through the provider and the encoding, and in Created
--     an administrator's creation of a cache through the provider to the dummy backend, and in Destroyed
--     its destruction; Opened is on opening and closing one.
--   Cachebench: examples/cachebench.c. The parent has the loops of its MPI processes, with Places and
--     Writing on the writes, Verified on the reads of rank 0, Created on both, on a new cache, and Turns on
--     processes that go one after the other;
--     Config has parse_args, parse_json and dump_json with the macros of examples/json-macros.h, and
--     Keys is on the keys that they set; Rounds has the loops of one process, whatever its
--     calls are answered, and Main, with Cleanup, main.
--   Examples: the main functions of examples/server.c, examples/admin.c and examples/client.c, with
--     Creation on the administrator, Greeting on the client, and Session on all three.
--   UnitTests: test_invalid of tests/test-admin.c, with Invalid on its outcome.
--   Tests: concrete providers, clients and hoards.
--
-- How it is modelled. An `int64_t`, a `size_t` or an `int` is its bit pattern, a number below 2 ^ 64
-- or 2 ^ 32, and conversions and overflows are written out. The memory of the backends is passed from
-- call to call; the dummy backend's is a heap of contexts and hoards with room for so many more
-- allocations. Memory outside the backends enters by what each allocation gives. A handler gets the
-- input, or none where it could not be decoded, and the values that an uninitialised output has on
-- the stack. What Margo, Mercury, json-c, Argobots and libuuid do enters as parameters. Loops are
-- structural recursion on the number of rounds or on the list: there is no fuel.
--
-- Threads and processes are interleaved by a scheduler that picks any of them: in Dummy/Threads.antt
-- a step is one access to the mutex or to the vector, its resize being one, taken as sequentially
-- consistent, and in Cachebench.antt a step is one write of a process, from its request to the answer.
-- The handlers of Provider/Streams.antt take their steps in the order of a schedule, a list of their numbers.
--
-- What is not modelled. Where execution streams interleave, an operation of uthash and a call of a
-- backend are one step each, though nothing keeps others out: the schedules are a part of the
-- program's, and the results on them say that a schedule exists, not what all of them do.
-- Outside Provider/Streams.antt the handlers of a provider run one after the other. The log and other
-- output, and giving back inputs, outputs and RPC handles, are left out. The benchmark's timings, the
-- processors that MERCURY_GEN_PROC generates and the tests other than test_invalid are not
-- modelled, nor are the copies of uthash and munit.
pub mod Base
pub mod Common
pub mod Hoard
pub mod Backend
pub mod Dummy
pub mod Table
pub mod Margo
pub mod Messages
pub mod Provider
pub mod Client
pub mod Admin
pub mod Bedrock
pub mod EndToEnd
pub mod Cachebench
pub mod Examples
pub mod Tests
pub mod UnitTests
