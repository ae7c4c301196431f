-- ===== src/Lib.antt =====
-- OCR-vx is a runtime for the Open Community Runtime API: event-driven tasks (EDTs), events and
-- data blocks, named by GUIDs. The repository has three runtimes behind the same API: `one`, which
-- runs the tasks of an application one after the other, `shmem`, on threads, and `distributed`.
--
-- Parts and files.
--   Prelude, Prelude/: tests on numbers, lists measured by native numbers, `Option` as a result.
--   Prelude/Bits: bit fields of words.
--   One/Types: the objects (include/one/types.h, guid.h, node.h, event.h, edt.h, edt_template.h, db.h,
--     labeled_guids.h), the state of `runtime` (include/one/runtime.h) and the faults.
--   One/Monad: `object_list`, `guid_generator`, the casts `as_xyz` and `resolve_lid`.
--   One/Db: data blocks and the calls on them: `create_db`, `release_db`, `destroy_db`.
--   One/Node: `event::satisfy`, `event::handle_satisfied`, `edt::satisfy`, `satisfy_event`,
--     `satisfy_preslot`, `spawn` (src/one/ocr_one.cpp, include/one/edt.h, include/one/runtime.h).
--   One/Edges: `set_preslot`, `add_postslot`, `channel_add_postslot`, `add_dependence`.
--   One/Create: `create_event`, `destroy_event`, EDT templates, labeled ranges of GUIDs.
--   One/Tasks: `create_edt`, the constructor of `edt`, `initialize_deps`, event-local storage.
--   One/Run: the calls of src/one/ocr_api.cpp as data (`Call`, `api`), an application (`App`), `edt::run`
--     and the loop of `runtime::start`.
--   One/Arguments with its children: `pack_arguments`, `get_argc` and `get_argv` of
--     include/one/runtime.h on the bytes of the block.
--   One/Logic, One/Reads, One/Stable, One/Keep/: what a call keeps. `Stable P` asks that the elementary
--     writes keep `P`; One/Keep shows that then every call of the API, every EDT and the whole program
--     keep it. One/Schedule, One/Blocks and One/Order are three instances.
--   One/ReadyQueue, One/Blocks, One/Order, One/Cascade, One/Latch, One/Labels, One/AnyOrder: the
--     theorems. One/EventStates: states in which an event stands under a GUID.
--   Shmem/Allocator, Shmem/FirstFit, Shmem/Defragment, Shmem/Calls: the allocator of
--     include/shmem/db_allocator.h, and its calls on a list of blocks.
--   Shmem/Event with its children: the events of include/shmem/ocr_tbb_event.h, on the nodes of
--     ocr_tbb_node.h, with what ocr_tbb_locking.h does to channels.
--   Shmem/Locking with its children: the locks of data blocks (`wait_for_graph` in
--     include/shmem/ocr_tbb_locking.h). Modes, Block: one block. Calls: the calls on all blocks
--     and tasks. Consistent: the invariant. Acquire, Enqueue, Attempts, Rounds, Replace, Wakes,
--     Drain, Held, Unlock, Sorting, Ordering, Start: the calls keep it. Covers: what a task locks.
--     Progress: the calls leave no deadlock. Release: a block is unlocked twice.
--   Distributed/Guid, Distributed/Packing: the bit fields of GUIDs (include/distributed/guid.h).
--   Distributed/Repository, Distributed/Objects: the objects of a node
--     (include/distributed/object_repository.h, src/distributed/ocr_distributed.cpp).
--   Distributed/Cache with its children: how nodes reserve GUIDs of each other (`reserve_guid` in
--     include/distributed/object_cache.h, `CMD_allocate_guid` in src/distributed/command_processing.cpp).
--     The call is cut where it waits for the owner's reply, so that `run` takes the steps of all nodes
--     in any order. Ledger: who has which numbers. Words, Invariant, Cases, Steps: every step keeps
--     it. Returns: no assertion fails. Unique, Served: the theorems.
--   Distributed/Cache/Objects: the copies of other nodes' objects, with `from_guid` and `ensure` of
--     include/distributed/ocr_distributed.h; what `fetch` gets from the owner is an argument.
--     Prefetch: the loop in which a message's handler fetches what it needs.
--   Common/ThreadQueue, Common/ThreadQueue/Fifo: the blocking queue of include/common/threadqueue.h, as
--     steps of the threads in any order.
--   One/Samples, One/Tests: small applications, and the theorems at concrete inputs, as in
--     Shmem/Tests, Shmem/Event/Tests, Shmem/Locking/Tests, Distributed/Tests, Distributed/Cache/Tests,
--     Common/ThreadQueue/Tests and One/Arguments/Tests.
--
-- State and faults. The runtime is a record that each call takes and returns. An assertion that
-- fails (`ocr_assert`, `assert`) ends the call with a `Fault`; so does what is undefined in the
-- code, as an index past the end of a vector. The model of include/shmem gives `none` for both in
-- an event, and that of include/distributed too. Shmem/Locking has `LockResult`: its calls run
-- one after the other, and its `u32` counters wrap at 2 ^ 32. `std::unordered_map` is a function
-- from GUIDs to objects, and a pointer to an object is its GUID, since an object lives as long as
-- it has an entry. GUIDs are numbers, and the generator and the latch count wrap at 2 ^ 64 as
-- `std::size_t` does, and the `u32` latch count of include/shmem at 2 ^ 32.
--
-- The application is not part of the repository: it is a parameter. `App` gives for each function
-- pointer, parameters and dependences a `Program` of API calls, loads and stores, whose next step
-- may depend on all replies. A load or store goes through the pointer to the public copy of a
-- block.
--
-- Bounds. `event::satisfy` calls itself along the edges of events; `event_satisfy fuel` nests at
-- most `fuel` calls, and One/Cascade shows that the rank of an event in a graph without cycles is
-- enough. The loop of `runtime::start` ends when a task calls for it; `main_loop` makes `rounds`
-- rounds at most. In Shmem/Locking the loop that wakes a list makes as many rounds as the list is
-- long, and the loop that locks makes one round per block that is left. The allocator's loops
-- make as many rounds as the buffer has bytes, and each passes a header of 9.
--
-- Not modelled: maps, files, partitions and copies of blocks, and the rest of the runtimes shmem
-- and distributed. Left out: the trace (`dump`, `note_begin`, `note_end`) and the log, which only
-- write output, the return codes of include/one/runtime.h, which are 0 where a call returns, since the
-- assertions before the others (`config::return_error_codes`) stop the program, and the hints and affinities that calls ignore.
pub mod Prelude
pub mod Common
pub mod One
pub mod Shmem
pub mod Distributed
