-- ===== src/Lib.antt =====
-- The core of CoherentDB, a database in C++, and what its components guarantee.
--
-- The program. The database reads and writes files through `multi_buffer`s, lists of reference
-- counted buffers that are copied on write (src/util/multi_buffer.cpp). Asynchronous file
-- operations (src/util/aio.cpp) are requests that worker threads run (src/include/util/worker_pool.h).
-- Memory is handed out by sub sessions (src/memory_manager/sub_session.cpp), whose sessions reserve
-- it with one memory manager (src/memory_manager/manager.cpp). The network server, the journal, the
-- buffer cache and the serialization use these or stand beside them.
--
-- The files.
-- - Common: the names that all modules share: library names, lists over native numbers, unsigned
--   words with their wrap-around, and `Outcome`, what a call comes to: a value, an exception, a
--   failed assertion or undefined behaviour.
-- - MultiBuffer: `alloc_aligned`, the constructors of `multi_buffer`, and `do_rw` with `read` and
--   `write`. The heap is a list of buffers, and a `buffer_ptr` an index into it. The loop over the
--   buffers is recursion on their list. The C library's allocator is a parameter (CAllocator).
-- - MemoryManager: Containers has `std::map` and `std::set` as ordered lists. SubSession has
--   `allocate` and `deallocate` and what they call; a pointer is its address, and the kernel's
--   `mmap` a parameter (Mapper). Freezing has `begin`, `end`, `freeze` and `unfreeze` of a sub
--   session, each thread an entry of a list. Allocator has `allocate` and `deallocate` of the
--   allocator for containers. Manager has the reservations, each critical section one step. Session has
--   what threads do with a session (src/memory_manager/session.cpp), over Freezing and Manager.
-- - WorkerPool: `sync_queue` and `worker_pool`, with threads as states and their moves as steps; a
--   thread sleeps in `cond.wait` until it is notified, or wakes up without.
-- - Aio: `async_file` with its requests, and the workers' `handle_exact`; the answers of the kernel
--   are a parameter (SystemCalls).
-- - BufferCache: the frames of `buffer_cache` on its three lists. A frame is a record with its place in
--   memory; `ensure_uniq` is MultiBuffer's copy on write.
-- - Serialization: the codecs (src/include/serialization/codecs) as functions of an encoder or a
--   decoder, which Laws says what they rely on. The pair over memory is the reference; FileStream has
--   the pair over files, whose answers of `read` and `write` are part of its state; Integer, Container
--   and Optimizer have the codecs, the latter for either byte order of the host, and Files a codec of maps written to a file and read back.
-- - File: `file` (src/util/file.cpp) over MultiBuffer, and the alignment (src/include/util/misc.h). A
--   file is its bytes, and what the kernel answers to a transfer is a parameter (Answer); the new
--   buffers of a read join the heap when a multi_buffer is made of them.
-- - Config: the reader of configuration files (src/config/config.cpp), Sections the sections of
--   `global_config`. A text is the list of its characters' codes, and `std::map` an ordered list;
--   `regex_match` and `lexical_cast` are parameters.
-- - Threads: the spin lock (src/include/util/thread.h), with its loop as rounds and the threads' scoped
--   locks as flags.
-- In each of them the file of the component has the definitions, the files below it the lemmas and
-- theorems, and Tests the runs.
--
-- Bounds. `uint32_t` and `size_t` are numbers below 2^32 and 2^64 with the wrap-around written out;
-- theorems that need the absence of wrap-around say so. The loops are recursion on a list or on the
-- rounds left; only the copying loops of file_encoder and file_decoder run on fuel, one round more than
-- there are bytes, and fault without it, which the theorems about them exclude.
--
-- Assertions are those of a build without NDEBUG. Condition variables may wake up at any time. The
-- memory manager's wait is a step that may be repeated, so what is notified is stated apart from who
-- goes on.
--
-- Not modelled. Of sessions, the reservations of the constructors, which are the manager's calls;
-- of sub sessions, construction and destruction; of the memory manager, `init`; of the buffer
-- cache, the constructor. The network server and the journal are not modelled; of the codecs, how
-- one is chosen by type; of the threads, `completion`. Logging, stack traces and the template
-- helpers in src/include/misc have no state. The result of `munmap` and of `posix_madvise` is only
-- logged in the code, so a call of `munmap` is the removal from the map.
pub mod Aio
pub mod BufferCache
pub mod Common
pub mod Config
pub mod File
pub mod MemoryManager
pub mod MultiBuffer
pub mod Serialization
pub mod Threads
pub mod WorkerPool
