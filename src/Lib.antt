-- ===== src/Lib.antt =====
-- The runtime system of the Glasgow Haskell Compiler (directory rts), written in C, and the C
-- tools built with it: their data structures as functional programs, with proofs that they are
-- correct. Each module is named after the C file that it models; a function has the name of the
-- C function, in snake case.
--
-- Files:
-- - Retainer (rts/RetainerSet.c, rts/RetainerSet.h): the sets of retainers of the retainer
--   profiler, in the configuration SECOND_APPROACH, with the table of chains in which each set
--   is found again. A pointer to a set is the set, whose field `id` tells it from the others.
--   The binary search of `isMember` has the number of elements and one more as fuel; the sum of
--   its two `int`s overflows above 2 ^ 31 - 1, and sets of at most 2 ^ 30 elements are enough
--   to exclude that. That a set is not larger than `maxRetainerSetSize`, which `addElement`
--   asserts, is a hypothesis.
-- - Threads (rts/Schedule.h, rts/Schedule.c, rts/Threads.c): the run queue, which is linked in
--   both directions through the threads, and the removal of a thread from other queues, whose
--   loops have fuel, enough for one round for each thread of the queue and one more. A thread
--   is its address, and the links are functions. A write barrier is a write. `Threads.Client`
--   runs any sequence of calls beside a plain list.
-- - Stable (rts/Stable.c, includes/rts/Stable.h): the stable names and stable pointers, with
--   the free list that runs through the entries of their table. A pointer to an entry is its
--   index; the field `addr` is a data type, where C tells an object from an entry by its
--   address. The hash table from addresses to names is a parameter (`Stable.Table`), and
--   `Stable.Hashed` shows that the tables of `Hash` are such, where `malloc` gives a chunk that
--   overlaps no cell of the table. The heap is a function that gives the target of each
--   indirection; `removeIndirections` runs on fuel, which is enough where it leads to an object
--   (`LeadsTo`). Where objects move in a collection is a function as well. `SPT_size` is an
--   `unsigned int`: to double 2 ^ 31 entries or more is a wild access, and lookups have a bound
--   on the size as a hypothesis. `none` is a wild access.
-- - Hpc (rts/Hpc.c, includes/rts/Hpc.h): the files of coverage counts. A reader takes the bytes
--   of the file from the current one on, and gives `failed` where the C code exits with a
--   message, and `wild` where it writes past an array or goes through a null pointer. The loop
--   over the modules of a file has the length of the file as fuel; each round reads at least
--   one byte or fails. The table of modules, which C keeps in a list and in a table of `Hash`,
--   is a list that is searched by name. `fprintf` writes numbers in decimal, and `calloc` gives
--   memory. Opening the file and choosing its name are not modelled.
-- - Stm (rts/STM.c): software transactional memory in the configuration of the runtime that is
--   not threaded, STM_UNIPROC, in which no step of another thread falls inside an operation.
--   `Stm.Trec` has the transaction records, with their chunks, `Stm.World` the variables, watch
--   queues, threads and invariants, `Stm.Ops` the operations. In `Stm.Process` a transaction
--   calls them while the world changes arbitrarily between two calls, and in `Stm.Sleep`
--   threads wait and are woken. Pointers are numbers, and a nest of records is a list, the
--   innermost first. The free lists through which records, chunks and queue entries are used
--   again are left out: a new one is as `new_stg_...` makes it. So are the locks of the other
--   two configurations, `check_read_only` and the tokens.
-- - BlockAlloc (rts/sm/BlockAlloc.c, includes/rts/storage/Block.h): the megablock groups, as a
--   list of groups that are known by the number of their first megablock, with what frees,
--   allocates, returns and counts them; and the buckets of the free lists of smaller groups.
--   The loops over the buckets have MAX_FREE_LIST rounds, as in C. What `getMBlocks` finds is
--   an argument. The field `blocks` has 32 bits, enough for a group of 2 ^ 24 megablocks (16
--   TB); the joining of groups and the allocation of a group have that bound as a hypothesis.
--   `allocGroup` and `freeGroup`, which work on the descriptors of one megablock, are not
--   modelled.
-- - WsDeque (rts/WSDeque.c, rts/WSDeque.h): the work-stealing deque under the spark pools. Its
--   operations are cut into steps of one shared access each (`Owner` and `Thief` say where a
--   thread stands, with its live locals), `owner_step` and `thief_step` run one step, and
--   `Safety.Reach` is any interleaving of them. The loop of `roundUp2` has its argument as
--   fuel, which is enough. The barriers of the code are taken at their word: accesses are
--   sequentially consistent. Elements are addresses of closures and never `NULL`.
-- - Hash (rts/Hash.c): linear hash tables, with the segments of the directory, the chunks of
--   cells and their free list. `none` is a wild access, or the failure of the assertion at the
--   end of `removeHashTable`, as in a debug build. The addresses that `malloc` gives are an
--   argument of `insert_hash_table`; that a new chunk overlaps no cell of the table is a
--   hypothesis (`IsFresh`). `strcmp` is an argument of `str_ops`. The fields are `int`s in C,
--   and stay below 2 ^ 31; `kcount` does not fall below 0 where it is the number of cells
--   (`IsCounted`).
-- - Unlit (utils/unlit/unlit.c): the filter for literate scripts. The input stream carries the
--   static variables of `egetc`; the loops of `readline` have the longest possible line as fuel
--   (`enough`), and the loop of `unlit` the length of the script. `fgets`, `isspace` and
--   `strncmp` are those of the C library. The file system is an argument of `main`; writes that
--   fail are not modelled.
-- - Prelude: the names of the libraries, and lemmas on lists, sums, masks and words that the
--   parts share.
--
-- Each part has modules for its invariant, one module for each group of operations, and a
-- module `Tests` with concrete runs.
-- Not modelled: the garbage collector, the loop of the scheduler, the byte-code interpreter,
-- the linker, the rest of profiling, event logging, the code for the platforms, the parallel
-- runtime in rts/parallel, the compiler itself, which is written in Haskell, and the other
-- tools in utils. They depend on the layout of heap objects or on the operating system.
pub mod BlockAlloc
pub mod Retainer
pub mod Stable
pub mod Threads
pub mod Stm
pub mod Hpc
pub mod Prelude
pub mod Hash
pub mod Unlit
pub mod WsDeque
