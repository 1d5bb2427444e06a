-- ===== src/Lib.antt =====
-- A model of AGIOS, a library that schedules the requests that I/O servers receive (src/README.md).
--
-- The user adds requests to a file with `agios_add_request`; the AGIOS thread runs a scheduling
-- algorithm that chooses requests and gives them back through callbacks; the user then releases
-- (`agios_release_request`) or cancels (`agios_cancel_request`) a request. Requests wait in one of
-- two data structures: a hash table of files, each with a read and a write queue in the order of
-- offsets, or the timeline. Contiguous requests of a queue are aggregated to virtual requests. A
-- change of the algorithm may move all requests from one structure to the other.
--
-- The files, and the sources that they model (all under src/):
--   Request          agios_request.h, and the constructors of agios_add_request.c
--   Aggregation      agios_add_request.h, and the aggregations of agios_add_request.c
--   Hash             hash.c
--   CommonFunctions  common_functions.c
--   Schedulers       the table of scheduling_algorithms.c
--   Statistics       statistics.c
--   Performance      performance.c, and the credit of a release in agios_release_request.c
--   Lines            the lines of the hash table: `find_req_file`
--   State            the global variables, and agios_counters.c
--   QueueInsert      the insertion in a queue: the second half of `hashtable_add_req`
--   Hashtable        req_hashtable.c
--   Timeline         req_timeline.c
--   Process          process_request.c, and `generic_post_process`
--   AddRequest       `agios_add_request`, `statistics_newreq`
--   Release, Cancel  agios_release_request.c, agios_cancel_request.c
--   Waiting          waiting_common.c
--   Mlf, Aioli, Sjf  MLF.c, aIOLi.c, SJF.c
--   Config           agios_config.c
--   Trace            trace.c
--   Scheduling       what the loops of the algorithms share
--   Timeorder        TO.c, SW.c, NOOP.c
--   Wfq, Twins       WFQ.c, TWINS.c
--   Migration        the migrations of data_structures.c, and `change_selected_alg` of
--                    scheduling_algorithms.c
--   DataStructures   the start of data_structures.c, `reset_all_statistics` of statistics.c
--   AgiosThread      the decisions of agios_thread.c
--   Agios            `agios_init` and `cleanup_agios` of agios.c
--   System           runs of the library, as a step relation
-- The modules below each of them hold its theorems. Common has lists, signed integers and C strings
-- over native numbers; Tests has runs on small inputs.
--
-- State is the record `State`, with one field for each global variable, and an operation takes and
-- returns it. A function of the source has a definition of its name (in lower case), with its
-- arguments, and with what it reads from outside as further arguments: `Memory` says which calls of
-- `malloc` succeed, `Context` holds the algorithm and the configuration, `Dispatch` the clock and
-- the callbacks. A pointer to a file is its line and handle, and one to a queue (`globalinfo`) those
-- and the type. What C leaves undefined (a pointer that is not set, a value that was never written,
-- a failed `assert`) is the outcome `fault`. Numbers that cannot be negative are natural numbers,
-- without overflow, other counters are integers; the hash is computed modulo 2 ^ 64, and the factors
-- of MLF and aIOLi, their products with the quantum, and the use of a quantum modulo 2 ^ 32.
--
-- An operation is one critical section: mutexes and threads are not modelled. A scheduling loop runs
-- over a list of rounds; a round says what memory, clock and callbacks are like, what the other
-- threads do to the state in between, and whether the thread is asked to stop. A run on too few
-- rounds is marked as cut; the theorems on loops state how many rounds are enough, and that the loop
-- then ends by itself. The other loops of the source are recursions on the list that they go over.
--
-- Weights: a function on requests is added up over a queue, a line, the table or the timeline. An
-- equation of weights for every such function says that a container holds the same requests, each as
-- often.
--
-- The user's view (System/Refines) is a bag of identifiers: an addition puts one in, a service takes
-- some out, and the other steps leave the bag as it is.
--
-- The configuration is read from a record of look-ups in place of libconfig. A look-up of a missing
-- name leaves its variable as it is, and the two variables that all look-ups share are passed from one
-- to the next. The trace has the file system as a function from names to contents, and `printf`'s
-- numbers as a function `ld`; the search for the number of the file runs on fuel, and ends once the
-- fuel reaches a number that is free.
--
-- Not modelled: the stop and the sleep of the threads (agios.c, agios_thread.c), the list
-- implementation of the Linux kernel (mylist.c; queues are lists here), printing and the release of
-- memory at the end (but that of the trace's buffers). The waiting and locking of the mutexes are not
-- modelled but for MLF's attempts. Virtual requests inside virtual requests, which a migration to
-- TO-agg can build, and a virtual request that a migration to the hash table puts in its own list of
-- parts or behind a freed one, are the outcome `fault`.
mod Common
pub mod Request
pub mod Aggregation
pub mod Agios
pub mod Hash
pub mod CommonFunctions
pub mod Schedulers
pub mod Statistics
pub mod Lines
pub mod Performance
pub mod State
pub mod QueueInsert
pub mod Hashtable
pub mod Timeline
pub mod Trace
pub mod Process
pub mod AddRequest
pub mod Release
pub mod Cancel
pub mod Waiting
pub mod Mlf
pub mod Aioli
pub mod Sjf
pub mod Scheduling
pub mod Timeorder
pub mod Migration
pub mod Config
pub mod DataStructures
pub mod Wfq
pub mod Twins
pub mod System
pub mod AgiosThread
mod Tests
