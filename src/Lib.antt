-- ===== src/Lib.antt =====
-- DYAD, which moves files between producers and consumers of a workflow: a producer commits a file
-- under its managed directory, a consumer waits for it, fetches it and stores it under its own. The
-- parts of the program, with paths from the root of the repository:
--   src/dyad/utils/utils.c         paths: joining, taking apart, and the filter that decides which
--                                  paths are managed
--   src/dyad/core/dyad_ctx.c       the context: its set-up, and the managed paths with their lengths and
--                                  hashes
--   src/dyad/utils/range_cache.c   the blocks of a local file that are filled from its origin
--   src/dyad/cache/                the eviction from a managed directory
--   src/dyad/client/dyad_client.c  produce and consume, which use all of the above
--   src/dyad/service/, src/dyad/dtl/   the broker module that sends files, and its transports
--   src/dyad/wrapper/, src/dyad/stream/, pydyad/   what intercepts or offers the calls of the client
--
-- Files of this library:
--   Prelude      lists and bits over the native numbers; `Run`, where `fault` is a read or write out of
--                bounds or through NULL
--   Core         Codes: dyad_rc_t; Context: dyad_ctx_t; SetPath: dyad_set_prod_path and
--                dyad_set_cons_path; Hashed: what they establish; Init: dyad_init in the stages of its code,
--                the set-up from the environment, the choice of the transport, dyad_clear
--   Utils        Strings: concat_str and extract_user_path, on texts with addresses, as they refuse
--                buffers that overlap; Paths: hash_str, hash_path_prefix, cmp_canonical_path_prefix;
--                Directories: mkpath and mkdir_as_needed, on a tree that other processes change too; Flock:
--                the lock functions, and the locks that the processes hold on a file
--   RangeCache   range_cache.c. A path has three files: local, bitmap, origin. `IsSound` says that a
--                marked block of the local file holds the origin's bytes. Races cuts the function at its
--                locks, and any number of callers take their parts in any order
--   Cache        dyad_cache.c, the policies, and dyad_set_and_init_cache_policy
--   Service      what a worker thread of the broker module does for a range request
--                (dyad_fetch_worker_process); Requests: the handlers dyad_fetch_request_cb and
--                dyad_fetch_range_request_cb; Start: the start and the end of the pool
--                (dyad_fetch_pool_start, dyad_fetch_pool_stop, freectx); Pool: the reactor thread and the
--                workers, as steps over the two queues, the wakeup pipe and a log of what leaves the module
--                (dyad_fetch_worker_main, dyad_fetch_worker_finish, dyad_fetch_completion_watcher_cb,
--                dyad_fetch_pool_stop)
--   Client       PathKey: gen_path_key; Commit: dyad_commit with publish_via_flux and dyad_kvs_commit;
--                Metadata: dyad_kvs_read, dyad_fetch_metadata, dyad_get_metadata; GetData:
--                dyad_get_data and dyad_get_data_range; Store: dyad_cons_store; Consume: dyad_consume and
--                dyad_produce; ConsumeWMetadata: dyad_consume_w_metadata; ConsumeRange:
--                dyad_consume_range, on top of Utils.Paths and RangeCache
--   Dtl          Flux: flux_dtl.c, with the messages that detached requests keep; EpCache: ucx_ep_cache.cpp,
--                the map of endpoints; Ucx: what ucx_dtl.c does with a request of a consumer, and how
--                dyad_fetch_request_cb calls it
--   Wrapper      the intercepted open, fopen, close and fclose, and their 64-bit forms
--
-- Conventions. What the system answers (open, locks, allocations, reads and writes of whole files) is
-- an argument of a definition, so a theorem covers every pattern of failures. Numbers of 32 and 64 bits
-- are written with their wrap-around. Times and sizes are not negative. Outside Utils.Flock, which
-- has the lock functions of utils.c, a lock is an answer and excludes the other callers. A call that
-- fails changes nothing. The tests for a NULL argument that no caller passes are left out, and so are
-- the calls that log and profile.
--
-- Bounds and fuel. The store of a large file and the reads of a worker run on fuel, a round for each
-- call of write or pread. One round for each byte is enough (for the store when no call fails): the
-- theorems on them take that much fuel and give a result.
--
-- Parameters. MurmurHash3 (src/dyad/utils/murmur3.c, a copy) is a function of the text and the seed;
-- realpath is a function of the path; qsort is a function that sorts and permutes. Flux and the
-- transports are the answers of their calls; where a producer meets a consumer, the KVS is a store with
-- the laws of `put` and `get` (Client.Commit.Found). A commit submits to the KVS, and whether the KVS
-- takes what is submitted is an answer. What Jansson packs and unpacks, and the decoding of
-- base64, are functions; for the round trip of a range, unpacking is taken to give what was packed. UCX
-- is the answers of its calls, with the endpoints that are open and the puts that are done; whether the
-- C++ map of endpoints has memory for a new one is an answer too. The
-- conversions of numbers of the C library are functions of the text. The consumers take
-- dyad_fetch_metadata, dyad_get_data and dyad_get_data_range as answers, as those three are modelled
-- by themselves.
--
-- Threads. A part of a thread runs from one lock, or call that others see, to the next. The condition
-- variable of the work queue is its condition: a worker at the wait goes on when there is work or a
-- shutdown. `log` and `accepted` record what has happened and are not read by the code.
--
-- Not modelled: the options of the broker module, which read a command line; the Margo transport and the
-- set-up of the UCX transport, which are mostly calls of those libraries; the registration of the wrapper
-- with GOTCHA; the C++ and Python bindings, which only call the client; and base64 (a copy).
pub mod Cache
pub mod Client
pub mod Core
pub mod Dtl
pub mod Prelude
pub mod RangeCache
pub mod Service
pub mod Utils
pub mod Wrapper
