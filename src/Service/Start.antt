-- ===== src/Service/Start.antt =====
-- The start and the end of the worker pool: `dyad_fetch_pool_start`, `dyad_fetch_pool_stop` and
-- `freectx` of dyad/service/flux_module/dyad.c, by what the module holds. The answers of the calls
-- are arguments. What the threads do between is in Service.Pool.
pub mod Workers
mod Tests
use dyad.Prelude.{
  ℕ, zero, suc, ◌+◌, ◌-◌, Bool, true, false, Option, none, some, ltb, ◌==◌, if◌then◌else◌,
}
use dyad.Core.Codes.{Rc, rc_ok, rc_sysfail}

-- What of `struct dyad_mod_ctx` is made and given back here: the open pipe, the watcher in the
-- reactor, the array, the count in it, and the threads that are not joined.
pub record Held : Type 0 where
  pub completion_pipe : Bool
  pub completion_watcher : Bool
  pub fetch_workers : Bool
  pub num_fetch_workers : ℕ
  pub threads : ℕ
  pub workers_shutdown : Bool

-- As `get_mod_ctx` makes it.
abbrev pub new_held : Held
new_held = record {
  completion_pipe = false;
  completion_watcher = false;
  fetch_workers = false;
  num_fetch_workers = 0;
  threads = 0;
  workers_shutdown = false;
}

-- `env_workers` is the number that `atoi` reads in DYAD_FETCH_WORKER_THREADS, with 0 for the negative
-- ones, which count the same; `none` is a variable that is not set. `pthread_create` answers the
-- call for the thread with that index.
pub record StartCalls : Type 0 where
  pub env_workers : Option ℕ
  pub pipe : Bool
  pub watcher_create : Bool
  pub calloc : Bool
  pub pthread_create : ℕ → Bool

abbrev pub num_workers : Option ℕ → ℕ
num_workers none = 8
num_workers (some parsed) = if ltb 0 parsed then parsed else 8

-- The loop with `n` rounds to go; it is left at the first thread that is not created.
unfoldable pub create_workers : ℕ → (ℕ → Bool) → ℕ → ℕ
create_workers zero create i = i
create_workers (suc n) create i =
    let rest = create_workers n create (i + 1) in if create i then rest else i

abbrev pub count_workers : Held → ℕ → Held × Rc
count_workers h n = (
  record h { fetch_workers = true; num_fetch_workers = n; threads = h.threads + n },
  if n == 0 then rc_sysfail else rc_ok,
)

-- The watcher is started as soon as it is there; no exit below takes it back.
abbrev pub with_watcher : StartCalls → Held → Held × Rc
with_watcher os h =
    if os.calloc
    then count_workers h (create_workers (num_workers os.env_workers) os.pthread_create 0)
    else (h, rc_sysfail)

unfoldable pub dyad_fetch_pool_start : StartCalls → Held → Held × Rc
dyad_fetch_pool_start os h =
    if os.pipe
    then if os.watcher_create
      then with_watcher os (record h { completion_pipe = true; completion_watcher = true })
      else (record h { completion_pipe = true }, rc_sysfail)
    else (h, rc_sysfail)

-- Each join takes the thread away.
unfoldable pub dyad_fetch_pool_stop : Held → Held
dyad_fetch_pool_stop h =
    if h.fetch_workers
    then record h {
      workers_shutdown = true;
      threads = h.threads - h.num_fetch_workers;
      completion_watcher = false;
    }
    else h

-- It takes the watcher for destroyed.
abbrev pub freectx : Held → Held
freectx h = record h { fetch_workers = false; completion_pipe = false }

-- What is left when `mod_main` has started the pool, has stopped it behind the reactor loop, and the
-- context is freed.
unfoldable pub mod_main : StartCalls → Held
mod_main os = freectx (dyad_fetch_pool_stop (dyad_fetch_pool_start os new_held).0)
