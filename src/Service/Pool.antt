-- ===== src/Service/Pool.antt =====
-- The worker pool of dyad/service/flux_module/dyad.c: the reactor thread takes the requests and sends
-- the answers, the workers do the I/O between. A part of a thread runs from one lock, or call that
-- other threads see, to the next; the parts of the threads come in any order.
pub mod Weights
pub mod Balance
pub mod Reached
pub mod Wakeups
pub mod Shutdown
pub mod Quiet
mod Tests
use dyad.Prelude.{
  ℕ, zero, suc, ◌+◌, ◌-◌, ◌<◌, Bool, true, false, not, ◌&&◌, List, [], ◌∷◌, ◌++◌, Option, none,
  some, ltb, ◌==◌, if◌then◌else◌, min,
}
use dyad.Core.Codes.{Rc, is_error}
use dyad.Service.{WorkItem}

-- A work item with what it owns besides the buffer: the message, and the request that is detached
-- from it until it is sent or aborted.
pub record Job : Type 0 where
  pub msg : ℕ
  pub item : WorkItem
  pub saved_errno : ℕ
  pub req_state : Bool

-- What leaves the module: `rpc_send_detached`, `rpc_abort_detached`, and the answer that closes the
-- stream, with its errno.
pub data Event : Type 0 where
  sent : ℕ → List ℕ → Event
  aborted : ℕ → Event
  responded : ℕ → ℕ → Event

-- Where a worker stands: at the wait, in `dyad_fetch_worker_process`, before the detached send, before
-- the push to the completion queue, before the write to the pipe, or returned.
pub data Phase : Type 0 where
  waiting : Phase
  processing : Job → Phase
  sending : Job → Phase
  pushing : Job → Phase
  waking : Phase
  exited : Phase

-- Where the reactor thread stands: in the event loop, in the watcher before and behind the end of its
-- reads, in its loop over the items, in `dyad_fetch_pool_stop`, or behind it.
pub data Reactor : Type 0 where
  running : Reactor
  draining : Reactor
  drained : Reactor
  finishing : List Job → Reactor
  joining : Reactor
  stopped : Reactor

-- `accepted` are the messages whose requests were queued, and `log` what left the module, the last
-- event first.
pub record Pool : Type 0 where
  pub send_detached_is_thread_safe : Bool
  pub pipe_capacity : ℕ
  pub num_fetch_workers : ℕ
  pub workers : ℕ → Phase
  pub reactor : Reactor
  pub work : List Job
  pub completions : List Job
  pub completion_pipe : ℕ
  pub workers_shutdown : Bool
  pub accepted : List ℕ
  pub log : List Event

abbrev pub update : (ℕ → Phase) → ℕ → Phase → ℕ → Phase
update f i p j = if i == j then p else f j

abbrev pub set_phase : ℕ → Phase → Pool → Pool
set_phase i p s = record s { workers = update s.workers i p }

-- What a worker meets: the item as `dyad_fetch_worker_process` leaves it with its errno, the answer
-- of the send, and whether the write to the pipe is interrupted.
pub record Meets : Type 0 where
  pub item : WorkItem
  pub saved_errno : ℕ
  pub sent : Rc
  pub interrupted : Bool

abbrev pub ecomm : ℕ
ecomm = 70

abbrev pub enodata : ℕ
enodata = 61

-- The wait: the head of the work queue, or the end when the pool is shut down.
abbrev pub wait_part : ℕ → List Job → Pool → Pool
wait_part i [] s = if s.workers_shutdown then set_phase i exited s else s
wait_part i (j ∷ rest) s = set_phase i (processing j) (record s { work = rest })

abbrev pub after_send : Rc → Job → Job
after_send rc j =
    let kept : Job = record j { req_state = false } in
    if is_error rc
    then record kept { item = record j.item { rc = rc }; saved_errno = ecomm }
    else kept

-- The first half of `dyad_fetch_worker_finish`.
abbrev pub send_part : Rc → ℕ → Job → Pool → Pool
send_part rc i j s =
    if not s.send_detached_is_thread_safe
    then set_phase i (pushing j) s
    else if is_error j.item.rc
    then set_phase i (pushing (record j { req_state = false }))
        (record s { log = aborted j.msg ∷ s.log })
    else set_phase i (pushing (after_send rc j))
        (record s { log = sent j.msg j.item.inbuf ∷ s.log })

-- The write of the wakeup byte is tried again after EINTR, and given up on a full pipe.
abbrev pub wake_part : Bool → ℕ → Pool → Pool
wake_part interrupted i s =
    if interrupted
    then s
    else if ltb s.completion_pipe s.pipe_capacity
    then set_phase i waiting (record s { completion_pipe = s.completion_pipe + 1 })
    else set_phase i waiting s

-- The next part of worker `i`.
unfoldable pub worker_part : Meets → ℕ → Phase → Pool → Pool
worker_part m i waiting s = wait_part i s.work s
worker_part m i (processing j) s =
    set_phase i (sending (record j { item = m.item; saved_errno = m.saved_errno })) s
worker_part m i (sending j) s = send_part m.sent i j s
worker_part m i (pushing j) s =
    set_phase i waking (record s { completions = s.completions ++ j ∷ [] })
worker_part m i waking s = wake_part m.interrupted i s
worker_part m i exited s = s

-- What the event loop does next: it queues a request, calls the watcher, or returns.
pub data Happens : Type 0 where
  queues : ℕ → WorkItem → Happens
  wakes : Happens
  returns : Happens

-- The end of `dyad_fetch_range_request_cb` where a request goes to the workers.
abbrev pub enqueue : ℕ → WorkItem → Pool → Pool
enqueue msg item s =
    let j : Job = record { msg = msg; item = item; saved_errno = 0; req_state = true } in
    record s { work = s.work ++ j ∷ []; accepted = msg ∷ s.accepted }

abbrev pub loop_part : Happens → Pool → Pool
loop_part (queues msg item) s = if ltb 0 s.num_fetch_workers then enqueue msg item s else s
loop_part wakes s = if s.completion_pipe == 0 then s else record s { reactor = draining }
loop_part returns s = record s { reactor = joining; workers_shutdown = true }

-- What `dyad_fetch_completion_watcher_cb` does with an item.
abbrev pub finish_events : Job → List Event → List Event
finish_events j log =
    if is_error j.item.rc
    then responded j.msg j.saved_errno ∷ (if j.req_state then aborted j.msg ∷ log else log)
    else responded j.msg enodata ∷ (if j.req_state then sent j.msg j.item.inbuf ∷ log else log)

abbrev pub has_exited : Phase → Bool
has_exited exited = true
has_exited _ = false

unfoldable pub all_exited : ℕ → (ℕ → Phase) → Bool
all_exited zero workers = true
all_exited (suc n) workers = has_exited (workers n) && all_exited n workers

-- The next part of the reactor thread. A read takes `bytes` bytes of the pipe, at least one.
unfoldable pub reactor_part : Happens → ℕ → Reactor → Pool → Pool
unfolding all_exited
reactor_part h bytes running s = loop_part h s
reactor_part h bytes draining s =
    if s.completion_pipe == 0
    then record s { reactor = drained }
    else record s { completion_pipe = s.completion_pipe - min 256 (bytes + 1) }
reactor_part h bytes drained s = record s { reactor = finishing s.completions; completions = [] }
reactor_part h bytes (finishing []) s = record s { reactor = running }
reactor_part h bytes (finishing (j ∷ rest)) s = record s {
  reactor = finishing rest;
  log = finish_events j s.log;
}
reactor_part h bytes joining s =
    if all_exited s.num_fetch_workers s.workers then record s { reactor = stopped } else s
reactor_part h bytes stopped s = s

-- One part of one thread.
pub data Moves (s : Pool) : Pool → Type 0 where
  by_worker :
      (m : Meets) (i : ℕ) → i < s.num_fetch_workers → Moves s (worker_part m i (s.workers i) s)
  by_reactor : (h : Happens) (bytes : ℕ) → Moves s (reactor_part h bytes s.reactor s)

pub data Reaches (s : Pool) : Pool → Type 0 where
  none_yet : Reaches s s
  and_then : {t u : Pool} → Reaches s t → Moves t u → Reaches s u

-- The pool as `dyad_fetch_pool_start` leaves it.
abbrev pub started : Bool → ℕ → ℕ → Pool
started safe capacity n = record {
  send_detached_is_thread_safe = safe;
  pipe_capacity = capacity;
  num_fetch_workers = n;
  workers = λ _. waiting;
  reactor = running;
  work = [];
  completions = [];
  completion_pipe = 0;
  workers_shutdown = false;
  accepted = [];
  log = [];
}
