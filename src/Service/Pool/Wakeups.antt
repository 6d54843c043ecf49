-- ===== src/Service/Pool/Wakeups.antt =====
-- The pipe of the pool wakes the reactor thread for every item of the completion queue.
use dyad.Prelude.{
  ℕ, ◌+◌, ◌<◌, ◌≡◌, refl, ap, Bool, true, false, not, List, [], ◌∷◌, arith, ltb, ◌==◌, if-lem, inl,
  inr, ◌⊎◌,
}
use dyad.Core.Codes.{Rc, is_error}
use dyad.Service.Pool.{
  Job, Event, sent, aborted, Phase, waiting, processing, sending, pushing, waking, exited, Reactor,
  running, draining, drained, finishing, joining, stopped, Pool, update, set_phase, Meets,
  wait_part, after_send, send_part, wake_part, finish_events, worker_part, Happens, queues, wakes,
  returns, reactor_part, all_exited, Moves, by_worker, by_reactor, Reaches, none_yet, and_then,
  started,
}
use dyad.Service.Pool.Weights.{sum_to, sum_to-update}

-- A worker that has pushed and not yet written, and a reactor thread that has not yet taken the queue.
abbrev pub wakers : Phase → ℕ
wakers waking = 1
wakers waiting = 0
wakers (processing j) = 0
wakers (sending j) = 0
wakers (pushing j) = 0
wakers exited = 0

abbrev pub takes : Reactor → ℕ
takes draining = 1
takes drained = 1
takes running = 0
takes (finishing js) = 0
takes joining = 0
takes stopped = 0

abbrev pub wakeups : Pool → ℕ
wakeups s = s.completion_pipe + sum_to wakers s.num_fetch_workers s.workers + takes s.reactor

-- An item on the completion queue has a wakeup on its way.
pub record Awake (s : Pool) : Type 0 where
  pub room : 0 < s.pipe_capacity
  pub on_its_way : (s.completions ≡ []) ⊎ (0 < wakeups s)

module _ (i : ℕ) (s : Pool) (below : i < s.num_fetch_workers) (a : Awake s) where
  turned :
      (p p' : Phase)
      → s.workers i ≡ p
      → sum_to wakers s.num_fetch_workers (update s.workers i p') + wakers p
        ≡ sum_to wakers s.num_fetch_workers s.workers + wakers p'
  turned p p' e = rw (← e) (sum_to-update wakers s.num_fetch_workers s.workers i p' below)

  -- A change of phase that has to do with no wakeup.
  quietly :
      (p p' : Phase) (work : List Job) (log : List Event)
      → s.workers i ≡ p
      → wakers p ≡ 0
      → wakers p' ≡ 0
      → Awake (set_phase i p' (record s { work = work; log = log }))
  quietly p p' work log e none_before none_after = record {
    room = a.room;
    on_its_way = elim a.on_its_way [
      | inl none_left ↦ inl none_left
      | inr awake ↦ inr (omega (arith, turned p p' e))
    ];
  }

  wait_part-Awake : (js : List Job) → s.workers i ≡ waiting → Awake (wait_part i js s)
  wait_part-Awake [] e =
      if-lem Awake s.workers_shutdown (λ _. quietly waiting exited s.work s.log e refl refl)
        (λ _. a)
  wait_part-Awake (j ∷ rest) e = quietly waiting (processing j) rest s.log e refl refl

  send_part-Awake : (rc : Rc) (j : Job) → s.workers i ≡ sending j → Awake (send_part rc i j s)
  send_part-Awake rc j e =
      if-lem Awake (not s.send_detached_is_thread_safe)
        (λ _. quietly (sending j) (pushing j) s.work s.log e refl refl)
        (λ _.
          if-lem Awake (is_error j.item.rc)
            (λ _.
              quietly (sending j) (pushing (record j { req_state = false })) s.work
                (aborted j.msg ∷ s.log) e refl refl)
            (λ _.
              quietly (sending j) (pushing (after_send rc j)) s.work
                (sent j.msg j.item.inbuf ∷ s.log) e refl refl))

  wake_part-Awake : (interrupted : Bool) → s.workers i ≡ waking → Awake (wake_part interrupted i s)
  wake_part-Awake interrupted e =
      if-lem Awake interrupted (λ _. a)
        (λ _.
          if-lem Awake (ltb s.completion_pipe s.pipe_capacity)
            (λ _. record { room = a.room; on_its_way = inr (omega arith) })
            (λ full. record { room = a.room; on_its_way = inr (full_lem full) }))
    where
      full_lem : ltb s.completion_pipe s.pipe_capacity ≡ false → 0 < wakeups (set_phase i waiting s)
      full_lem full = let some_bytes : 0 < s.completion_pipe = ground (arith, a.room) in omega arith

  pub worker_part-Awake : (m : Meets) (p : Phase) → s.workers i ≡ p → Awake (worker_part m i p s)
  unfolding worker_part
  worker_part-Awake m waiting e = wait_part-Awake s.work e
  worker_part-Awake m (processing j) e =
      quietly (processing j) (sending (record j { item = m.item; saved_errno = m.saved_errno }))
        s.work s.log e refl refl
  worker_part-Awake m (sending j) e = send_part-Awake m.sent j e
  worker_part-Awake m (pushing j) e = record {
    room = a.room;
    on_its_way = inr (omega (arith, turned (pushing j) waking e));
  }
  worker_part-Awake m waking e = wake_part-Awake m.interrupted e
  worker_part-Awake m exited e = a

module _ (s : Pool) (a : Awake s) where
  -- The reactor thread goes on and touches neither the queue nor the pipe.
  onward :
      (r r' : Reactor) (log : List Event) (shutdown : Bool)
      → s.reactor ≡ r
      → takes r ≡ 0
      → Awake (record s { reactor = r'; log = log; workers_shutdown = shutdown })
  onward r r' log shutdown e none_before = record {
    room = a.room;
    on_its_way = elim a.on_its_way [
      | inl none_left ↦ inl none_left
      | inr awake ↦ inr (omega (arith, ap takes e))
    ];
  }

  pub reactor_part-Awake :
      (h : Happens) (bytes : ℕ) (r : Reactor) → s.reactor ≡ r → Awake (reactor_part h bytes r s)
  unfolding reactor_part
  reactor_part-Awake (queues msg item) bytes running e =
      if-lem Awake (ltb 0 s.num_fetch_workers)
        (λ _. record { room = a.room; on_its_way = a.on_its_way }) (λ _. a)
  reactor_part-Awake wakes bytes running e =
      if-lem Awake (s.completion_pipe == 0) (λ _. a)
        (λ _. onward running draining s.log s.workers_shutdown e refl)
  reactor_part-Awake returns bytes running e = onward running joining s.log true e refl
  reactor_part-Awake h bytes draining e =
      if-lem Awake (s.completion_pipe == 0)
        (λ _. record { room = a.room; on_its_way = inr (omega arith) })
        (λ _. record { room = a.room; on_its_way = inr (omega (arith, ap takes e)) })
  reactor_part-Awake h bytes drained e = record { room = a.room; on_its_way = inl refl }
  reactor_part-Awake h bytes (finishing []) e =
      onward (finishing []) running s.log s.workers_shutdown e refl
  reactor_part-Awake h bytes (finishing (j ∷ rest)) e =
      onward (finishing (j ∷ rest)) (finishing rest) (finish_events j s.log) s.workers_shutdown e
        refl
  reactor_part-Awake h bytes joining e =
      if-lem Awake (all_exited s.num_fetch_workers s.workers)
        (λ _. onward joining stopped s.log s.workers_shutdown e refl) (λ _. a)
  reactor_part-Awake h bytes stopped e = a

Moves-Awake : {s t : Pool} → Moves s t → Awake s → Awake t
Moves-Awake {s} (by_worker m i below) a = worker_part-Awake i s below a m (s.workers i) refl
Moves-Awake {s} (by_reactor h bytes) a = reactor_part-Awake s a h bytes s.reactor refl

-- In every state that a pool reaches, an item on the completion queue has a wakeup on its way: a byte
-- in the pipe, a worker that is about to write one, or the reactor thread about to take the queue.
-- The pipe holds at least a byte.
pub Reaches-Awake :
    {safe : Bool} {capacity n : ℕ} {t : Pool}
    → 0 < capacity
    → Reaches (started safe capacity n) t
    → (t.completions ≡ []) ⊎ (0 < wakeups t)
Reaches-Awake room r = (Reaches-all room r).on_its_way
  where
    Reaches-all :
        {safe : Bool} {capacity n : ℕ} {t : Pool}
        → 0 < capacity
        → Reaches (started safe capacity n) t
        → Awake t
    Reaches-all room none_yet = record { room = room; on_its_way = inl refl }
    Reaches-all room (and_then r m) = Moves-Awake m (Reaches-all room r)
