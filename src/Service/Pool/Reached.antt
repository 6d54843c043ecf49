-- ===== src/Service/Pool/Reached.antt =====
-- Every step of the reactor and the workers keeps the balance of Service.Pool.Balance.
use dyad.Prelude.{ℕ, ◌+◌, ◌≡◌, refl, ap, Bool, true, List, [], ◌∷◌, arith, ltb, ◌==◌, if-lem}
use dyad.Core.Codes.{is_error}
use dyad.Service.Pool.{
  Job, Event, waiting, Reactor, running, draining, drained, finishing, joining, stopped, Pool,
  Happens, queues, wakes, returns, loop_part, finish_events, reactor_part, all_exited, Moves,
  by_worker, by_reactor, Reaches, none_yet, and_then, started,
}
use dyad.Service.Pool.Weights.{
  sum_to-eq_zero, on_jobs, on_jobs-snoc, on_phase, on_reactor, present, open_for, responses,
  settlements,
}
use dyad.Service.Pool.Balance.{AllOpen-snoc, Balanced, worker_part-Balanced}

-- What an item leaves in the log.
finish_events-responses :
    (msg : ℕ) (j : Job) (log : List Event)
    → responses msg (finish_events j log) ≡ present msg j + responses msg log
finish_events-responses msg j log =
    if-lem (λ l. responses msg l ≡ present msg j + responses msg log) (is_error j.item.rc)
      (λ _.
        if-lem (λ l. present msg j + responses msg l ≡ present msg j + responses msg log)
          j.req_state (λ _. omega arith) (λ _. refl))
      (λ _.
        if-lem (λ l. present msg j + responses msg l ≡ present msg j + responses msg log)
          j.req_state (λ _. omega arith) (λ _. refl))

finish_events-settlements :
    (msg : ℕ) (j : Job) (log : List Event)
    → settlements msg (finish_events j log) ≡ open_for msg j + settlements msg log
finish_events-settlements msg j log = ground arith

module _ (s : Pool) (b : Balanced s) where
  loop_part-Balanced : (h : Happens) → s.reactor ≡ running → Balanced (loop_part h s)
  loop_part-Balanced (queues msg item) e =
      if-lem Balanced (ltb 0 s.num_fetch_workers)
        (λ _. record {
          answered = λ m. omega (arith, on_jobs-snoc (present m) s.work new, b.answered m);
          settled = λ m. ground (arith, on_jobs-snoc (open_for m) s.work new, b.settled m);
          queued = AllOpen-snoc s.work new b.queued refl;
          held = b.held;
        })
        (λ _. b)
    where
      new : Job
      new = record { msg = msg; item = item; saved_errno = 0; req_state = true }
  loop_part-Balanced wakes e =
      if-lem Balanced (s.completion_pipe == 0) (λ _. b)
        (λ _. record {
          answered = λ m. omega (arith, ap (on_reactor (present m)) e, b.answered m);
          settled = λ m. omega (arith, ap (on_reactor (open_for m)) e, b.settled m);
          queued = b.queued;
          held = b.held;
        })
  loop_part-Balanced returns e = record {
    answered = λ m. omega (arith, ap (on_reactor (present m)) e, b.answered m);
    settled = λ m. omega (arith, ap (on_reactor (open_for m)) e, b.settled m);
    queued = b.queued;
    held = b.held;
  }

  -- The reactor thread goes on, with the completion queue, the pipe and the log that it leaves.
  stepped :
      (r r' : Reactor) (completions : List Job) (pipe : ℕ) (log : List Event)
      → s.reactor ≡ r
      → ((msg : ℕ)
          → on_jobs (present msg) completions + on_reactor (present msg) r' + responses msg log
            ≡ on_jobs (present msg) s.completions
              + on_reactor (present msg) r
              + responses msg s.log)
      → ((msg : ℕ)
          → on_jobs (open_for msg) completions + on_reactor (open_for msg) r' + settlements msg log
            ≡ on_jobs (open_for msg) s.completions
              + on_reactor (open_for msg) r
              + settlements msg s.log)
      → Balanced
          (record s { reactor = r'; completions = completions; completion_pipe = pipe; log = log })
  stepped r r' completions pipe log e same_present same_open = record {
    answered = λ m. omega (arith, ap (on_reactor (present m)) e, same_present m, b.answered m);
    settled = λ m. omega (arith, ap (on_reactor (open_for m)) e, same_open m, b.settled m);
    queued = b.queued;
    held = b.held;
  }

  pub reactor_part-Balanced :
      (h : Happens) (bytes : ℕ) (r : Reactor) → s.reactor ≡ r → Balanced (reactor_part h bytes r s)
  unfolding reactor_part
  reactor_part-Balanced h bytes running e = loop_part-Balanced h e
  reactor_part-Balanced h bytes draining e =
      if-lem Balanced (s.completion_pipe == 0)
        (λ _.
          stepped draining drained s.completions s.completion_pipe s.log e (λ m. refl) (λ m. refl))
        (λ _. record {
          answered = b.answered;
          settled = b.settled;
          queued = b.queued;
          held = b.held;
        })
  reactor_part-Balanced h bytes drained e =
      stepped drained (finishing s.completions) [] s.completion_pipe s.log e (λ m. omega arith)
        (λ m. omega arith)
  reactor_part-Balanced h bytes (finishing []) e =
      stepped (finishing []) running s.completions s.completion_pipe s.log e (λ m. refl) (λ m. refl)
  reactor_part-Balanced h bytes (finishing (j ∷ rest)) e =
      stepped (finishing (j ∷ rest)) (finishing rest) s.completions s.completion_pipe
        (finish_events j s.log) e (λ m. omega (arith, finish_events-responses m j s.log))
        (λ m. omega (arith, finish_events-settlements m j s.log))
  reactor_part-Balanced h bytes joining e =
      if-lem Balanced (all_exited s.num_fetch_workers s.workers)
        (λ _.
          stepped joining stopped s.completions s.completion_pipe s.log e (λ m. refl) (λ m. refl))
        (λ _. b)
  reactor_part-Balanced h bytes stopped e = b

pub Moves-Balanced : {s t : Pool} → Moves s t → Balanced s → Balanced t
Moves-Balanced {s} (by_worker m i below) b = worker_part-Balanced i s below b m (s.workers i) refl
Moves-Balanced {s} (by_reactor h bytes) b = reactor_part-Balanced s b h bytes s.reactor refl

pub started-Balanced : (safe : Bool) (capacity n : ℕ) → Balanced (started safe capacity n)
started-Balanced safe capacity n = record {
  answered =
      λ m. omega (arith, sum_to-eq_zero (on_phase (present m)) n (λ _. waiting) (λ i _. refl));
  settled =
      λ m. omega (arith, sum_to-eq_zero (on_phase (open_for m)) n (λ _. waiting) (λ i _. refl));
  queued = tt;
  held = λ i. tt;
}

-- In every state that a pool reaches, each request that was queued has been answered once or is held
-- in one place, and its detached request has been sent or aborted once or is open in one place.
pub Reaches-Balanced :
    {safe : Bool} {capacity n : ℕ} {t : Pool} → Reaches (started safe capacity n) t → Balanced t
Reaches-Balanced {safe} {capacity} {n} none_yet = started-Balanced safe capacity n
Reaches-Balanced (and_then r m) = Moves-Balanced m (Reaches-Balanced r)
