-- ===== src/Service/Pool/Balance.antt =====
-- No request is lost, and none is answered twice.
use dyad.Prelude.{
  ℕ, ◌+◌, ◌<◌, ◌≡◌, refl, ap, subst, true, false, not, List, [], ◌∷◌, ◌++◌, arith, ltb, ◌==◌,
  if-lem,
}
use dyad.Core.Codes.{Rc, is_error}
use dyad.Service.Pool.{
  Job, Event, sent, aborted, Phase, waiting, processing, sending, pushing, waking, exited, Pool,
  update, set_phase, Meets, wait_part, after_send, send_part, worker_part,
}
use dyad.Service.Pool.Weights.{
  sum_to, sum_to-update, on_jobs, on_jobs-snoc, on_phase, weight, present, open_for, times,
  responds, settles, responses, settlements,
}

abbrev pub AllOpen : List Job → Type 0
AllOpen [] = Unit
AllOpen (j ∷ rest) = (j.req_state ≡ true) × AllOpen rest

pub AllOpen-snoc :
    (js : List Job) (j : Job) → AllOpen js → j.req_state ≡ true → AllOpen (js ++ j ∷ [])
AllOpen-snoc [] j h k = (k, tt)
AllOpen-snoc (x ∷ js) j h k = (h.0, AllOpen-snoc js j h.1 k)

abbrev pub IsOpen : Phase → Type 0
IsOpen (processing j) = j.req_state ≡ true
IsOpen (sending j) = j.req_state ≡ true
IsOpen (pushing j) = Unit
IsOpen waiting = Unit
IsOpen waking = Unit
IsOpen exited = Unit

-- A request that was queued is held in one place or answered, and its detached request is open in one
-- place or settled: as often as it was queued.
pub record Balanced (s : Pool) : Type 0 where
  pub answered : (msg : ℕ) → weight (present msg) s + responses msg s.log ≡ times msg s.accepted
  pub settled : (msg : ℕ) → weight (open_for msg) s + settlements msg s.log ≡ times msg s.accepted
  pub queued : AllOpen s.work
  pub held : (i : ℕ) → IsOpen (s.workers i)

module _ (i : ℕ) (s : Pool) (below : i < s.num_fetch_workers) (b : Balanced s) where
  -- A worker that changes its phase, with what else its part changes.
  moved :
      (p p' : Phase) (work completions : List Job) (pipe : ℕ) (log : List Event)
      → s.workers i ≡ p
      → ((msg : ℕ)
          → on_jobs (present msg) work
              + on_jobs (present msg) completions
              + on_phase (present msg) p'
              + responses msg log
            ≡ on_jobs (present msg) s.work
              + on_jobs (present msg) s.completions
              + on_phase (present msg) p
              + responses msg s.log)
      → ((msg : ℕ)
          → on_jobs (open_for msg) work
              + on_jobs (open_for msg) completions
              + on_phase (open_for msg) p'
              + settlements msg log
            ≡ on_jobs (open_for msg) s.work
              + on_jobs (open_for msg) s.completions
              + on_phase (open_for msg) p
              + settlements msg s.log)
      → AllOpen work
      → IsOpen p'
      → Balanced (
          set_phase i p' (record s {
            work = work;
            completions = completions;
            completion_pipe = pipe;
            log = log;
          }))
  moved p p' work completions pipe log e same_present same_open queued now = record {
    answered = λ msg. omega (arith, share (present msg), same_present msg, b.answered msg);
    settled = λ msg. omega (arith, share (open_for msg), same_open msg, b.settled msg);
    queued = queued;
    held = λ k. if-lem IsOpen (i == k) (λ _. now) (λ _. b.held k);
  }
    where
      share :
          (w : Job → ℕ)
          → sum_to (on_phase w) s.num_fetch_workers (update s.workers i p') + on_phase w p
            ≡ sum_to (on_phase w) s.num_fetch_workers s.workers + on_phase w p'
      share w = rw (← e) (sum_to-update (on_phase w) s.num_fetch_workers s.workers i p' below)

  phase_only :
      (p p' : Phase)
      → s.workers i ≡ p
      → ((msg : ℕ) → on_phase (present msg) p' ≡ on_phase (present msg) p)
      → ((msg : ℕ) → on_phase (open_for msg) p' ≡ on_phase (open_for msg) p)
      → IsOpen p'
      → Balanced (set_phase i p' s)
  phase_only p p' e same_present same_open now =
      moved p p' s.work s.completions s.completion_pipe s.log e
        (λ msg. omega (arith, same_present msg)) (λ msg. omega (arith, same_open msg)) b.queued now

  wait_part-Balanced :
      (js : List Job) → s.workers i ≡ waiting → s.work ≡ js → Balanced (wait_part i js s)
  wait_part-Balanced [] e e' =
      if-lem Balanced s.workers_shutdown
        (λ _. phase_only waiting exited e (λ msg. refl) (λ msg. refl) tt) (λ _. b)
  wait_part-Balanced (j ∷ rest) e e' =
      moved waiting (processing j) rest s.completions s.completion_pipe s.log e
        (λ msg. omega (arith, ap (on_jobs (present msg)) e'))
        (λ msg. omega (arith, ap (on_jobs (open_for msg)) e')) rest_open.1 rest_open.0
    where
      rest_open : AllOpen (j ∷ rest)
      rest_open = subst AllOpen e' b.queued

  -- A send or an abort, which the job then no longer owes.
  settled_by :
      (j j' : Job) (event : Event)
      → s.workers i ≡ sending j
      → j.req_state ≡ true
      → j'.msg ≡ j.msg
      → j'.req_state ≡ false
      → ((msg : ℕ) → responds msg event ≡ 0)
      → ((msg : ℕ) → settles msg event ≡ present msg j)
      → Balanced (set_phase i (pushing j') (record s { log = event ∷ s.log }))
  settled_by j j' event e open_ same closed silent settling =
      moved (sending j) (pushing j') s.work s.completions s.completion_pipe (event ∷ s.log) e
        (λ msg. ground (arith, silent msg)) (λ msg. ground (arith, settling msg)) b.queued tt

  send_part-Balanced : (rc : Rc) (j : Job) → s.workers i ≡ sending j → Balanced (send_part rc i j s)
  send_part-Balanced rc j e =
      if-lem Balanced (not s.send_detached_is_thread_safe)
        (λ _. phase_only (sending j) (pushing j) e (λ msg. refl) (λ msg. refl) tt)
        (λ _.
          if-lem Balanced (is_error j.item.rc)
            (λ _.
              settled_by j (record j { req_state = false }) (aborted j.msg) e open_now refl refl
                (λ msg. refl) (λ msg. refl))
            (λ _.
              settled_by j (after_send rc j) (sent j.msg j.item.inbuf) e open_now (ground arith)
                (ground arith) (λ msg. refl) (λ msg. refl)))
    where
      open_now : j.req_state ≡ true
      open_now = subst IsOpen e (b.held i)

  pub worker_part-Balanced :
      (m : Meets) (p : Phase) → s.workers i ≡ p → Balanced (worker_part m i p s)
  unfolding worker_part
  worker_part-Balanced m waiting e = wait_part-Balanced s.work e refl
  worker_part-Balanced m (processing j) e =
      phase_only (processing j) (sending (record j { item = m.item; saved_errno = m.saved_errno }))
        e (λ msg. refl) (λ msg. refl) (subst IsOpen e (b.held i))
  worker_part-Balanced m (sending j) e = send_part-Balanced m.sent j e
  worker_part-Balanced m (pushing j) e =
      moved (pushing j) waking s.work (s.completions ++ j ∷ []) s.completion_pipe s.log e
        (λ msg. omega (arith, on_jobs-snoc (present msg) s.completions j))
        (λ msg. omega (arith, on_jobs-snoc (open_for msg) s.completions j)) b.queued tt
  worker_part-Balanced m waking e =
      if-lem Balanced m.interrupted (λ _. b)
        (λ _.
          if-lem Balanced (ltb s.completion_pipe s.pipe_capacity)
            (λ _.
              moved waking waiting s.work s.completions (s.completion_pipe + 1) s.log e
                (λ msg. refl) (λ msg. refl) b.queued tt)
            (λ _. phase_only waking waiting e (λ msg. refl) (λ msg. refl) tt))
  worker_part-Balanced m exited e = b
